-- ===== src/Storage/Records/Laws.antt =====
-- The numbers of the records through a sequence of operations.
use second_capture.Base.{
  ℕ, ◌≡◌, refl, sym, subst, ◌⊎◌, inl, inr, String, Bool, true, false, List, [], ◌∷◌, Bool-cases,
  arith, if◌then◌else◌,
}
use second_capture.Base.Text.{is_empty, strip}
use second_capture.Base.Errors.{ok, err, Exc, Outcome-cases, ◌>>=◌, bind_ok, bind_err}
use second_capture.Storage.Records.{
  Metadata, Disk, positive_part, index_of, meta_at, metadata_of, safe_meeting_id,
  read_meeting_metadata, sanitize_display_name, write_meta, new_metadata, index_or_next, complete,
  ensure_meeting_metadata, index_unless_zero, rename, update_meeting_display_name,
}
use second_capture.Storage.Records.Numbers.{positive_of, IsNumbered}
use second_capture.Storage.Records.Given.{
  IsKept, raised-IsKept, written-IsKept, index_or_next-Gives, index_unless_zero-Gives,
  index-metadata_of,
}

guard_cases :
    (b : Bool) (x : Exc) (s : String)
    → let r = if b then err x else ok s in (r ≡ ok s) ⊎ ((y : Exc) × (r ≡ err y))
guard_cases true x s = inr (x, refl)
guard_cases false x s = inl refl

safe_cases : (s : String) → (safe_meeting_id s ≡ ok s) ⊎ ((x : Exc) × (safe_meeting_id s ≡ err x))
unfolding safe_meeting_id
safe_cases s = guard_cases _ _ s

-- What a read finds is what it returns; or it raises.
read_lem :
    (meeting_id : String) (d : Disk)
    → (read_meeting_metadata meeting_id d ≡ (ok (metadata_of (meta_at meeting_id d)), d))
      ⊎ ((x : Exc) × (read_meeting_metadata meeting_id d ≡ (err x, d)))
unfolding read_meeting_metadata
read_lem meeting_id d = elim (safe_cases meeting_id) [
  | inl safe ↦ inl (ground arith)
  | inr (x, unsafe) ↦ inr (x, ground arith)
]

module _ (now : String) where
  unnamed_lem :
      (default_prefix meeting_id : String) (existing : Metadata) (d : Disk)
      → is_empty (strip existing.display_name) ≡ true
      → complete now default_prefix meeting_id existing d
        ≡ (index_or_next existing.record_index >>= λ i.
              write_meta now meeting_id (new_metadata now default_prefix existing i))
            d
  unfolding complete
  unnamed_lem default_prefix meeting_id existing d e = ground arith

  named_lem :
      (default_prefix meeting_id : String) (existing : Metadata) (d : Disk)
      → is_empty (strip existing.display_name) ≡ false
      → complete now default_prefix meeting_id existing d ≡ (ok existing, d)
  unfolding complete
  named_lem default_prefix meeting_id existing d e = ground arith

  new_number :
      (default_prefix : String) (existing : Metadata) (i : ℕ)
      → positive_of (new_metadata now default_prefix existing i).record_index ≡ i
  unfolding new_metadata
  new_number default_prefix existing i = refl

  complete-IsKept :
      (default_prefix meeting_id : String) (d : Disk)
      → IsNumbered d
      → IsKept meeting_id
          (complete now default_prefix meeting_id (metadata_of (meta_at meeting_id d)) d)
  complete-IsKept default_prefix meeting_id d h =
      let existing = metadata_of (meta_at meeting_id d) in
      let held = index-metadata_of (meta_at meeting_id d) in
      elim (Bool-cases (is_empty (strip existing.display_name))) [
        | inl unnamed ↦
            subst (IsKept meeting_id)
              (sym (unnamed_lem default_prefix meeting_id existing d unnamed))
              (written-IsKept (λ n. n) now meeting_id d (index_or_next existing.record_index)
                (new_metadata now default_prefix existing) h (new_number default_prefix existing)
                (index_or_next-Gives existing.record_index meeting_id d h held))
        | inr named ↦
            subst (IsKept meeting_id) (sym (named_lem default_prefix meeting_id existing d named))
              (h, λ m same. ground arith)
      ]

  ensure-IsKept :
      (default_prefix meeting_id : String) (d : Disk)
      → IsNumbered d
      → IsKept meeting_id (ensure_meeting_metadata now default_prefix meeting_id d)
  unfolding ensure_meeting_metadata
  ensure-IsKept default_prefix meeting_id d h =
      let read = read_meeting_metadata meeting_id in
      let rest = complete now default_prefix meeting_id in
      elim (read_lem meeting_id d) [
        | inr (x, e) ↦
            subst (IsKept meeting_id) (sym (bind_err read rest d d x e))
              (raised-IsKept meeting_id x d h)
        | inl e ↦
            subst (IsKept meeting_id)
              (sym (bind_ok read rest d d (metadata_of (meta_at meeting_id d)) e))
              (complete-IsKept default_prefix meeting_id d h)
      ]

  rename-IsKept :
      (meeting_id name : String) (meta : Metadata) (d : Disk)
      → IsNumbered d
      → positive_of meta.record_index ≡ index_of (meta_at meeting_id d)
      → IsKept meeting_id (rename now meeting_id name meta d)
  unfolding rename
  rename-IsKept meeting_id name meta d h held =
      written-IsKept positive_part now meeting_id d (index_unless_zero meta.record_index) _ h
        (λ i. refl) (index_unless_zero-Gives meta.record_index meeting_id d h held)

  refused_lem :
      (meeting_id display_name : String) (x : Exc) (d : Disk)
      → sanitize_display_name display_name ≡ err x
      → update_meeting_display_name now meeting_id display_name d ≡ (err x, d)
  unfolding update_meeting_display_name
  refused_lem meeting_id display_name x d e = ground arith

  update_lem :
      (meeting_id display_name name : String) (d : Disk)
      → sanitize_display_name display_name ≡ ok name
      → update_meeting_display_name now meeting_id display_name d
        ≡ (ensure_meeting_metadata now "Запись" meeting_id >>= rename now meeting_id name) d
  unfolding update_meeting_display_name
  update_lem meeting_id display_name name d e = ground arith

  named-IsKept :
      (meeting_id name : String) (d : Disk)
      → IsNumbered d
      → IsKept meeting_id
          ((ensure_meeting_metadata now "Запись" meeting_id >>= rename now meeting_id name) d)
  named-IsKept meeting_id name d h =
      let ensure = ensure_meeting_metadata now "Запись" meeting_id in
      let d' = (ensure d).1 in
      let kept = ensure-IsKept "Запись" meeting_id d h in
      elim (Outcome-cases (ensure d).0) [
        | inr (x, e) ↦
            subst (IsKept meeting_id)
              (sym (bind_err ensure (rename now meeting_id name) d d' x (ground arith)))
              (raised-IsKept meeting_id x d' kept.0)
        | inl (m, e) ↦
            subst (IsKept meeting_id)
              (sym (bind_ok ensure (rename now meeting_id name) d d' m (ground arith)))
              (rename-IsKept meeting_id name m d' kept.0 (
                subst (λ r. positive_of r.record_index ≡ index_of (meta_at meeting_id d'))
                  (kept.1 m e) (index-metadata_of (meta_at meeting_id d'))))
      ]

  update-IsKept :
      (meeting_id display_name : String) (d : Disk)
      → IsNumbered d
      → IsKept meeting_id (update_meeting_display_name now meeting_id display_name d)
  update-IsKept meeting_id display_name d h =
      elim (Outcome-cases (sanitize_display_name display_name)) [
        | inr (x, e) ↦
            subst (IsKept meeting_id) (sym (refused_lem meeting_id display_name x d e))
              (raised-IsKept meeting_id x d h)
        | inl (name, e) ↦
            subst (IsKept meeting_id) (sym (update_lem meeting_id display_name name d e))
              (named-IsKept meeting_id name d h)
      ]

-- What the service does with the records, each at its time.
pub data Command : Type 0 where
  ensured : String → String → String → Command
  renamed : String → String → String → Command

abbrev pub obey : Command → Disk → Disk
obey (ensured now default_prefix meeting_id) d =
    (ensure_meeting_metadata now default_prefix meeting_id d).1
obey (renamed now meeting_id display_name) d =
    (update_meeting_display_name now meeting_id display_name d).1

abbrev pub run : List Command → Disk → Disk
run [] d = d
run (c ∷ cs) d = run cs (obey c d)

-- Where no two directories of meetings had the same number and none was above the counter, this is
-- so after any sequence of records made and renamed, also where some of them raise.
pub run-IsNumbered : (cs : List Command) (d : Disk) → IsNumbered d → IsNumbered (run cs d)
run-IsNumbered [] d h = h
run-IsNumbered (ensured now default_prefix meeting_id ∷ cs) d h =
    run-IsNumbered cs (ensure_meeting_metadata now default_prefix meeting_id d).1
      (ensure-IsKept now default_prefix meeting_id d h).0
run-IsNumbered (renamed now meeting_id display_name ∷ cs) d h =
    run-IsNumbered cs (update_meeting_display_name now meeting_id display_name d).1
      (update-IsKept now meeting_id display_name d h).0
