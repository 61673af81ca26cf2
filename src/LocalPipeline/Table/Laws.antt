-- ===== src/LocalPipeline/Table/Laws.antt =====
-- Reading the table after a change.
use second_capture.Base.{
  ℕ, ◌≡◌, refl, String, str_eq, eq_iff, Bool, Option, none, some, List, [], ◌∷◌, arith,
  if◌then◌else◌,
}
use second_capture.LocalPipeline.Table.{
  Segment, is_at, find, upsert_by_meeting_seq, change_all, delete_meeting,
}

module _ {C : Type 0} where
  pub find-upsert :
      (m : String) (n : ℕ) (x : Segment C) (l : List (Segment C))
      → find m n (upsert_by_meeting_seq x l) ≡ (if is_at m n x then some x else find m n l)
  unfolding find upsert_by_meeting_seq
  find-upsert m n x [] = refl
  find-upsert m n x (s ∷ rest) = ground (
    arith,
    find-upsert m n x rest,
    eq_iff s.meeting_id m,
    eq_iff x.meeting_id m,
    eq_iff s.meeting_id x.meeting_id,
  )

  -- A change that keeps the key of each segment.
  abbrev pub KeepsKey : (Segment C → Segment C) → Type 0
  KeepsKey f = (s : Segment C) → ((f s).meeting_id ≡ s.meeting_id) × ((f s).seq ≡ s.seq)

  abbrev pub changed : (Segment C → Segment C) → Bool → Option (Segment C) → Option (Segment C)
  changed f b none = none
  changed f b (some s) = some (if b then f s else s)

  pub find-change_all :
      (m k : String) (n : ℕ) (f : Segment C → Segment C) (l : List (Segment C))
      → KeepsKey f
      → find m n (change_all k f l) ≡ changed f (str_eq m k) (find m n l)
  unfolding find change_all
  find-change_all m k n f [] keeps = refl
  find-change_all m k n f (s ∷ rest) keeps = ground (
    arith,
    find-change_all m k n f rest keeps,
    keeps s,
    eq_iff s.meeting_id m,
    eq_iff s.meeting_id k,
    eq_iff m k,
  )

  pub find-delete_meeting :
      (m k : String) (n : ℕ) (l : List (Segment C))
      → find m n (delete_meeting k l) ≡ (if str_eq m k then none else find m n l)
  unfolding find delete_meeting
  find-delete_meeting m k n [] = ground arith
  find-delete_meeting m k n (s ∷ rest) = ground (
    arith,
    find-delete_meeting m k n rest,
    eq_iff s.meeting_id m,
    eq_iff s.meeting_id k,
    eq_iff m k,
  )
