-- ===== src/Storage/Records/Given.antt =====
-- The numbers that the operations give to the file of a meeting, and the file with one.
use second_capture.Base.{
  ℕ, zero, suc, ◌==◌, ◌≡◌, refl, sym, subst, ◌∙◌, ◌⊎◌, inl, inr, String, Bool-cases, arith,
}
use second_capture.Base.Dict.{lookup-insert_self}
use second_capture.Base.Errors.{Outcome, ok, err, Exc, bind_ok, bind_err, Op, pure, ◌>>=◌}
use second_capture.Config.{ℤ, pos, negsuc}
use second_capture.Storage.Records.{
  Metadata, File, missing, unreadable, content, Disk, positive_part, index_of, next_record_index,
  meta_at, put_meta, metadata_of, write_meta, index_or_next, index_unless_zero,
}
use second_capture.Storage.Records.Numbers.{
  positive_of, IsNumbered, next-IsFresh, counted-IsNumbered, IsGiven, put-IsNumbered,
}

-- A number for the file of a meeting, at a state where the numbers are kept apart, or an exception
-- that changes nothing.
unfoldable pub Gives : {A : Type 0} → (A → ℕ) → String → Disk → Outcome A × Disk → Type 0
Gives {A} number meeting_id d out =
    ((i : A) × (d' : Disk) × (out ≡ (ok i, d'))
      × IsNumbered d'
      × ((m : Metadata) → positive_of m.record_index ≡ number i → IsGiven meeting_id m d'))
    ⊎ ((x : Exc) × (out ≡ (err x, d)))

meta_at-put :
    (meeting_id : String) (m : Metadata) (d : Disk)
    → metadata_of (meta_at meeting_id (put_meta meeting_id m d)) ≡ m
unfolding meta_at put_meta
meta_at-put meeting_id m d = ground (arith, lookup-insert_self meeting_id (content m) d.metas)

-- The numbers are kept apart, and what is returned is what the file then holds.
abbrev pub IsKept : String → Outcome Metadata × Disk → Type 0
IsKept meeting_id out =
    IsNumbered out.1 × ((m : Metadata) → out.0 ≡ ok m → metadata_of (meta_at meeting_id out.1) ≡ m)

pub raised-IsKept :
    (meeting_id : String) (x : Exc) (d : Disk) → IsNumbered d → IsKept meeting_id (err x, d)
raised-IsKept meeting_id x d h = (h, λ m e. ground arith)

-- What is written with a number that was given.
pub written-IsKept :
    {A : Type 0} (number : A → ℕ) (now meeting_id : String) (d : Disk) (give : Op Disk A)
    (make : A → Metadata)
    → IsNumbered d
    → ((i : A) → positive_of (make i).record_index ≡ number i)
    → Gives number meeting_id d (give d)
    → IsKept meeting_id ((give >>= λ i. write_meta now meeting_id (make i)) d)
unfolding Gives
written-IsKept {A} number now meeting_id d give make h numbers (inl (i, d', e, apart, given)) =
    let write = λ (j : A). write_meta now meeting_id (make j) in
    subst (IsKept meeting_id) (sym (bind_ok give write d d' i e)) (
      put-IsNumbered meeting_id (make i) d' apart (given (make i) (numbers i)),
      λ m same. ground (arith, meta_at-put meeting_id (make i) d'),
    )
written-IsKept {A} number now meeting_id d give make h numbers (inr (x, e)) =
    let write = λ (j : A). write_meta now meeting_id (make j) in
    subst (IsKept meeting_id) (sym (bind_err give write d d x e)) (raised-IsKept meeting_id x d h)

-- The next number is one.
pub next-Gives :
    (meeting_id : String) (d : Disk)
    → IsNumbered d
    → Gives (λ n. n) meeting_id d (next_record_index d)
unfolding Gives
next-Gives meeting_id d h = elim (next-IsFresh d h) [
  | inr (x, e) ↦ inr (x, e)
  | inl (n, e, above) ↦ inl (
    n,
    record d { counter = content (ok (pos n)) },
    e,
    counted-IsNumbered d n h above,
    λ m same. inr (same, above),
  )
]

map-Gives :
    {A B : Type 0} (number : A → ℕ) (number' : B → ℕ) (make : A → B) (meeting_id : String)
    (d : Disk) (give : Op Disk A)
    → ((i : A) → number' (make i) ≡ number i)
    → Gives number meeting_id d (give d)
    → Gives number' meeting_id d ((give >>= λ i. pure (make i)) d)
unfolding Gives
map-Gives number number' make meeting_id d give same (inr (x, e)) =
    inr (x, bind_err give (λ i. pure (make i)) d d x e)
map-Gives number number' make meeting_id d give same (inl (i, d', e, apart, given)) = inl (
  make i,
  d',
  bind_ok give (λ i. pure (make i)) d d' i e,
  apart,
  λ m number_m. given m (number_m ∙ same i),
)

pub index_or_next-Gives :
    (r : Outcome ℤ) (meeting_id : String) (d : Disk)
    → IsNumbered d
    → positive_of r ≡ index_of (meta_at meeting_id d)
    → Gives (λ n. n) meeting_id d (index_or_next r d)
unfolding index_or_next Gives
index_or_next-Gives (err x) meeting_id d h held = inr (x, refl)
index_or_next-Gives (ok z) meeting_id d h held = elim (Bool-cases (positive_part z == 0)) [
  | inl none_yet ↦
      let next : index_or_next (ok z) d ≡ next_record_index d = ground arith in
      subst (Gives (λ n. n) meeting_id d) (sym next) (next-Gives meeting_id d h)
  | inr has_one ↦ inl (positive_part z, d, ground arith, h, λ m same. inl (same ∙ held))
]

pub index_unless_zero-Gives :
    (r : Outcome ℤ) (meeting_id : String) (d : Disk)
    → IsNumbered d
    → positive_of r ≡ index_of (meta_at meeting_id d)
    → Gives positive_part meeting_id d (index_unless_zero r d)
unfolding index_unless_zero Gives
index_unless_zero-Gives (err x) meeting_id d h held = inr (x, refl)
index_unless_zero-Gives (ok (negsuc n)) meeting_id d h held =
    inl (negsuc n, d, refl, h, λ m same. inl (same ∙ held))
index_unless_zero-Gives (ok (pos zero)) meeting_id d h held =
    map-Gives (λ n. n) positive_part pos meeting_id d next_record_index (λ n. refl)
      (next-Gives meeting_id d h)
index_unless_zero-Gives (ok (pos (suc n))) meeting_id d h held =
    inl (pos (suc n), d, ground arith, h, λ m same. inl (same ∙ held))

pub index-metadata_of : (f : File Metadata) → positive_of (metadata_of f).record_index ≡ index_of f
index-metadata_of missing = refl
index-metadata_of unreadable = refl
index-metadata_of (content m) = refl
