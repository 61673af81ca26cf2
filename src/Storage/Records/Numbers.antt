-- ===== src/Storage/Records/Numbers.antt =====
-- The numbers on the disk: what a new one is, and what a written file does to them.
use second_capture.Base.{
  ℕ, suc, ◌≤◌, ◌<◌, ◌==◌, ◌≡◌, sym, ap, subst, ◌⊎◌, inl, inr, String, str_eq, eq_iff, true, false,
  List, [], ◌∷◌, Bool-cases, arith, if◌then◌else◌,
}
use second_capture.Base.Dict.{insert, lookup, lookup-insert}
use second_capture.Base.Errors.{Outcome, ok, err, Exc, Outcome-cases}
use second_capture.Config.{ℤ, pos}
use second_capture.Storage.Records.{
  Metadata, File, content, Disk, positive_part, index_of, last_index, scan_last_record_index,
  next_record_index, file_or_missing, meta_at, put_meta,
}

-- The number in the metadata file of a directory, 0 where there is none.
abbrev pub index_at : String → List (String × File Metadata) → ℕ
index_at a metas = index_of (file_or_missing (lookup a metas))

abbrev pub positive_of : Outcome ℤ → ℕ
positive_of (ok z) = positive_part z
positive_of (err _) = 0

-- The number that the counter holds, 0 where it holds none.
abbrev pub counted : Disk → ℕ
counted d = positive_of (last_index d.counter)

-- No number is above that of the counter, where the counter has one, and no two directories have
-- the same number.
abbrev pub IsNumbered : Disk → Type 0
IsNumbered d =
    ((a : String) → 0 < counted d → index_at a d.metas ≤ counted d)
    × ((a b : String)
        → 0 < index_at a d.metas
        → index_at a d.metas ≡ index_at b d.metas
        → str_eq a b ≡ true)

scan_bounds :
    (a : String) (l : List (String × File Metadata)) → index_at a l ≤ scan_last_record_index l
unfolding lookup scan_last_record_index
scan_bounds a [] = omega arith
scan_bounds a ((k, f) ∷ rest) = ground (arith, scan_bounds a rest)

-- A number that is given is above all others, and the counter holds it; else nothing changes.
pub next-IsFresh :
    (d : Disk)
    → IsNumbered d
    → ((n : ℕ) × (next_record_index d ≡ (ok n, record d { counter = content (ok (pos n)) }))
        × ((a : String) → index_at a d.metas < n))
      ⊎ ((x : Exc) × (next_record_index d ≡ (err x, d)))
unfolding next_record_index
next-IsFresh d h = elim (Outcome-cases (last_index d.counter)) [
  | inr (x, e) ↦ inr (x, ground arith)
  | inl (z, e) ↦ inl (
    suc (if positive_part z == 0 then scan_last_record_index d.metas else positive_part z),
    ground arith,
    λ a.
        let holds : counted d ≡ positive_part z = ap positive_of e in
        let bound = h.0 a in ground (arith, scan_bounds a d.metas),
  )
]

-- The counter may be set to a number above all.
pub counted-IsNumbered :
    (d : Disk) (n : ℕ)
    → IsNumbered d
    → ((a : String) → index_at a d.metas < n)
    → IsNumbered (record d { counter = content (ok (pos n)) })
counted-IsNumbered d n h above = (λ a _. omega (arith, above a), h.1)

index_at-insert :
    (a key : String) (m : Metadata) (l : List (String × File Metadata))
    → index_at a (insert key (content m) l)
      ≡ (if str_eq key a then positive_of m.record_index else index_at a l)
index_at-insert a key m l = rw (lookup-insert key a (content m) l) (ground arith)

put_own :
    (meeting_id : String) (m : Metadata) (d : Disk)
    → str_eq meeting_id "." ≡ true
    → put_meta meeting_id m d ≡ record d { own = content m }
unfolding put_meta
put_own meeting_id m d e = ground arith

put_apart :
    (meeting_id : String) (m : Metadata) (d : Disk)
    → str_eq meeting_id "." ≡ false
    → put_meta meeting_id m d ≡ record d { metas = insert meeting_id (content m) d.metas }
unfolding put_meta
put_apart meeting_id m d e = ground arith

meta_apart :
    (meeting_id : String) (d : Disk)
    → str_eq meeting_id "." ≡ false
    → index_of (meta_at meeting_id d) ≡ index_at meeting_id d.metas
unfolding meta_at
meta_apart meeting_id d e = ground arith

-- A number that the directory has, or that the counter has and no directory.
abbrev pub IsGiven : String → Metadata → Disk → Type 0
IsGiven meeting_id m d =
    (positive_of m.record_index ≡ index_of (meta_at meeting_id d))
    ⊎ ((positive_of m.record_index ≡ counted d) × ((a : String) → index_at a d.metas < counted d))

kept_index :
    (meeting_id : String) (m : Metadata) (d : Disk) (a : String)
    → str_eq meeting_id "." ≡ false
    → positive_of m.record_index ≡ index_of (meta_at meeting_id d)
    → index_at a (insert meeting_id (content m) d.metas) ≡ index_at a d.metas
kept_index meeting_id m d a apart kept =
    ground
      (arith, index_at-insert a meeting_id m d.metas, eq_iff meeting_id a, meta_apart meeting_id d)

-- What the directories hold after a file with such a number.
inserted-IsNumbered :
    (meeting_id : String) (m : Metadata) (d : Disk)
    → IsNumbered d
    → str_eq meeting_id "." ≡ false
    → IsGiven meeting_id m d
    → IsNumbered (record d { metas = insert meeting_id (content m) d.metas })
inserted-IsNumbered meeting_id m d h apart (inl kept) = (
  λ a c. ground (arith, kept_index meeting_id m d a, h.0 a),
  λ a b pos_a same.
      h.1 a b (ground (arith, kept_index meeting_id m d a))
        (ground (arith, kept_index meeting_id m d a, kept_index meeting_id m d b)),
)
inserted-IsNumbered meeting_id m d h apart (inr (counter, above)) = (
  λ a c. ground (arith, index_at-insert a meeting_id m d.metas, above a),
  λ a b pos_a same. ground (
    arith,
    index_at-insert a meeting_id m d.metas,
    index_at-insert b meeting_id m d.metas,
    above a,
    above b,
    h.1 a b,
    eq_iff meeting_id a,
    eq_iff meeting_id b,
    eq_iff a b,
  ),
)

pub put-IsNumbered :
    (meeting_id : String) (m : Metadata) (d : Disk)
    → IsNumbered d
    → IsGiven meeting_id m d
    → IsNumbered (put_meta meeting_id m d)
put-IsNumbered meeting_id m d h given = elim (Bool-cases (str_eq meeting_id ".")) [
  | inl own ↦ subst IsNumbered (sym (put_own meeting_id m d own)) h
  | inr apart ↦
      subst IsNumbered (sym (put_apart meeting_id m d apart))
        (inserted-IsNumbered meeting_id m d h apart given)
]
