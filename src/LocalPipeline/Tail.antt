-- ===== src/LocalPipeline/Tail.antt =====
-- What the final recording holds beyond the segments (`_extract_missing_tail`).
use package.text.Mathlib.Text.{starts_with}
use second_capture.Base.{
  ℕ, zero, suc, ◌+◌, ◌-◌, ◌*◌, min, String, str_eq, Bool, true, false, ◌&&◌, ltb, leb, is_some,
  Option, none, some, List, [], ◌∷◌, length, take, if◌then◌else◌,
}
use second_capture.Base.Text.{is_empty, strip, contains}
use second_capture.Base.Lines.{size, join, words, drop}

-- `" ".join(value.split()).strip()`.
unfoldable pub normalize_text : String → String
normalize_text value = strip (join " " (words value))

-- What follows the last place where the part stands.
unfoldable pub after_last : String → String → Option String
after_last part String.[] = if is_empty part then some String.[] else none
after_last part (String.◌∷◌ c s) =
    let later = after_last part s in
    if is_some later
    then later
    else if starts_with (String.◌∷◌ c s) part
    then some (drop (size part) (String.◌∷◌ c s))
    else none

abbrev pub drop_items : ℕ → List String → List String
drop_items zero xs = xs
drop_items (suc n) [] = []
drop_items (suc n) (x ∷ xs) = drop_items n xs

unfoldable pub same_items : List String → List String → Bool
same_items [] [] = true
same_items [] (y ∷ ys) = false
same_items (x ∷ xs) [] = false
same_items (x ∷ xs) (y ∷ ys) = str_eq x y && same_items xs ys

-- The loop over the lengths of an overlap, from `n` down to 3: the tokens after the overlap.
unfoldable pub after_overlap : ℕ → List String → List String → Option (List String)
after_overlap zero existing backup = none
after_overlap (suc n) existing backup =
    let shorter = after_overlap n existing backup in
    let last = drop_items (length existing - suc n) existing in
    if ltb (suc n) 3
    then none
    else if same_items last (take (suc n) backup)
    then some (drop_items (suc n) backup)
    else shorter

-- The set of a list's items.
unfoldable pub distinct : List String → List String
distinct [] = []
distinct (x ∷ xs) = let rest = distinct xs in if contains x rest then rest else x ∷ rest

unfoldable pub shared : List String → List String → ℕ
shared [] ys = 0
shared (x ∷ xs) ys = let rest = shared xs ys in if contains x ys then suc rest else rest

-- Whether at least 45 of 100 tokens of the smaller set are in both.
unfoldable pub is_about_the_same : List String → List String → Bool
is_about_the_same existing backup =
    let a = distinct existing in
    let b = distinct backup in
    let smaller = min (length a) (length b) in
    ltb 0 smaller && leb (45 * smaller) (100 * shared a b)

-- Where there is no overlap.
unfoldable pub tail_without_overlap : String → List String → List String → String
tail_without_overlap backup_norm existing backup =
    if is_about_the_same existing backup
    then ""
    else if ltb (length existing) 8 && ltb (length existing + 4) (length backup)
    then backup_norm
    else ""

unfoldable pub tail_by_tokens : String → List String → List String → String
tail_by_tokens backup_norm existing backup =
    elim (after_overlap (min (min (length existing) (length backup)) 120) existing backup) [
      | some rest ↦ strip (join " " rest)
      | none ↦ tail_without_overlap backup_norm existing backup
    ]

unfoldable pub extract_missing_tail : String → String → String
extract_missing_tail existing_text backup_text =
    let existing_norm = normalize_text existing_text in
    let backup_norm = normalize_text backup_text in
    if is_empty backup_norm
    then ""
    else if is_empty existing_norm
    then backup_norm
    else if starts_with backup_norm existing_norm
    then strip (drop (size existing_norm) backup_norm)
    else elim (after_last existing_norm backup_norm) [
      | some rest ↦ strip rest
      | none ↦ tail_by_tokens backup_norm (words existing_norm) (words backup_norm)
    ]
