-- ===== src/WordErrors.antt =====
-- The word error rate (src/interview_analytics_agent/processing/wer.py), from the lists of words on.
pub mod Edits
pub mod Laws
use second_capture.Base.{
  ℕ, zero, suc, ◌+◌, min, String, str_eq, Bool, true, false, Option, none, some, List, [], ◌∷◌,
  length, if◌then◌else◌,
}

abbrev pub min3 : ℕ → ℕ → ℕ → ℕ
min3 a b c = min a (min b c)

abbrev pub cost : String → String → ℕ
cost r h = if str_eq r h then 0 else 1

-- `list(range(lo, lo + n))`.
unfoldable pub count_from : ℕ → ℕ → List ℕ
count_from lo zero = []
count_from lo (suc n) = lo ∷ count_from (suc lo) n

-- The inner `for` loop: the row `prev` from `prev[j - 1]` on, and `left`, which is `curr[j - 1]`.
-- The row before has one number more than there are words left, so that the last clause is never
-- reached.
unfoldable pub fill_row : String → ℕ → List String → List ℕ → List ℕ
fill_row r left [] prev = []
fill_row r left (h ∷ hs) (diagonal ∷ up ∷ rest) =
    let here = min3 (up + 1) (left + 1) (diagonal + cost r h) in
    here ∷ fill_row r here hs (up ∷ rest)
fill_row r left (h ∷ hs) _ = []

-- The outer `for` loop, from row `i` on.
unfoldable pub rows : ℕ → List String → List String → List ℕ → List ℕ
rows i [] hyp prev = prev
rows i (r ∷ rs) hyp prev = rows (suc i) rs hyp (i ∷ fill_row r i hyp prev)

-- `prev[-1]`.
unfoldable pub last : List ℕ → ℕ
last [] = 0
last (x ∷ []) = x
last (x ∷ y ∷ rest) = last (y ∷ rest)

unfoldable pub levenshtein_distance : List String → List String → ℕ
levenshtein_distance [] hyp = length hyp
levenshtein_distance (r ∷ rs) [] = length (r ∷ rs)
levenshtein_distance (r ∷ rs) (h ∷ hs) =
    last (rows 1 (r ∷ rs) (h ∷ hs) (count_from 0 (suc (length (h ∷ hs)))))

-- A rate as a fraction.
pub record Rate : Type 0 where
  pub errors : ℕ
  pub words : ℕ

-- `word_error_rate` of the two normalized texts, as lists of words.
unfoldable pub word_error_rate : List String → List String → Rate
word_error_rate [] [] = record { errors = 0; words = 1 }
word_error_rate [] (h ∷ hs) = record { errors = 1; words = 1 }
word_error_rate (r ∷ rs) hyp = record {
  errors = levenshtein_distance (r ∷ rs) hyp;
  words = length (r ∷ rs);
}
