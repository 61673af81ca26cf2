-- ===== src/Report/Scores/Laws.antt =====
-- What the normalized scorecard holds, and the overall score.
use second_capture.Base.{
  ℕ, zero, suc, ◌≡◌, ◌≤◌, ◌⊎◌, inl, inr, refl, sym, subst, String, true, false, Option, none, some,
  Bool-cases, List, [], ◌∷◌, length, All, arith,
}
use second_capture.Base.Text.{is_empty, truncate, strip}
use second_capture.Base.Lines.{size}
use second_capture.Report.Json.{
  Json, null, boolean, number, text, array, object, Fields, Floats, get, items_list, take_texts,
  to_str_list, str_or_empty, clamp_score, stripped_field,
}
use second_capture.Report.Scores.{ScoreItem, read_item}

-- A text of at most `n` characters, and not empty.
abbrev pub IsShort : ℕ → String → Type 0
IsShort n s = (is_empty s ≡ false) × (size s ≤ n)

size-truncate : (n : ℕ) (s : String) → size (truncate n s) ≤ n
unfolding size truncate
size-truncate zero s = omega arith
size-truncate (suc n) String.[] = omega arith
size-truncate (suc n) (String.◌∷◌ c s) = omega (arith, size-truncate n s)

truncate_filled : (n : ℕ) (s : String) → is_empty s ≡ false → is_empty (truncate (suc n) s) ≡ false
unfolding is_empty truncate
truncate_filled n String.[] h = h
truncate_filled n (String.◌∷◌ c s) h = refl

module _ (f : Floats) where
  take_texts_step :
      (n : ℕ) (x : Json f.N) (xs : List (Json f.N))
      → let t = strip (str_or_empty f (some x)) in
        ((is_empty t ≡ true) × (take_texts f (suc n) (x ∷ xs) ≡ take_texts f (suc n) xs))
        ⊎ ((is_empty t ≡ false)
            × (take_texts f (suc n) (x ∷ xs) ≡ truncate 280 t ∷ take_texts f n xs))
  unfolding take_texts
  take_texts_step n x xs = elim (Bool-cases (is_empty (strip (str_or_empty f (some x))))) [
    | inl e ↦ inl (e, ground arith)
    | inr e ↦ inr (e, ground arith)
  ]

  -- At most `n` texts of at most 280 characters, none of them empty.
  abbrev pub AreShort : ℕ → List String → Type 0
  AreShort n ts = (length ts ≤ n) × All (IsShort 280) ts

  take_texts-AreShort : (n : ℕ) (xs : List (Json f.N)) → AreShort n (take_texts f n xs)
  take_texts-AreShort zero xs = unfold take_texts in (omega arith, tt)
  take_texts-AreShort (suc n) [] = unfold take_texts in (omega arith, tt)
  take_texts-AreShort (suc n) (x ∷ xs) = elim (take_texts_step n x xs) [
    | inl (e, same) ↦ subst (AreShort (suc n)) (sym same) (take_texts-AreShort (suc n) xs)
    | inr (e, more) ↦
        let (few, short) = take_texts-AreShort n xs in
        let t = strip (str_or_empty f (some x)) in
        subst (AreShort (suc n)) (sym more)
          (omega (arith, few), ((truncate_filled 279 t e, size-truncate 280 t), short))
  ]

  pub to_str_list-AreShort : (n : ℕ) (v : Option (Json f.N)) → AreShort n (to_str_list f n v)
  unfolding to_str_list
  to_str_list-AreShort n none = (omega arith, tt)
  to_str_list-AreShort n (some null) = (omega arith, tt)
  to_str_list-AreShort n (some (boolean b)) = (omega arith, tt)
  to_str_list-AreShort n (some (number x)) = (omega arith, tt)
  to_str_list-AreShort n (some (text s)) = take_texts-AreShort n (text s ∷ [])
  to_str_list-AreShort n (some (array xs)) = take_texts-AreShort n (items_list xs)
  to_str_list-AreShort n (some (object o)) = (omega arith, tt)

  pub clamp_score_bounds :
      (v : Option (Json f.N)) (d : ℕ) → (1 ≤ clamp_score f v d) × (clamp_score f v d ≤ 5)
  unfolding clamp_score
  clamp_score_bounds v d = ground arith

  -- An entry of the scorecard within its bounds.
  abbrev pub IsValid : ScoreItem f.F → Type 0
  IsValid item =
      (1 ≤ item.score) × (item.score ≤ 5) × AreShort 4 item.evidence × (size item.rationale ≤ 400)

  pub read_item-IsValid :
      (dim : String) (before : ℕ) (item : Fields f.N) → IsValid (read_item f dim before item)
  unfolding read_item
  read_item-IsValid dim before item =
      let (lo, hi) = clamp_score_bounds (get "score" item) before in
      (
        lo,
        hi,
        to_str_list-AreShort 4 (get "evidence" item),
        size-truncate 400 (stripped_field f "rationale" item),
      )
