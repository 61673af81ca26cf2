-- ===== src/Report/Scores/Normalized.antt =====
-- The rows of the normalized scorecard, and the overall score that they have.
use second_capture.Base.{
  ℕ, ◌≡◌, ◌≤◌, inl, inr, refl, sym, subst, String, str_eq, eq_iff, Option, none, some, Option-cases,
  Bool-cases, List, [], ◌∷◌, map, All, arith,
}
use second_capture.Base.Lines.{size}
use second_capture.Base.Dict.{lookup, insert, lookup-insert}
use second_capture.Report.Json.{Json, null, boolean, number, text, array, object, Fields, Floats}
use second_capture.Report.Scores.Laws.{IsValid, read_item-IsValid}
use second_capture.Report.Scores.{
  rubric_dimensions, ScoreItem, default_item, default_scores, raw_items, read_item, dimension_of,
  put_item, put_all, rows_of, normalize_scorecard,
}

module _ (f : Floats) where
  abbrev Table : Type 0
  Table = List (String × ScoreItem f.F)

  -- Every entry is valid and stands under its own dimension.
  abbrev AllValid : Table → Type 0
  AllValid result =
      (dim : String) (item : ScoreItem f.F)
      → lookup dim result ≡ some item
      → (item.dimension ≡ dim) × IsValid f item

  -- Every dimension of the rubric is there.
  abbrev IsFull : Table → Type 0
  IsFull result =
      All (λ dim. (item : ScoreItem f.F) × (lookup dim result ≡ some item)) rubric_dimensions

  insert-AllValid :
      (result : Table) (key : String) (item : ScoreItem f.F)
      → AllValid result
      → item.dimension ≡ key
      → IsValid f item
      → AllValid (insert key item result)
  insert-AllValid result key item h own valid dim x e = elim (Bool-cases (str_eq key dim)) [
    | inl same ↦
        let is_item : item ≡ x = ground (arith, lookup-insert key dim item result) in
        let is_key : key ≡ dim = (eq_iff key dim).0 same in
        subst (λ y. (y.dimension ≡ dim) × IsValid f y) is_item (cc (own, is_key), valid)
    | inr apart ↦ h dim x (ground (arith, lookup-insert key dim item result))
  ]

  abbrev Has : String → Table → Type 0
  Has dim result = (item : ScoreItem f.F) × (lookup dim result ≡ some item)

  insert-Has :
      (result : Table) (key dim : String) (item : ScoreItem f.F)
      → Has dim result
      → Has dim (insert key item result)
  insert-Has result key dim item (x, e) = elim (Bool-cases (str_eq key dim)) [
    | inl same ↦ (item, ground (arith, lookup-insert key dim item result))
    | inr apart ↦ (x, ground (arith, lookup-insert key dim item result))
  ]

  abbrev IsGood : Table → Type 0
  IsGood result = AllValid result × IsFull result

  insert-IsGood :
      (result : Table) (key : String) (item : ScoreItem f.F)
      → IsGood result
      → item.dimension ≡ key
      → IsValid f item
      → IsGood (insert key item result)
  insert-IsGood result key item (h, (a, (b, (c, (d, _))))) own valid = (
    insert-AllValid result key item h own valid,
    (
      insert-Has result key "technical_depth" item a,
      (
        insert-Has result key "problem_solving" item b,
        (
          insert-Has result key "communication" item c,
          (insert-Has result key "ownership" item d, tt),
        ),
      ),
    ),
  )

  skip_lem :
      (result : Table) (o : Fields f.N)
      → lookup (dimension_of f o) result ≡ none
      → put_item f result (object o) ≡ result
  unfolding put_item
  skip_lem result o e = ground arith

  put_lem :
      (result : Table) (o : Fields f.N) (before : ScoreItem f.F)
      → lookup (dimension_of f o) result ≡ some before
      → put_item f result (object o)
        ≡ insert (dimension_of f o) (read_item f (dimension_of f o) before.score o) result
  unfolding put_item
  put_lem result o before e = ground arith

  read_dimension :
      (dim : String) (before : ℕ) (o : Fields f.N) → (read_item f dim before o).dimension ≡ dim
  unfolding read_item
  read_dimension dim before o = refl

  size_empty : size "" ≤ 400
  unfolding size
  size_empty = omega arith

  row_lem :
      (dim : String) (dims : List String) (result : Table) (item : ScoreItem f.F)
      → lookup dim result ≡ some item
      → rows_of f (dim ∷ dims) result ≡ item ∷ rows_of f dims result
  unfolding rows_of
  row_lem dim dims result item e = ground arith

  put_item-IsGood :
      (result : Table) (item : Json f.N) → IsGood result → IsGood (put_item f result item)
  unfolding put_item
  put_item-IsGood result null h = h
  put_item-IsGood result (boolean b) h = h
  put_item-IsGood result (number n) h = h
  put_item-IsGood result (text s) h = h
  put_item-IsGood result (array xs) h = h
  put_item-IsGood result (object o) h = elim (Option-cases (lookup (dimension_of f o) result)) [
    | inl e ↦ subst IsGood (sym (skip_lem result o e)) h
    | inr (before, e) ↦ subst IsGood (sym (put_lem result o before e)) (
        insert-IsGood result (dimension_of f o) (read_item f (dimension_of f o) before.score o) h
          (read_dimension (dimension_of f o) before.score o)
          (read_item-IsValid f (dimension_of f o) before.score o))
  ]

  put_all-IsGood :
      (items : List (Json f.N)) (result : Table) → IsGood result → IsGood (put_all f result items)
  unfolding put_all
  put_all-IsGood [] result h = h
  put_all-IsGood (x ∷ xs) result h =
      put_all-IsGood xs (put_item f result x) (put_item-IsGood result x h)

  default_found :
      (dims : List String) (dim : String) (item : ScoreItem f.F)
      → lookup dim (map (λ d. (d, default_item f d)) dims) ≡ some item
      → default_item f dim ≡ item
  unfolding lookup
  default_found [] dim item e = absurd (cc e)
  default_found (d ∷ dims) dim item e = ground (arith, eq_iff d dim, default_found dims dim item)

  default-IsGood : IsGood (default_scores f)
  unfolding default_scores lookup
  default-IsGood = (
    λ dim item e.
        subst (λ x. (x.dimension ≡ dim) × IsValid f x) (default_found rubric_dimensions dim item e)
          (refl, (omega arith, omega arith, (omega arith, tt), size_empty)),
    (
      (default_item f "technical_depth", refl),
      (
        (default_item f "problem_solving", refl),
        ((default_item f "communication", refl), ((default_item f "ownership", refl), tt)),
      ),
    ),
  )

  -- A valid entry of each dimension, in the order of the rubric.
  abbrev pub IsCard : List String → List (ScoreItem f.F) → Type 0
  IsCard [] [] = Unit
  IsCard [] (item ∷ rest) = ⊥
  IsCard (dim ∷ dims) [] = ⊥
  IsCard (dim ∷ dims) (item ∷ rest) = ((item.dimension ≡ dim) × IsValid f item) × IsCard dims rest

  rows-IsCard :
      (dims : List String) (result : Table)
      → AllValid result
      → All (λ dim. Has dim result) dims
      → IsCard dims (rows_of f dims result)
  rows-IsCard [] result h full = unfold rows_of in tt
  rows-IsCard (dim ∷ dims) result h ((item, e), full) =
      subst (IsCard (dim ∷ dims)) (sym (row_lem dim dims result item e))
        (h dim item e, rows-IsCard dims result h full)

  -- Whatever the model answers for the scorecard, it becomes one entry for each dimension of the
  -- rubric, in the rubric's order, with a score from 1 to 5, at most 4 pieces of evidence, none of
  -- them empty or of more than 280 characters, and a rationale of at most 400 characters.
  pub normalize_scorecard-IsCard :
      (value : Option (Json f.N)) → IsCard rubric_dimensions (normalize_scorecard f value)
  unfolding normalize_scorecard
  normalize_scorecard-IsCard value =
      let (h, full) = put_all-IsGood (raw_items f value) (default_scores f) default-IsGood in
      rows-IsCard rubric_dimensions (put_all f (default_scores f) (raw_items f value)) h full
