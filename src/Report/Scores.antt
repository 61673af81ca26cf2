-- ===== src/Report/Scores.antt =====
-- The scorecard and the overall score.
pub mod Laws
pub mod Normalized
pub mod Overall
use second_capture.Base.{
  ℕ, zero, suc, ◌+◌, ◌*◌, max, min, String, str_eq, Bool, true, false, Option, none, some,
  from_option, List, [], ◌∷◌, ◌++◌, map, if◌then◌else◌,
}
use second_capture.Base.Text.{strip, truncate, norm}
use second_capture.Base.Dict.{lookup, insert}
use second_capture.Report.Json.{
  Json, null, boolean, number, text, array, object, Items, Fields, no_fields, with_field, Floats,
  get, items_list, str_or_empty, stripped_field, to_str_list, clamp_score, clamp_confidence,
  clamp_unit,
}
use second_capture.Report.Quality.{Level, junior, middle, senior, normalized_level}

-- `RUBRIC_DIMENSIONS`.
abbrev pub rubric_dimensions : List String
rubric_dimensions = "technical_depth" ∷ "problem_solving" ∷ "communication" ∷ "ownership" ∷ []

-- `LEVEL_WEIGHT_PROFILES`, in hundredths.
unfoldable pub weights_of : Level → List (String × ℕ)
weights_of junior =
    ("technical_depth", 25)
    ∷ ("problem_solving", 30)
    ∷ ("communication", 25)
    ∷ ("ownership", 20)
    ∷ []
weights_of middle =
    ("technical_depth", 30)
    ∷ ("problem_solving", 30)
    ∷ ("communication", 20)
    ∷ ("ownership", 20)
    ∷ []
weights_of senior =
    ("technical_depth", 35)
    ∷ ("problem_solving", 25)
    ∷ ("communication", 15)
    ∷ ("ownership", 25)
    ∷ []

pub record ScoreItem (F : Type 0) : Type 0 where
  pub dimension : String
  pub score : ℕ
  pub evidence : List String
  pub rationale : String
  pub confidence : F

module _ (f : Floats) where
  -- One entry of `_scorecard_template`.
  abbrev pub template_item : ℕ → ℕ → String → ScoreItem f.F
  template_item score confidence dim = record {
    dimension = dim;
    score = max 1 (min 5 score);
    evidence = [];
    rationale = "";
    confidence = clamp_unit f (f.hundredths confidence);
  }

  unfoldable pub scorecard_template : ℕ → ℕ → List (ScoreItem f.F)
  scorecard_template score confidence = map (template_item score confidence) rubric_dimensions

  -- The entries of the scorecard before the model's are read.
  abbrev pub default_item : String → ScoreItem f.F
  default_item dim = record {
    dimension = dim;
    score = 3;
    evidence = [];
    rationale = "";
    confidence = f.hundredths 50;
  }

  unfoldable pub default_scores : List (String × ScoreItem f.F)
  default_scores = map (λ dim. (dim, default_item dim)) rubric_dimensions

  -- `{"dimension": dim, **raw}`: the last value of a key wins.
  unfoldable pub with_default : String → Json f.N → Fields f.N → Fields f.N
  unfolding get
  with_default key v o = elim (get key o) [ none ↦ with_field key v o | some _ ↦ o ]

  unfoldable pub items_of_dict : Fields f.N → List (Json f.N)
  items_of_dict no_fields = []
  items_of_dict (with_field dim raw rest) =
      let others = items_of_dict rest in
      let scored = object (with_field "dimension" (text dim) (with_field "score" raw no_fields)) in
      elim raw [
        | object o ↦ object (with_default "dimension" (text dim) o) ∷ others
        | _ ↦ scored ∷ others
      ]

  -- `raw_items`.
  unfoldable pub raw_items : Option (Json f.N) → List (Json f.N)
  raw_items none = []
  raw_items (some v) = elim v [ array xs ↦ items_list xs | object o ↦ items_of_dict o | _ ↦ [] ]

  unfoldable pub read_item : String → ℕ → Fields f.N → ScoreItem f.F
  read_item dim before item = record {
    dimension = dim;
    score = clamp_score f (get "score" item) before;
    evidence = to_str_list f 4 (get "evidence" item);
    rationale = truncate 400 (stripped_field f "rationale" item);
    confidence = clamp_confidence f (get "confidence" item) (f.hundredths 50);
  }

  abbrev pub dimension_of : Fields f.N → String
  dimension_of item = norm (str_or_empty f (get "dimension" item))

  -- The body of the loop of `_normalize_scorecard`.
  unfoldable pub put_item : List (String × ScoreItem f.F) → Json f.N → List (String × ScoreItem f.F)
  put_item result item = elim item [
    | object o ↦ elim (lookup (dimension_of o) result) [
      | none ↦ result
      | some before ↦ insert (dimension_of o) (read_item (dimension_of o) before.score o) result
    ]
    | _ ↦ result
  ]

  unfoldable pub put_all :
      List (String × ScoreItem f.F) → List (Json f.N) → List (String × ScoreItem f.F)
  put_all result [] = result
  put_all result (x ∷ xs) = put_all (put_item result x) xs

  -- `[result[dim] for dim in RUBRIC_DIMENSIONS]`, where each is there.
  unfoldable pub rows_of : List String → List (String × ScoreItem f.F) → List (ScoreItem f.F)
  rows_of [] result = []
  rows_of (dim ∷ dims) result =
      let rest = rows_of dims result in
      elim (lookup dim result) [ none ↦ rest | some item ↦ item ∷ rest ]

  unfoldable pub normalize_scorecard : Option (Json f.N) → List (ScoreItem f.F)
  normalize_scorecard value = rows_of rubric_dimensions (put_all default_scores (raw_items value))

  -- `by_dim`, in which a later entry takes the place of an earlier one.
  unfoldable pub scores_by_dim : List (ScoreItem f.F) → List (String × ℕ) → List (String × ℕ)
  scores_by_dim [] d = d
  scores_by_dim (item ∷ rest) d =
      scores_by_dim rest (insert item.dimension (max 1 (min 5 item.score)) d)

  -- The weighted sum of `by_dim`, where 3 stands for a score that is missing, and 0 for a weight.
  unfoldable pub weighted_sum : List String → List (String × ℕ) → List (String × ℕ) → ℕ
  weighted_sum [] weights scores = 0
  weighted_sum (dim ∷ dims) weights scores =
      from_option 3 (lookup dim scores) * from_option 0 (lookup dim weights)
      + weighted_sum dims weights scores

  -- `_weighted_overall_score`, in hundredths, to which the source rounds.
  unfoldable pub weighted_overall_score : List (ScoreItem f.F) → Fields f.N → ℕ
  weighted_overall_score scorecard meeting_context = max 100 (
      min 500 (
        weighted_sum rubric_dimensions (weights_of (normalized_level f meeting_context))
          (scores_by_dim scorecard [])))
