-- ===== src/Report/Build.antt =====
-- The decision, and the report from the answer of the language model or without one.
pub mod Laws
pub mod Rejections
use second_capture.Base.{
  ℕ, leb, String, str_eq, Bool, true, false, Option, none, some, List, [], ◌∷◌, if◌then◌else◌,
}
use second_capture.Base.Text.{is_empty, strip, truncate, norm, contains}
use second_capture.Base.Lines.{has_any_part}
use second_capture.Base.Errors.{Outcome, ok, err}
use second_capture.Report.Json.{
  Json, null, boolean, number, text, array, object, Fields, no_fields, Floats, get, get_object,
  str_or_empty, stripped_field, to_str_list, clamp_confidence, clamp_unit,
}
use second_capture.Report.Quality.{
  Stats, transcript_stats, Quality, low, quality_label, is_low, is_comparable, Level,
  normalized_level,
}
use second_capture.Report.Scores.{
  ScoreItem, scorecard_template, normalize_scorecard, weighted_overall_score,
}

-- `DECISION_STATUSES`.
abbrev pub decision_statuses : List String
decision_statuses = "strong_yes" ∷ "yes" ∷ "lean_yes" ∷ "lean_no" ∷ "no" ∷ "insufficient_data" ∷ []

unfoldable pub decision_from_recommendation : String → Quality → String
decision_from_recommendation recommendation quality =
    let rec = norm recommendation in
    if is_low quality
    then "insufficient_data"
    else if has_any_part ("strong yes" ∷ "hire" ∷ "нанять" ∷ []) rec
    then "yes"
    else if has_any_part ("lean yes" ∷ "скорее да" ∷ []) rec
    then "lean_yes"
    else if has_any_part ("lean no" ∷ "скорее нет" ∷ []) rec
    then "lean_no"
    else if has_any_part ("reject" ∷ "no hire" ∷ "отклон" ∷ []) rec
    then "no"
    else if is_low quality
    then "insufficient_data"
    else "lean_no"

-- The report. The schema's version, the objective and the constant parts are left out, and so are
-- the numbers of `data_quality` that `stats` holds.
pub record Report (f : Floats) : Type 0 where
  pub summary : String
  pub bullets : List String
  pub risk_flags : List String
  pub recommendation : String
  pub status : String
  pub confidence : f.F
  pub reason : String
  pub scorecard : List (ScoreItem f.F)
  pub overall_score : ℕ
  pub strengths : List String
  pub concerns : List String
  pub follow_up_questions : List String
  pub quality : Quality
  pub stats : Stats
  pub comparable : Bool
  pub notes : String
  pub calibration_profile : Level

module _ (f : Floats) where
  unfoldable pub default_report :
      (enhanced_transcript : String)
      → Fields f.N
      → (summary : String) → (bullets : List String) → (recommendation : String) → Report f
  default_report enhanced_transcript meeting_context summary bullets recommendation =
      let stats = transcript_stats enhanced_transcript in
      let quality = quality_label stats in
      let is_weak = is_low quality in
      let scorecard =
        scorecard_template f (if is_weak then 2 else 3) (if is_weak then 35 else 45) in
      record {
        summary = summary;
        bullets = bullets;
        risk_flags = if is_weak then "insufficient_interview_evidence" ∷ [] else [];
        recommendation = recommendation;
        status = decision_from_recommendation recommendation quality;
        confidence = clamp_unit f (f.hundredths (if is_weak then 28 else 42));
        reason =
            if is_weak
            then "Low transcript coverage; decision should be validated by reviewer."
            else "Fallback heuristic decision.";
        scorecard = scorecard;
        overall_score = weighted_overall_score f scorecard meeting_context;
        strengths = [];
        concerns = [];
        follow_up_questions = [];
        quality = quality;
        stats = stats;
        comparable = is_comparable stats;
        notes = "Fallback report without reliable interview evidence.";
        calibration_profile = normalized_level f meeting_context;
      }

  -- The status of the model, of its recommendation where it is none of the known ones, or none for
  -- a transcript of low quality.
  unfoldable pub status_of : Fields f.N → String → Quality → String
  status_of raw_decision recommendation quality =
      let status = norm (str_or_empty f (get "status" raw_decision)) in
      if is_low quality
      then "insufficient_data"
      else if contains status decision_statuses
      then status
      else decision_from_recommendation recommendation quality

  -- `min(confidence, 0.35)` for a transcript of low quality.
  unfoldable pub confidence_of : Fields f.N → Quality → f.F
  confidence_of raw_decision quality =
      let read =
        clamp_confidence f (get "confidence" raw_decision)
          (f.hundredths (if is_low quality then 30 else 62)) in
      if is_low quality
      then if f.less (f.hundredths 35) read then f.hundredths 35 else read
      else read

  unfoldable pub normalize_llm_report : Fields f.N → String → Fields f.N → Report f
  normalize_llm_report data_ enhanced_transcript meeting_context =
      let stats = transcript_stats enhanced_transcript in
      let quality = quality_label stats in
      let summary = stripped_field f "summary" data_ in
      let recommendation = stripped_field f "recommendation" data_ in
      let scorecard = normalize_scorecard f (get "scorecard" data_) in
      let raw_decision = get_object "decision" data_ in
      let highlights = get_object "highlights" data_ in
      record {
        summary = if is_empty summary then "Interview summary is unavailable." else summary;
        bullets = to_str_list f 8 (get "bullets" data_);
        risk_flags = to_str_list f 12 (get "risk_flags" data_);
        recommendation = recommendation;
        status = status_of raw_decision recommendation quality;
        confidence = confidence_of raw_decision quality;
        reason = truncate 500 (stripped_field f "reason" raw_decision);
        scorecard = scorecard;
        overall_score = weighted_overall_score f scorecard meeting_context;
        strengths = to_str_list f 6 (get "strengths" highlights);
        concerns = to_str_list f 6 (get "concerns" highlights);
        follow_up_questions = to_str_list f 8 (get "follow_up_questions" highlights);
        quality = quality;
        stats = stats;
        comparable = is_comparable stats;
        notes = truncate 280 (stripped_field f "notes" (get_object "data_quality" data_));
        calibration_profile = normalized_level f meeting_context;
      }

  -- What the code finds of the language model: the setting, the orchestrator that is built, which
  -- may raise and may be none, and the JSON that it completes, which may raise.
  abbrev pub Model : Type 0
  Model = record {
    llm_enabled : Bool;
    orchestrator : Outcome (Option (String → Outcome (Json f.N)));
  }

  abbrev pub unavailable_report : String → Fields f.N → Report f
  unavailable_report text_ meeting_context =
      default_report text_ meeting_context "LLM unavailable; basic report"
        ("Pipeline OK" ∷ "LLM unavailable" ∷ []) "insufficient_data"

  abbrev pub invalid_report : String → Fields f.N → Report f
  invalid_report text_ meeting_context =
      default_report text_ meeting_context "LLM returned invalid data; basic report"
        ("Pipeline OK" ∷ "Invalid LLM response" ∷ []) "insufficient_data"

  -- The report from the answer of `complete_json`.
  unfoldable pub report_from : Outcome (Json f.N) → String → Fields f.N → Report f
  report_from (err x) text_ meeting_context = unavailable_report text_ meeting_context
  report_from (ok data_) text_ meeting_context = elim data_ [
    | object o ↦ normalize_llm_report o text_ meeting_context
    | _ ↦ invalid_report text_ meeting_context
  ]

  -- The prompt is made of the transcript and the context; the model is given the transcript.
  unfoldable pub build_report : Model → String → Fields f.N → Report f
  build_report model enhanced_transcript meeting_context =
      let text_ = strip enhanced_transcript in
      if model.llm_enabled
      then elim model.orchestrator [
        | err x ↦ unavailable_report text_ meeting_context
        | ok none ↦ unavailable_report text_ meeting_context
        | ok (some complete_json) ↦ report_from (complete_json text_) text_ meeting_context
      ]
      else default_report text_ meeting_context "LLM disabled; basic report"
          ("Pipeline OK" ∷ "LLM enrichment disabled" ∷ []) "insufficient_data"
