-- ===== src/Tests/Transcripts.antt =====
-- The theorems on transcripts and reports at concrete inputs.
use second_capture.Base.{
  ◌==◌, ◌/◌, ltb, if◌then◌else◌, ℕ, ◌*◌, ◌≡◌, ◌≤◌, refl, String, true, false, Option, none, some,
  List, [], ◌∷◌, All, arith,
}
use second_capture.Base.Text.{norm, strip, lower_char}
use second_capture.Base.Lines.{join, splitlines, has_part}
use second_capture.Base.Errors.{other, ok, err}
use second_capture.Base.Dict.{lookup}
use second_capture.Config.{pos, at_least}
use second_capture.Transcript.Speakers.{Patterns, Segment, infer_speakers}
use second_capture.Transcript.Speakers.Explained.{AllExplained}
use second_capture.Transcript.Speakers.Laws.{infer_speakers-AllExplained}
use second_capture.Transcript.Enhance.{lines_with_text, chunk_limit, split_text_for_llm}
use second_capture.Transcript.Enhance.Chunks.{Fits, split_text_for_llm_keeps}
use second_capture.Transcript.Structured.{Model, build_structured_rows}
use second_capture.Transcript.Structured.Laws.{IsAnswered, build_structured_rows-IsAnswered}
use second_capture.Report.Json.{Json, object, text, with_field, no_fields, Floats}
use second_capture.Report.Quality.{medium}
use second_capture.Report.Scores.{rubric_dimensions, normalize_scorecard, weighted_overall_score}
use second_capture.Report.Scores as Scores
use second_capture.Report.Scores.Normalized.{IsCard, normalize_scorecard-IsCard}
use second_capture.Report.Scores.Overall.{Within, overall_score_between}
use second_capture.Report.Build.{build_report, decision_from_recommendation}
use second_capture.Report.Build as Build
use second_capture.Report.Build.Laws.{IsDecided, build_report-IsDecided}
use second_capture.Report.Build.Rejections.{no_hire_is_yes}

-- A segment that holds "Anna" introduces her, and one that holds "Boris," calls him.
abbrev patterns : Patterns
patterns = record {
  intro = λ s. if has_part "Anna" s then some "anna" else none;
  host = λ s. false;
  call = λ s. if has_part "Boris," s then some "boris" else none;
  absent = λ s. false;
  skip = λ s. false;
  proxy = λ s. false;
  capitalize = λ s. s;
}

abbrev said : ℕ → String → Segment
said n s = record { seq = n; raw_text = s; enhanced_text = "" }

abbrev talk : List Segment
talk = said 1 "Anna here" ∷ said 2 "Boris, your turn" ∷ said 3 "done" ∷ []

infer_speakers-AllExplained_example :
    AllExplained patterns (at_least 1 (pos 8)) [] talk (infer_speakers patterns (pos 8) talk)
infer_speakers-AllExplained_example = infer_speakers-AllExplained patterns (pos 8) talk

split_text_for_llm_keeps_example :
    let lines = lines_with_text (splitlines "A: one") in
    (join "\n" (split_text_for_llm (pos 700) "A: one") ≡ join "\n" lines)
    × All (Fits (chunk_limit (pos 700)) lines) (split_text_for_llm (pos 700) "A: one")
split_text_for_llm_keeps_example = split_text_for_llm_keeps (pos 700) "A: one"

abbrev silent : Model ℕ
silent = record { llm_enabled = true; orchestrator = err (other "no model") }

build_structured_rows-IsAnswered_example :
    IsAnswered ℕ silent "m" "api" "now" "A: one"
      (build_structured_rows silent "m" "api" "now" "A: one" "")
build_structured_rows-IsAnswered_example =
    build_structured_rows-IsAnswered ℕ silent "m" "api" "now" "A: one" ""

-- Floats with hundredths for numbers.
abbrev floats : Floats
floats = record {
  N = ℕ;
  F = ℕ;
  is_zero = λ n. n == 0;
  show = λ n. "n";
  show_array = λ xs. "[...]";
  show_object = λ o. "{...}";
  float = λ n. n * 100;
  parse = λ s. none;
  round = λ x. some (pos (x / 100));
  less = ltb;
  hundredths = λ n. n;
}

abbrev card : Option (Json ℕ)
card =
    some
      (object (with_field "ownership" (object (with_field "score" (text "x") no_fields)) no_fields))

normalize_scorecard-IsCard_example :
    IsCard floats rubric_dimensions (normalize_scorecard floats card)
normalize_scorecard-IsCard_example = normalize_scorecard-IsCard floats card

within : All (Within floats 1 5) (normalize_scorecard floats none)
unfolding normalize_scorecard Scores.raw_items Scores.put_all Scores.default_scores Scores.rows_of
    lookup
within = (
  (omega arith, omega arith),
  ((omega arith, omega arith), ((omega arith, omega arith), ((omega arith, omega arith), tt))),
)

overall_score_between_example :
    (1 * 100 ≤ weighted_overall_score floats (normalize_scorecard floats none) no_fields)
    × (weighted_overall_score floats (normalize_scorecard floats none) no_fields ≤ 5 * 100)
overall_score_between_example = overall_score_between floats none no_fields 1 5 within

abbrev answering : Build.Model floats
answering = record {
  llm_enabled = true;
  orchestrator = ok (some (λ t. ok (object (with_field "recommendation" (text "hire") no_fields))));
}

build_report-IsDecided_example :
    IsDecided floats (strip "A: one") (build_report floats answering "A: one" no_fields)
build_report-IsDecided_example = build_report-IsDecided floats answering "A: one" no_fields

says_no_hire : has_part "no hire" (norm "No hire") ≡ true
unfolding has_part norm lower_char
says_no_hire = refl

no_hire_is_yes_example : decision_from_recommendation "No hire" medium ≡ "yes"
no_hire_is_yes_example = no_hire_is_yes "No hire" medium says_no_hire refl
