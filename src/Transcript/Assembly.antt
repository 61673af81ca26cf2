-- ===== src/Transcript/Assembly.antt =====
-- The transcript as one text, and the estimate of an improvement
-- (src/interview_analytics_agent/processing/aggregation.py and quality.py).
use package.text.Mathlib.Text.{starts_with}
use second_capture.Base.{
  ℕ, zero, suc, ◌+◌, ◌-◌, String, ◌<>◌, Bool, true, false, not, ◌&&◌, ltb, max, min, Option, List,
  [], ◌∷◌, if◌then◌else◌,
}
use second_capture.Base.Text.{is_empty, strip, text_or}
use second_capture.Base.Lines.{size, join, ends_a_sentence}

-- `s.replace(part, "")` for a part that is not empty; `skip` characters of a match are left.
unfoldable pub remove_part : String → ℕ → String → String
remove_part part skip String.[] = String.[]
remove_part part (suc skip) (String.◌∷◌ c s) = remove_part part skip s
remove_part part zero (String.◌∷◌ c s) = elim (starts_with (String.◌∷◌ c s) part) [
  | true ↦ remove_part part (size part - 1) s
  | false ↦ String.◌∷◌ c (remove_part part zero s)
]

unfoldable pub format_speaker : Option String → String
format_speaker label =
    let l = text_or "" label in
    let name = strip (remove_part "proxy_for_" 0 l) in
    if is_empty l
    then "UNKNOWN"
    else if starts_with l "proxy_for_"
    then "PROXY_FOR_" <> (if is_empty name then "UNKNOWN" else name)
    else l

-- What is read of a segment of the database.
pub record Row : Type 0 where
  pub speaker : Option String
  pub raw_text : Option String
  pub enhanced_text : Option String

-- The lines of the loop, for the text that `text_of` takes of a segment.
unfoldable pub transcript_lines : (Row → Option String) → List Row → List String
transcript_lines text_of [] = []
transcript_lines text_of (s ∷ rest) =
    let others = transcript_lines text_of rest in
    let t = strip (text_or "" (text_of s)) in
    if is_empty t then others else (format_speaker s.speaker <> (": " <> t)) ∷ others

unfoldable pub build_raw_transcript : List Row → String
build_raw_transcript segments =
    strip (join "\n" (transcript_lines (λ (r : Row). r.raw_text) segments))

unfoldable pub build_enhanced_transcript : List Row → String
build_enhanced_transcript segments =
    strip (join "\n" (transcript_lines (λ (r : Row). r.enhanced_text) segments))

abbrev one_if : Bool → ℕ
one_if true = 1
one_if false = 0

-- `quality_score`, in tenths.
unfoldable pub quality_score : String → String → ℕ
quality_score raw_text enhanced_text =
    let shorter = not (is_empty raw_text) && ltb (size enhanced_text) (size raw_text) in
    if is_empty enhanced_text
    then 0
    else max 0 (min 10 (5 + (one_if shorter + one_if (ends_a_sentence enhanced_text))))
