-- ===== src/Report/Quality/Laws.antt =====
-- The quality labels of two transcripts.
use second_capture.Base.{ℕ, ◌≤◌, String, List, [], ◌∷◌, ◌++◌, length-append, arith}
use second_capture.Base.Lines.{size}
use second_capture.Report.Quality.{
  Stats, sum_of, one_if, is_speaker_line, stats_of_lines, Quality, low, medium, high, quality_label,
}

abbrev pub rank : Quality → ℕ
rank low = 0
rank medium = 1
rank high = 2

label_monotone :
    (s t : Stats)
    → s.char_count ≤ t.char_count
    → s.line_count ≤ t.line_count
    → s.speaker_turns ≤ t.speaker_turns
    → rank (quality_label s) ≤ rank (quality_label t)
unfolding quality_label
label_monotone s t chars lines turns = ground arith

sum_of-append : (f : String → ℕ) (xs ys : List String) → sum_of f xs ≤ sum_of f (xs ++ ys)
sum_of-append f [] ys = omega arith
sum_of-append f (x ∷ xs) ys = omega (arith, sum_of-append f xs ys)

-- The label of a transcript's lines, as low, medium or high, is at most that of the lines with
-- further ones after them.
pub quality_label_grows :
    (xs ys : List String)
    → rank (quality_label (stats_of_lines xs)) ≤ rank (quality_label (stats_of_lines (xs ++ ys)))
unfolding stats_of_lines
quality_label_grows xs ys =
    label_monotone (stats_of_lines xs) (stats_of_lines (xs ++ ys)) (sum_of-append size xs ys)
      (omega (arith, length-append xs ys)) (sum_of-append (λ l. one_if (is_speaker_line l)) xs ys)
