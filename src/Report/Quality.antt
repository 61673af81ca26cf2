-- ===== src/Report/Quality.antt =====
-- How much a transcript holds, and the level of the interview.
pub mod Laws
use Prim.Native.Char.{code}
use second_capture.Base.{
  ℕ, zero, suc, ◌+◌, String, str_eq, Bool, true, false, ◌&&◌, ◌||◌, ◌==◌, ltb, leb, Option, none,
  some, List, [], ◌∷◌, length, if◌then◌else◌,
}
use second_capture.Base.Text.{is_empty, is_space, strip, norm}
use second_capture.Base.Lines.{size, splitlines, stripped_texts, words, count_char, has_part}
use second_capture.Report.Json.{Json, Fields, Floats, get, str_or_empty}

-- The text after the first colon of a line, where 1 to `room` characters stand before it.
unfoldable pub after_colon : ℕ → Bool → String → Option String
after_colon room started String.[] = none
after_colon zero started (String.◌∷◌ c s) = if code c == b':' then some s else none
after_colon (suc room) started (String.◌∷◌ c s) =
    let rest = after_colon room true s in
    if code c == b':' then if started then some s else none else rest

-- At least two characters, of which the first is a space.
unfoldable pub is_said : String → Bool
is_said String.[] = false
is_said (String.◌∷◌ c String.[]) = false
is_said (String.◌∷◌ c (String.◌∷◌ d s)) = is_space c

-- `_SPEAKER_LINE_RE.match(line)` for a stripped line.
unfoldable pub is_speaker_line : String → Bool
is_speaker_line line = elim (after_colon 64 false line) [ none ↦ false | some s ↦ is_said s ]

pub record Stats : Type 0 where
  pub line_count : ℕ
  pub speaker_turns : ℕ
  pub question_count : ℕ
  pub char_count : ℕ
  pub token_count : ℕ

-- `sum(f(line) for line in lines)`.
abbrev pub sum_of : (String → ℕ) → List String → ℕ
sum_of f [] = 0
sum_of f (x ∷ xs) = f x + sum_of f xs

abbrev pub one_if : Bool → ℕ
one_if true = 1
one_if false = 0

unfoldable pub stats_of_lines : List String → Stats
stats_of_lines lines = record {
  line_count = length lines;
  speaker_turns = sum_of (λ l. one_if (is_speaker_line l)) lines;
  question_count = sum_of (count_char b'?') lines;
  char_count = sum_of size lines;
  token_count = sum_of (λ l. length (words l)) lines;
}

unfoldable pub transcript_stats : String → Stats
transcript_stats s = stats_of_lines (stripped_texts (splitlines s))

pub data Quality : Type 0 where
  low medium high : Quality

unfoldable pub quality_label : Stats → Quality
quality_label s =
    if ltb s.char_count 180 || ltb s.line_count 4 || ltb s.speaker_turns 2
    then low
    else if ltb s.char_count 900 || ltb s.line_count 14 || ltb s.speaker_turns 6
    then medium
    else high

abbrev pub is_low : Quality → Bool
is_low low = true
is_low medium = false
is_low high = false

-- `quality in {"medium", "high"} and stats["speaker_turns"] >= 4`.
unfoldable pub is_comparable : Stats → Bool
is_comparable s = not_low (quality_label s) && leb 4 s.speaker_turns
  where
    not_low : Quality → Bool
    not_low low = false
    not_low medium = true
    not_low high = true

pub data Level : Type 0 where
  junior middle senior : Level

unfoldable pub level_of : String → Level
level_of raw =
    if has_part "senior" raw
    then senior
    else if has_part "middle" raw || has_part "mid" raw
    then middle
    else if has_part "junior" raw || has_part "jr" raw
    then junior
    else middle

module _ (f : Floats) where
  unfoldable pub normalized_level : Fields f.N → Level
  normalized_level meeting_context = level_of (norm (str_or_empty f (get "level" meeting_context)))
