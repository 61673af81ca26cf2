-- ===== src/Transcript/Structured.antt =====
-- The structured form of a transcript (src/interview_analytics_agent/processing/structured.py). The
-- language model, the clock and the writer of CSV are parameters.
pub mod Laws
use Prim.Native.Char.{Char, code}
use second_capture.Base.{
  ℕ, zero, suc, ◌+◌, String, ◌<>◌, str_eq, Bool, true, false, not, ◌&&◌, ◌||◌, ◌==◌, leb, ltb,
  Option, none, some, List, [], ◌∷◌, length, map, from_option, if◌then◌else◌,
}
use second_capture.Base.Text.{is_empty, strip, norm, truncate, show_nat}
use second_capture.Base.Lines.{
  size, join, splitlines, stripped_texts, filled_texts, words, last_char,
}
use second_capture.Base.Dict.{lookup}
use second_capture.Base.Errors.{Outcome, ok, err}
use second_capture.Report.Quality.{after_colon}

-- A word that ends with one of `.!?…`.
unfoldable pub ends_sentence_word : String → Bool
ends_sentence_word w = elim (last_char w) [
  | none ↦ false
  | some c ↦ (code c == b'.') || (code c == b'!') || (code c == b'?') || (code c == 0x2026)
]

-- The words put into sentences: a space after a word that ends one splits the text.
unfoldable pub sentences : List String → List String → List String
sentences [] [] = []
sentences [] (c ∷ cs) = join " " (c ∷ cs) ∷ []
sentences (w ∷ ws) current = elim (ends_sentence_word w) [
  | true ↦ join " " (snoc current) ∷ sentences ws []
  | false ↦ sentences ws (snoc current)
]
  where
    snoc : List String → List String
    snoc [] = w ∷ []
    snoc (x ∷ xs) = x ∷ snoc xs

-- `_split_transcript_units`; the text with single spaces is the join of its words.
unfoldable pub split_transcript_units : String → List String
split_transcript_units transcript =
    let lines = stripped_texts (splitlines transcript) in
    let compact = join " " (words transcript) in
    let parts = sentences (words transcript) [] in
    if ltb 1 (length lines)
    then lines
    else if is_empty compact
    then []
    else if leb (length parts) 1
    then compact ∷ []
    else parts

-- The characters of an identifier, after `lower`: 0 to 9 and a to z. U+0130 becomes i and a mark.
unfoldable pub id_char : Char → Option Char
id_char c =
    let n = code c in if (leb 48 n && leb n 57) || (leb 97 n && leb n 122) then some c else none

-- The runs of identifier characters, from the right; the first is the one at hand.
unfoldable pub id_runs : String → List String
id_runs String.[] = String.[] ∷ []
id_runs (String.◌∷◌ c s) =
    let rest = id_runs s in
    elim (id_char c) [
      | some d ↦ elim rest [ [] ↦ (String.◌∷◌ d String.[]) ∷ [] | x ∷ xs ↦ String.◌∷◌ d x ∷ xs ]
      | none ↦ (if code c == 0x130 then "i" else String.[]) ∷ rest
    ]

unfoldable pub speaker_id_from_name : String → String
speaker_id_from_name name = truncate 48 (join "_" (filled_texts (id_runs (norm name))))

-- The fields of a row that the code fills; the others stay empty.
pub record Row : Type 0 where
  pub meeting_id : String
  pub source : String
  pub segment_seq : Option ℕ
  pub speaker_id : String
  pub speaker_name : String
  pub text : String
  pub topic : String
  pub status : String
  pub confidence_tenths : ℕ
  pub timestamp : String

-- The speaker's name and the text of a unit: `_SPEAKER_LINE_RE.match`, for a unit without breaks
-- and without spaces at its ends.
unfoldable pub speaker_and_text : String → String × String
speaker_and_text line = elim (after_colon 64 false line) [
  | none ↦ ("", line)
  | some rest ↦ if is_empty rest then ("", line) else (strip (before_colon line), strip rest)
]
  where
    before_colon : String → String
    before_colon String.[] = String.[]
    before_colon (String.◌∷◌ c s) =
        let rest = before_colon s in if code c == b':' then String.[] else String.◌∷◌ c rest

module _ (meeting_id source timestamp : String) where
  unfoldable pub fallback_row : String → ℕ → String → Row
  fallback_row topic seq line =
      let (speaker_name, body) = speaker_and_text line in
      record {
        meeting_id = meeting_id;
        source = source;
        segment_seq = some seq;
        speaker_id = speaker_id_from_name speaker_name;
        speaker_name = speaker_name;
        text = body;
        topic = topic;
        status = "draft";
        confidence_tenths = 3;
        timestamp = timestamp;
      }

  -- `enumerate(lines, start=seq)`.
  unfoldable pub fallback_from : String → ℕ → List String → List Row
  fallback_from topic seq [] = []
  fallback_from topic seq (line ∷ rest) =
      fallback_row topic seq line ∷ fallback_from topic (suc seq) rest

  -- `_build_fallback_rows`; `summary` is that of the report, or empty.
  unfoldable pub build_fallback_rows : String → String → List Row
  build_fallback_rows transcript summary =
      fallback_from (truncate 160 (strip summary)) 1 (split_transcript_units transcript)

  unfoldable pub insufficient_rows : String → List Row
  insufficient_rows reason =
      record {
        meeting_id = meeting_id;
        source = source;
        segment_seq = none;
        speaker_id = "";
        speaker_name = "";
        text = reason;
        topic = "";
        status = "insufficient_data";
        confidence_tenths = 0;
        timestamp = timestamp;
      }
      ∷ []

-- `sum(len(line) for line in lines)`.
abbrev pub total_chars : List String → ℕ
total_chars [] = 0
total_chars (l ∷ ls) = size l + total_chars ls

unfoldable pub transcript_insufficient_reason : String → Option String
transcript_insufficient_reason transcript =
    let lines = split_transcript_units transcript in
    let chars = total_chars lines in
    let counts : String = show_nat (length lines) <> (", символов: " <> (show_nat chars <> ").")) in
    if length lines == 0
    then some "Нет распознанного текста для структурирования."
    else if ltb (length lines) 2 || ltb chars 48
    then some ("Недостаточно данных для структурирования (строк: " <> counts)
    else none

-- The rows that the code makes, or those that the language model gave, of any shape.
pub data Rows (R : Type 0) : Type 0 where
  made : List Row → Rows R
  given : List R → Rows R

pub record Structured (R : Type 0) : Type 0 where
  pub status : String
  pub message : String
  pub rows : Rows R

-- The language model: the setting, the orchestrator, whose construction may raise or give none,
-- and the rows of its answer, which may raise; they are empty where the answer has no list of rows.
abbrev pub Model : Type 0 → Type 0
Model R = record { llm_enabled : Bool; orchestrator : Outcome (Option (Outcome (List R))) }

module _ {R : Type 0} where
  -- The rows of the answer, or the fallback.
  unfoldable pub answered_rows : Outcome (List R) → List Row → Rows R
  answered_rows (err x) fallback = made fallback
  answered_rows (ok []) fallback = made fallback
  answered_rows (ok (r ∷ rs)) fallback = given (r ∷ rs)

  unfoldable pub sufficient_rows : Model R → List Row → Rows R
  sufficient_rows model fallback =
      if model.llm_enabled
      then elim model.orchestrator [
        | err x ↦ made fallback
        | ok none ↦ made fallback
        | ok (some answer) ↦ answered_rows answer fallback
      ]
      else made fallback

  unfoldable pub build_structured_rows :
      Model R → (meeting_id source timestamp transcript summary : String) → Structured R
  build_structured_rows model meeting_id source timestamp transcript summary =
      elim (transcript_insufficient_reason transcript) [
        | some reason ↦ record {
          status = "insufficient_data";
          message = reason;
          rows = made (insufficient_rows meeting_id source timestamp reason);
        }
        | none ↦ record {
          status = "ok";
          message = "";
          rows =
              sufficient_rows model
                (build_fallback_rows meeting_id source timestamp transcript summary);
        }
      ]
