-- ===== src/Transcript/Enhance.antt =====
-- The cleaning of a text, with and without the language model
-- (src/interview_analytics_agent/processing/enhancer.py and pii.py).
pub mod Chunks
use Prim.Native.Char.{code}
use second_capture.Base.{
  ℕ, zero, suc, ◌+◌, String, ◌<>◌, str_eq, Bool, true, false, not, ◌&&◌, ◌||◌, ◌==◌, ltb, Option,
  none, some, List, [], ◌∷◌, ◌++◌, length, any, if◌then◌else◌,
}
use second_capture.Base.Text.{is_empty, strip, contains, lower}
use second_capture.Base.Lines.{size, join, splitlines, filled_texts, words, ends_a_sentence}
use second_capture.Base.Errors.{Exc, Outcome, ok, err}
use second_capture.Config.{ℤ, pos, at_least}

-- `sub` of the patterns: of the fillers, and of the three kinds of personal data.
pub record Substitutions : Type 0 where
  pub drop_fillers : String → String
  pub mask_email : String → String
  pub mask_phone : String → String
  pub mask_card : String → String

-- A text, and the names of the steps that changed it, in order.
abbrev pub Cleaned : Type 0
Cleaned = record { text : String; applied : List String }

module _ (p : Substitutions) where
  unfoldable pub mask_pii : String → String
  mask_pii s = if is_empty s then s else p.mask_card (p.mask_phone (p.mask_email s))

  -- The text after a step, which is named where it changed something.
  unfoldable pub stepped : String → (String → String) → Cleaned → Cleaned
  stepped name f c =
      if str_eq (f c.text) c.text
      then c
      else record { text = f c.text; applied = c.applied ++ (name ∷ []) }

  -- `\s+` to one space, and `strip`.
  unfoldable pub compact : String → String
  compact s = join " " (words s)

  unfoldable pub punctuated : Cleaned → Cleaned
  punctuated c =
      if is_empty c.text || ends_a_sentence c.text
      then c
      else record { text = c.text <> "."; applied = c.applied ++ ("final_punct" ∷ []) }

  unfoldable pub apply_deterministic_cleanup : Cleaned → Cleaned
  apply_deterministic_cleanup c =
      if is_empty c.text
      then c
      else punctuated
          (stepped "whitespace_normalize" compact (stepped "filler_cleanup" p.drop_fillers c))

  unfoldable pub masked : Bool → Cleaned → Cleaned
  masked pii_masking c = if pii_masking then stepped "pii_mask" mask_pii c else c

  unfoldable pub normalize_text_deterministic : Bool → String → Cleaned
  normalize_text_deterministic pii_masking raw_text =
      if is_empty raw_text
      then record { text = raw_text; applied = [] }
      else masked pii_masking
          (apply_deterministic_cleanup (record { text = raw_text; applied = [] }))

  -- The text that a live model cleaned, none where it is off, fails or answers nothing.
  unfoldable pub llm_cleaned : Option String → String → Cleaned
  llm_cleaned none raw_text = record { text = raw_text; applied = [] }
  llm_cleaned (some answer) raw_text =
      let clean_text = strip answer in
      if is_empty clean_text
      then record { text = raw_text; applied = [] }
      else record { text = clean_text; applied = "llm_live_cleanup" ∷ [] }

  -- `enhance_text`; `live` is the `clean_text` of the live model's answer to a text.
  unfoldable pub enhance_text : (String → Option String) → Bool → String → Cleaned
  enhance_text live pii_masking raw_text =
      if is_empty raw_text
      then record { text = raw_text; applied = [] }
      else masked pii_masking (apply_deterministic_cleanup (llm_cleaned (live raw_text) raw_text))

  -- `line.split(":", 1)`, none where there is no colon.
  unfoldable pub split_colon : String → Option (String × String)
  split_colon String.[] = none
  split_colon (String.◌∷◌ c s) =
      let rest = split_colon s in
      if code c == b':'
      then some (String.[], s)
      else elim rest [ none ↦ none | some (a, b) ↦ some (String.◌∷◌ c a, b) ]

  -- The speaker's prefix of a stripped line, empty where there is none, and the text after it.
  unfoldable pub prefix_and_text : String → String × String
  prefix_and_text stripped = elim (split_colon stripped) [
    | none ↦ ("", stripped)
    | some (prefix, rest) ↦
        if is_empty (strip prefix) then ("", stripped) else (strip prefix, strip rest)
  ]

  -- The line that is put out for a prefix and a text, none for an empty text.
  unfoldable pub line_out : String → String → Option String
  line_out prefix body =
      let t = strip body in
      if is_empty t then none else if is_empty prefix then some t else some (prefix <> (": " <> t))

  abbrev pub Normalized : Type 0
  Normalized = record { lines : List String; applied : List String; changed_lines : ℕ }

  -- The names of two lists, without the second's that the first has.
  unfoldable pub union : List String → List String → List String
  union xs [] = xs
  union xs (y ∷ ys) = union (if contains y xs then xs else xs ++ (y ∷ [])) ys

  -- One line of `normalize_transcript_deterministic`; blank lines are left out.
  unfoldable pub normalize_line : Bool → String → Normalized → Normalized
  normalize_line pii_masking line acc =
      let stripped = strip line in
      let (prefix, body) = prefix_and_text stripped in
      let c = normalize_text_deterministic pii_masking body in
      if is_empty stripped then acc else record {
        lines = elim (line_out prefix c.text) [ none ↦ acc.lines | some l ↦ acc.lines ++ (l ∷ []) ];
        applied = union acc.applied c.applied;
        changed_lines = if str_eq c.text body then acc.changed_lines else suc acc.changed_lines;
      }

  unfoldable pub normalize_lines : Bool → List String → Normalized → Normalized
  normalize_lines pii_masking [] acc = acc
  normalize_lines pii_masking (line ∷ rest) acc =
      normalize_lines pii_masking rest (normalize_line pii_masking line acc)

  -- `sorted` of the names of the steps.
  unfoldable pub sorted_steps : List String → List String
  sorted_steps xs =
      kept ("filler_cleanup" ∷ "final_punct" ∷ "pii_mask" ∷ "whitespace_normalize" ∷ [])
    where
      kept : List String → List String
      kept [] = []
      kept (y ∷ ys) = let rest = kept ys in if contains y xs then y ∷ rest else rest

  -- The text, and what was applied to its lines.
  unfoldable pub normalize_transcript_deterministic : Bool → String → String × Normalized
  normalize_transcript_deterministic pii_masking raw =
      let start : Normalized = record { lines = []; applied = []; changed_lines = 0 } in
      let out = normalize_lines pii_masking (splitlines raw) start in
      if is_empty (strip raw)
      then (raw, start)
      else (strip (join "\n" out.lines), record out { applied = sorted_steps out.applied })

-- The lines that hold more than spaces, as they are.
unfoldable pub lines_with_text : List String → List String
lines_with_text [] = []
lines_with_text (l ∷ ls) =
    let rest = lines_with_text ls in if is_empty (strip l) then rest else l ∷ rest

-- `max(600, int(max_chars or 1800))`.
unfoldable pub chunk_limit : ℤ → ℕ
chunk_limit (pos ℕ.zero) = 1800
chunk_limit z = at_least 600 z

-- The loop of `_split_text_for_llm`; `current_len` is the length of the lines at hand, joined.
unfoldable pub split_lines : ℕ → List String → List String → ℕ → List String
split_lines limit [] [] current_len = []
split_lines limit [] (c ∷ cs) current_len = join "\n" (c ∷ cs) ∷ []
split_lines limit (line ∷ rest) [] current_len =
    split_lines limit rest (line ∷ []) (current_len + size line)
split_lines limit (line ∷ rest) (c ∷ cs) current_len =
    elim (ltb limit (current_len + (size line + 1))) [
      | true ↦ join "\n" (c ∷ cs) ∷ split_lines limit rest (line ∷ []) (size line)
      | false ↦ split_lines limit rest ((c ∷ cs) ++ (line ∷ [])) (current_len + (size line + 1))
    ]

unfoldable pub split_text_for_llm : ℤ → String → List String
split_text_for_llm max_chars s =
    split_lines (chunk_limit max_chars) (lines_with_text (splitlines s)) [] 0

-- What the language model answers to a chunk; it may raise.
abbrev pub Complete : Type 0
Complete = String → Outcome String

-- `meta` of the cleanup, and the chunks that were cleaned or kept.
abbrev pub Progress : Type 0
Progress = record { cleaned : List String; chunks : ℕ; errors : ℕ }

unfoldable pub clean_chunk : Complete → String → Progress → Progress
clean_chunk complete chunk p = elim (complete chunk) [
  | err x ↦ record p { cleaned = p.cleaned ++ (chunk ∷ []); errors = suc p.errors }
  | ok answer ↦ record p {
    cleaned = p.cleaned ++ ((if is_empty (strip answer) then chunk else strip answer) ∷ []);
    chunks = suc p.chunks;
  }
]

unfoldable pub clean_chunks : Complete → List String → Progress → Progress
clean_chunks complete [] p = p
clean_chunks complete (c ∷ cs) p = clean_chunks complete cs (clean_chunk complete c p)

-- The transcript, whether the model's cleanup counts as applied, and the chunks that it cleaned and
-- failed on.
abbrev pub LlmCleaned : Type 0
LlmCleaned = record { transcript : String; is_applied : Bool; chunks : ℕ; errors : ℕ }

abbrev pub untouched : String → LlmCleaned
untouched transcript = record {
  transcript = transcript;
  is_applied = false;
  chunks = 0;
  errors = 0;
}

-- What follows the loop over the chunks.
unfoldable pub conclude : String → String → Progress → LlmCleaned
conclude transcript stripped p =
    let cleaned = strip (join "\n" (filled_texts p.cleaned)) in
    if is_empty cleaned || str_eq cleaned stripped
    then record {
      transcript = transcript;
      is_applied = false;
      chunks = p.chunks;
      errors = p.errors;
    }
    else record { transcript = cleaned; is_applied = true; chunks = p.chunks; errors = p.errors }

-- `cleanup_transcript_with_llm`; the orchestrator's construction may raise or give none.
unfoldable pub cleanup_transcript_with_llm : Outcome (Option Complete) → ℤ → String → LlmCleaned
cleanup_transcript_with_llm orchestrator chunk_chars transcript =
    let stripped = strip transcript in
    let chunks = split_text_for_llm chunk_chars stripped in
    let start : Progress = record { cleaned = []; chunks = 0; errors = 0 } in
    if is_empty stripped then untouched transcript else elim orchestrator [
      | err x ↦ untouched transcript
      | ok none ↦ untouched transcript
      | ok (some complete) ↦ elim chunks [
        | [] ↦ untouched transcript
        | c ∷ cs ↦ conclude transcript stripped (clean_chunks complete (c ∷ cs) start)
      ]
    ]
