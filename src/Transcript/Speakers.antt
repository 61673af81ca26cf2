-- ===== src/Transcript/Speakers.antt =====
-- Who speaks in each segment (src/interview_analytics_agent/processing/speaker_rules.py).
pub mod Explained
pub mod Steps
pub mod Answers
pub mod Laws
use second_capture.Base.{
  ℕ, ◌+◌, String, ◌<>◌, str_eq, Bool, true, false, not, ◌&&◌, ◌||◌, leb, Option, none, some,
  is_some, List, [], ◌∷◌, if◌then◌else◌,
}
use second_capture.Base.Text.{is_empty, strip}
use second_capture.Config.{ℤ, at_least}

-- What `search` of the patterns finds in a text: the name in an introduction and in a call, and
-- whether there is a match of the others. `capitalize` is that of `str`.
pub record Patterns : Type 0 where
  pub intro : String → Option String
  pub host : String → Bool
  pub call : String → Option String
  pub absent : String → Bool
  pub skip : String → Bool
  pub proxy : String → Bool
  pub capitalize : String → String

pub record Segment : Type 0 where
  pub seq : ℕ
  pub raw_text : String
  pub enhanced_text : String

pub record SpeakerDecision : Type 0 where
  pub seq : ℕ
  pub speaker : Option String
  pub addressed_to : Option String
  pub proxy_for : Option String

-- The names that the loop keeps from one segment to the next. The pending name and the number up
-- to which it is pending are set and cleared together.
pub record Names : Type 0 where
  pub host_name : Option String
  pub pending : Option (String × ℕ)

-- The names, and the decision on the segment at hand.
pub record Turn : Type 0 where
  pub names : Names
  pub speaker : Option String
  pub addressed_to : Option String
  pub proxy_for : Option String

-- A name that counts as true.
abbrev pub filled : Option String → Option String
filled none = none
filled (some s) = if is_empty s then none else some s

abbrev pub filled_pending : Option (String × ℕ) → Option (String × ℕ)
filled_pending none = none
filled_pending (some (name, until)) = if is_empty name then none else some (name, until)

unfoldable pub text_of : Segment → String
text_of s = strip (if is_empty s.enhanced_text then s.raw_text else s.enhanced_text)

abbrev pub start : Names → Turn
start names = record { names = names; speaker = none; addressed_to = none; proxy_for = none }

module _ (p : Patterns) where
  unfoldable pub introduced : String → Turn → Turn
  introduced text t = elim (p.intro text) [
    | none ↦ t
    | some n ↦ record t {
      names = record t.names { host_name = some (p.capitalize n) };
      speaker = some (p.capitalize n);
    }
  ]

  unfoldable pub hosted : String → Turn → Turn
  hosted text t = elim (filled t.names.host_name) [
    | none ↦ t
    | some host ↦ if p.host text then record t { speaker = some host } else t
  ]

  -- `window` is `max(1, response_window_sec)`.
  unfoldable pub called : ℕ → ℕ → String → Turn → Turn
  called window seq text t = elim (filled t.names.host_name) [
    | none ↦ t
    | some host ↦ elim (p.call text) [
      | none ↦ t
      | some n ↦ if str_eq (p.capitalize n) host then t else record t {
        names = record t.names { pending = some (p.capitalize n, seq + window) };
        addressed_to = some (p.capitalize n);
        speaker = some host;
      }
    ]
  ]

  abbrev pub answered_names : Names → Names
  answered_names names = record names { pending = none }

  unfoldable pub answered : ℕ → String → Turn → Turn
  answered seq text t = elim (filled_pending t.names.pending) [
    | none ↦ t
    | some (name, until) ↦
        if p.proxy text
        then record t {
          names = answered_names t.names;
          speaker = some ("proxy_for_" <> name);
          proxy_for = some name;
        }
        else if p.absent text || p.skip text
        then record t {
          names = answered_names t.names;
          speaker = elim (filled t.names.host_name) [ none ↦ t.speaker | some host ↦ some host ];
          proxy_for = if p.absent text then some name else none;
        }
        else if leb seq until && not (is_some t.speaker)
        then record t { names = answered_names t.names; speaker = some name }
        else t
  ]

  -- The body of the loop.
  unfoldable pub turn : ℕ → Segment → Names → Turn
  turn window s names =
      let text = text_of s in
      if is_empty text
      then start names
      else answered s.seq text
          (called window s.seq text (hosted text (introduced text (start names))))

  abbrev pub decision_of : ℕ → Turn → SpeakerDecision
  decision_of seq t = record {
    seq = seq;
    speaker = t.speaker;
    addressed_to = t.addressed_to;
    proxy_for = t.proxy_for;
  }

  unfoldable pub decide_all : ℕ → List Segment → Names → List SpeakerDecision
  decide_all window [] names = []
  decide_all window (s ∷ rest) names =
      let t = turn window s names in decision_of s.seq t ∷ decide_all window rest t.names

  unfoldable pub infer_speakers : ℤ → List Segment → List SpeakerDecision
  infer_speakers response_window_sec segments =
      decide_all (at_least 1 response_window_sec) segments
        (record { host_name = none; pending = none })
