-- ===== src/LocalPipeline/Labels.antt =====
-- Speakers that the audio track names, and the hint of the language.
use Prim.Native.Char.{Char, code}
use package.text.Mathlib.Text.{starts_with}
use second_capture.Base.{
  String, ◌<>◌, str_eq, Bool, true, false, ◌||◌, ◌==◌, Option, none, some, List, [], ◌∷◌,
  if◌then◌else◌,
}
use second_capture.Base.Text.{is_empty, strip, norm, split, truncate, contains, text_or}
use second_capture.Base.Lines.{join, filled_texts}
use second_capture.Base.Dict.{lookup}

-- `str.isalnum` of a character, and `upper` of a text.
pub record Letters : Type 0 where
  pub is_alnum : Char → Bool
  pub upper : String → String

-- What is read of a meeting's context, each as `str(value or "")`; `source_track_roles` is empty
-- where it is no dictionary.
pub record MeetingContext : Type 0 where
  pub source_track_roles : List (String × String)
  pub candidate_name : String
  pub interviewer : String
  pub language_profile : String
  pub locale : String
  pub language : String

-- `_TRACK_SPEAKERS`.
abbrev pub track_speakers : List String
track_speakers = "system" ∷ "mic" ∷ "mixed" ∷ []

module _ (l : Letters) where
  -- Every character that is no letter or digit as an underscore.
  unfoldable pub underscored : String → String
  underscored String.[] = String.[]
  underscored (String.◌∷◌ c s) =
      let rest = underscored s in if l.is_alnum c then String.◌∷◌ c rest else String.◌∷◌ "_" rest

  unfoldable pub safe_label : String → String
  safe_label value =
      let compact =
        join "_" (filled_texts (split (λ c. code c == b'_') (underscored (strip value)))) in
      truncate 24 (l.upper (if is_empty compact then "UNKNOWN" else compact))

  abbrev pub suffix_of : String → String
  suffix_of name = if is_empty name then "UNKNOWN" else safe_label name

  unfoldable pub speaker_from_track : Option String → MeetingContext → Option String
  speaker_from_track source_track ctx =
      let track = norm (text_or "" source_track) in
      let role = norm (text_or "" (lookup track ctx.source_track_roles)) in
      if contains track track_speakers
      then if str_eq role "candidate"
        then some ("CANDIDATE_" <> suffix_of (strip ctx.candidate_name))
        else if str_eq role "interviewer"
        then some ("INTERVIEWER_" <> suffix_of (strip ctx.interviewer))
        else some track
      else none

-- A speaker that the track has given is not replaced by an inferred one.
unfoldable pub speaker_locked_for_track : Option String → Bool
speaker_locked_for_track speaker =
    let normalized = norm (text_or "" speaker) in
    if is_empty normalized
    then false
    else if contains normalized track_speakers
    then true
    else starts_with normalized "candidate_" || starts_with normalized "interviewer_"

unfoldable pub language_hint_from_context : MeetingContext → Option String
language_hint_from_context ctx =
    let profile = norm ctx.language_profile in
    let language = norm ctx.language in
    let raw =
      if is_empty profile
      then if is_empty language then norm ctx.locale else language
      else profile in
    if starts_with raw "ru"
    then some "ru"
    else if starts_with raw "en"
    then some "en"
    else if contains raw ("mixed" ∷ "auto" ∷ [])
    then some "auto"
    else none
