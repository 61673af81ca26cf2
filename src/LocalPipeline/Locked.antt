-- ===== src/LocalPipeline/Locked.antt =====
-- Speakers that come from an audio track.
use package.text.Mathlib.Text.{starts_with}
use second_capture.Base.{
  ◌≡◌, refl, sym, subst, ◌⊎◌, inl, inr, String, ◌<>◌, str_eq, eq_iff, true, false, Bool-cases,
  Option, some, arith,
}
use second_capture.Base.Text.{is_space, is_empty, norm, strip, lower, contains, text_or}
use second_capture.Base.Prefixes.{is_solid, norm_prefix}
use second_capture.Base.Dict.{lookup}
use second_capture.LocalPipeline.Labels.{
  Letters, MeetingContext, track_speakers, suffix_of, speaker_from_track, speaker_locked_for_track,
}

candidate_prefix : (x : String) → starts_with (norm ("CANDIDATE_" <> x)) "candidate_" ≡ true
unfolding is_solid is_space lower
candidate_prefix x = norm_prefix "C" "ANDIDATE_" x refl

interviewer_prefix : (x : String) → starts_with (norm ("INTERVIEWER_" <> x)) "interviewer_" ≡ true
unfolding is_solid is_space lower
interviewer_prefix x = norm_prefix "I" "NTERVIEWER_" x refl

candidate_filled : (s : String) → starts_with s "candidate_" ≡ true → is_empty s ≡ false
unfolding is_empty
candidate_filled String.[] h = absurd (cc h)
candidate_filled (String.◌∷◌ c s) h = refl

interviewer_filled : (s : String) → starts_with s "interviewer_" ≡ true → is_empty s ≡ false
unfolding is_empty
interviewer_filled String.[] h = absurd (cc h)
interviewer_filled (String.◌∷◌ c s) h = refl

abbrev IsLocked : String → Type 0
IsLocked s = speaker_locked_for_track (some s) ≡ true

text_or_lem : (s : String) → text_or "" (some s) ≡ s
unfolding text_or
text_or_lem String.[] = unfold is_empty in refl
text_or_lem (String.◌∷◌ c s) = unfold is_empty in refl

prefix_kept :
    (s : String)
    → (starts_with (norm s) "candidate_" ≡ true) ⊎ (starts_with (norm s) "interviewer_" ≡ true)
    → IsLocked s
unfolding speaker_locked_for_track
prefix_kept s (inl h) = ground (arith, text_or_lem s, candidate_filled (norm s) h)
prefix_kept s (inr h) = ground (arith, text_or_lem s, interviewer_filled (norm s) h)

track_cases :
    (s : String) → contains s track_speakers ≡ true → (s ≡ "system") ⊎ ((s ≡ "mic") ⊎ (s ≡ "mixed"))
unfolding contains
track_cases s h = ground (arith, eq_iff "system" s, eq_iff "mic" s, eq_iff "mixed" s)

literal_kept : IsLocked "system" × IsLocked "mic" × IsLocked "mixed"
unfolding speaker_locked_for_track norm contains text_or is_empty
literal_kept = (refl, refl, refl)

track_kept : (s : String) → contains s track_speakers ≡ true → IsLocked s
track_kept s h = elim (track_cases s h) [
  | inl e ↦ subst IsLocked (sym e) literal_kept.0
  | inr (inl e) ↦ subst IsLocked (sym e) literal_kept.1
  | inr (inr e) ↦ subst IsLocked (sym e) literal_kept.2
]

-- Every speaker that the audio track names, whatever the names in the meeting's context are, is one
-- that is kept from then on.
speaker_from_track_locked :
    (l : Letters) (source_track : Option String) (ctx : MeetingContext) (s : String)
    → speaker_from_track l source_track ctx ≡ some s
    → speaker_locked_for_track (some s) ≡ true
unfolding speaker_from_track
speaker_from_track_locked l source_track ctx s h =
    let track = norm (text_or "" source_track) in
    let role = norm (text_or "" (lookup track ctx.source_track_roles)) in
    let candidate = suffix_of l (strip ctx.candidate_name) in
    let interviewer = suffix_of l (strip ctx.interviewer) in
    elim (Bool-cases (contains track track_speakers)) [
      | inr other ↦ absurd (ground arith)
      | inl known ↦ elim (Bool-cases (str_eq role "candidate")) [
        | inl c ↦
            let e : "CANDIDATE_" <> candidate ≡ s = ground arith in
            subst IsLocked e
              (prefix_kept ("CANDIDATE_" <> candidate) (inl (candidate_prefix candidate)))
        | inr c ↦ elim (Bool-cases (str_eq role "interviewer")) [
          | inl i ↦
              let e : "INTERVIEWER_" <> interviewer ≡ s = ground arith in
              subst IsLocked e
                (prefix_kept ("INTERVIEWER_" <> interviewer) (inr (interviewer_prefix interviewer)))
          | inr i ↦ let e : track ≡ s = ground arith in subst IsLocked e (track_kept track known)
        ]
      ]
    ]
