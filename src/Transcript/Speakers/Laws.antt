-- ===== src/Transcript/Speakers/Laws.antt =====
-- Where the speakers of the segments come from.
use second_capture.Base.{
  ℕ, ◌≡◌, inl, inr, sym, subst, true, false, none, Bool-cases, List, [], ◌∷◌, arith,
}
use second_capture.Base.Text.{is_empty}
use second_capture.Config.{ℤ, at_least}
use second_capture.Transcript.Speakers.{
  Patterns, Segment, Names, text_of, start, introduced, hosted, called, answered, turn, decide_all,
  infer_speakers,
}
use second_capture.Transcript.Speakers.Explained.{Known, AllExplained}
use second_capture.Transcript.Speakers.Steps.{start-Good, introduced-Good, hosted-Good, called-Good}
use second_capture.Transcript.Speakers.Answers.{Ends, Good-Ends, answered-Ends}

module _ (p : Patterns) (window : ℕ) (s : Segment) (before : List Segment) where
  turn_empty : (names : Names) → is_empty (text_of s) ≡ true → turn p window s names ≡ start names
  unfolding turn
  turn_empty names e = ground arith

  turn_text :
      (names : Names)
      → is_empty (text_of s) ≡ false
      → turn p window s names
        ≡ answered p s.seq (text_of s) (
            called p window s.seq
              (text_of s)
              (hosted p (text_of s) (introduced p (text_of s) (start names))))
  unfolding turn
  turn_text names e = ground arith

  turn-Ends :
      (names : Names) → Known p window before names → Ends p window s before (turn p window s names)
  turn-Ends names k =
      let t = introduced p (text_of s) (start names) in
      let u = hosted p (text_of s) t in
      let v = called p window s.seq (text_of s) u in
      elim (Bool-cases (is_empty (text_of s))) [
        | inl e ↦
            subst (Ends p window s before) (sym (turn_empty names e))
              (Good-Ends p window s before (start names) (start-Good p window s before names k))
        | inr e ↦ subst (Ends p window s before) (sym (turn_text names e)) (
            answered-Ends p window s before v (
              called-Good p window s before u (
                hosted-Good p window s before t (
                  introduced-Good p window s before (start names)
                    (start-Good p window s before names k)))))
      ]

module _ (p : Patterns) (window : ℕ) where
  decide_all-AllExplained :
      (segs before : List Segment) (names : Names)
      → Known p window before names
      → AllExplained p window before segs (decide_all p window segs names)
  unfolding decide_all
  decide_all-AllExplained [] before names k = tt
  decide_all-AllExplained (s ∷ rest) before names k =
      let (k', explained) = turn-Ends p window s before names k in
      (explained, decide_all-AllExplained rest (s ∷ before) (turn p window s names).names k')

-- Each segment gets one decision, in order, whatever the patterns find. A speaker is a name that a
-- segment up to this one introduced, or stands in for a name that one of them called, or is a name
-- that an earlier segment called whose window of at least one number is not over; only a name that
-- the segment calls is addressed, and a proxy is for a name that was called.
pub infer_speakers-AllExplained :
    (p : Patterns) (response_window_sec : ℤ) (segs : List Segment)
    → AllExplained p
        (at_least 1 response_window_sec)
        []
        segs
        (infer_speakers p response_window_sec segs)
unfolding infer_speakers
infer_speakers-AllExplained p response_window_sec segs =
    decide_all-AllExplained p (at_least 1 response_window_sec) segs []
      (record { host_name = none; pending = none })
      (λ h e. absurd (cc e), λ name until e. absurd (cc e))
