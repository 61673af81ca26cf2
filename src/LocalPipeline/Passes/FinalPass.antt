-- ===== src/LocalPipeline/Passes/FinalPass.antt =====
-- The final pass over the segments of a meeting.
use second_capture.Base.{
  ℕ, suc, ◌≡◌, String, str_eq, ◌==◌, true, Option, none, some, List, [], ◌∷◌, ◌⊎◌, if◌then◌else◌,
}
use second_capture.Base.Text.{strip}
use second_capture.Base.Errors.{ok}
use second_capture.Transcript.Speakers.{SpeakerDecision, infer_speakers}
use second_capture.LocalPipeline.Table.{find}
use second_capture.LocalPipeline.Chunks.{SttResult, Tools, Db, Seg, meeting_language_hint}
use second_capture.LocalPipeline.Passes.{
  backup_result, split_final_pass_text, numbered, part_segment,
}

-- The part with the number `n`, where the first has the number `first`.
abbrev pub part_from : ℕ → ℕ → List String → Option String
part_from first n [] = none
part_from first n (p ∷ ps) = if first == n then some p else part_from (suc first) n ps

module _ (t : Tools) (meeting_id : String) (ds : List SpeakerDecision)
    (res : SttResult t.Confidence) where
  -- What stands under a key once the parts are stored.
  abbrev pub stored_at : String → ℕ → Option String → Option (Seg t) → Option (Seg t)
  stored_at m n none old = old
  stored_at m n (some p) old =
      if str_eq m meeting_id then some (part_segment t meeting_id ds res n p) else old

  abbrev part_of : String → ℕ → List String → Option (Seg t)
  part_of m n parts = stored_at m n (part_from 0 n parts) none

module _ (t : Tools) where
  -- The decisions on the parts of a result.
  abbrev pub decisions_on : List String → List SpeakerDecision
  decisions_on parts = infer_speakers t.patterns t.speaker_response_window_sec (numbered t 0 parts)

  abbrev pub raw_text_of : Option (Seg t) → Option String
  raw_text_of none = none
  raw_text_of (some s) = some s.raw_text

  -- The result is what the engine heard in a recording of the meeting.
  abbrev pub IsHeard : String → Db t → SttResult t.Confidence → Type 0
  IsHeard meeting_id db res =
      (name : String) × (audio : t.Audio) × (t.recording_exists meeting_id name ≡ true)
      × (t.read_recording meeting_id name ≡ ok (some audio))
      × (t.transcribe audio "final" (some "mixed") (meeting_language_hint t meeting_id db) ≡ ok res)

  -- The pass does nothing, where the recording gives no text, or the table holds under each key of
  -- the meeting the part of that number of the recording's text and nothing else, and under the keys
  -- of other meetings what it held.
  abbrev pub IsReplaced : String → String → ℕ → Db t → ℕ × Db t → Type 0
  IsReplaced meeting_id m n db out =
      ((out ≡ (0, db))
        × ((res : SttResult t.Confidence)
            → backup_result t meeting_id db ≡ some res
            → split_final_pass_text t (strip res.text) ≡ []))
      ⊎ ((res : SttResult t.Confidence) × (backup_result t meeting_id db ≡ some res)
          × IsHeard meeting_id db res
          × (out.0 ≡ 1)
          × (str_eq m meeting_id ≡ true
              → raw_text_of (find m n out.1.segments)
                ≡ part_from 0 n (split_final_pass_text t (strip res.text)))
          × (let parts = split_final_pass_text t (strip res.text) in
              find m n out.1.segments ≡ (
                if str_eq m meeting_id
                then stored_at t meeting_id (decisions_on parts) res m n (part_from 0 n parts) none
                else find m n db.segments)))
