-- ===== src/LocalPipeline/Passes.antt =====
-- The passes over a finished meeting: the transcription in high quality, the recovery from the
-- recording and the final pass. The meeting's id is one that names a directory of records; for
-- another one `records.exists` raises before anything is changed.
pub mod FinalPass
use second_capture.Base.{
  ℕ, zero, suc, ◌+◌, max, String, ◌<>◌, str_eq, Bool, true, false, not, ◌&&◌, ◌||◌, ◌==◌, leb,
  is_some, Option, none, some, List, [], ◌∷◌, ◌++◌, map, length, if◌then◌else◌,
}
use second_capture.Base.Text.{is_empty, strip, norm, contains, text_or, show_nat}
use second_capture.Base.Lines.{join}
use second_capture.Base.Dict.{lookup, insert}
use second_capture.Base.Errors.{Exc, other, Outcome, ok, err}
use second_capture.Config.{ℤ}
use second_capture.Pipeline.{PipelineStatus, queued, processing, done}
use second_capture.Transcript.Speakers.{Patterns, SpeakerDecision, infer_speakers}
use second_capture.Transcript.Speakers as Speakers
use second_capture.Transcript.Structured.{sentences}
use second_capture.Base.Lines.{words}
use second_capture.LocalPipeline.Labels.{
  Letters, MeetingContext, track_speakers, speaker_from_track, speaker_locked_for_track,
  language_hint_from_context,
}
use second_capture.LocalPipeline.Tail.{extract_missing_tail}
use second_capture.LocalPipeline.Table.{
  Segment, upsert_by_meeting_seq, list_by_meeting, change_all, delete_meeting,
}
use second_capture.LocalPipeline.Chunks.{
  SttResult, Tools, Db, Seg, Meeting, Database, speaker_at, meeting_language_hint, speakers_of,
  is_new_speaker,
}

module _ (t : Tools) where
  abbrev pub is_track : Seg t → Bool
  is_track s = contains (norm (text_or "" s.speaker)) track_speakers

  abbrev pub newer_confidence : Option t.Confidence → Option t.Confidence → Option t.Confidence
  newer_confidence none old = old
  newer_confidence (some c) old = some c

  abbrev pub heard_speaker : Option String → Seg t → Option String
  heard_speaker none s = s.speaker
  heard_speaker (some i) s = if is_empty i || is_track s then s.speaker else some i

  -- The fields of a segment after a transcription with a text.
  unfoldable pub reheard : String → SttResult t.Confidence → Seg t → Seg t
  reheard next_text res s =
      let enhanced = t.enhance next_text in
      record s {
        raw_text = next_text;
        enhanced_text = strip (if is_empty enhanced then next_text else enhanced);
        confidence = newer_confidence res.confidence s.confidence;
        speaker = heard_speaker res.speaker s;
      }

  unfoldable pub transcribed_again : Option String → Seg t → Outcome (SttResult t.Confidence)
  transcribed_again hint s =
      elim (t.get_bytes
        ("meetings/" <> (s.meeting_id <> ("/chunks/" <> (show_nat s.seq <> ".bin"))))) [
          | err x ↦ err x
          | ok audio ↦
              t.transcribe audio "final"
                (if is_track s then some (norm (text_or "" s.speaker)) else none) hint
        ]

  -- The first loop's body; a segment that cannot be read or heard, or is silent, stays.
  unfoldable pub retranscribed : Option String → Seg t → Seg t
  retranscribed hint s = elim (transcribed_again hint s) [
    | err x ↦ s
    | ok res ↦ if is_empty (strip res.text) then s else reheard (strip res.text) res s
  ]

  -- The second loop's body.
  unfoldable pub respoken : List SpeakerDecision → Seg t → Seg t
  respoken decisions s =
      let inferred = speaker_at s.seq decisions in
      if is_track s then s else record s {
        speaker = if is_new_speaker t inferred s.speaker then inferred else s.speaker;
      }

  -- `retranscribe_meeting_high_quality`, without the number of the segments that it changed.
  unfoldable pub retranscribe_meeting : String → Db t → Db t
  retranscribe_meeting meeting_id db = elim (lookup meeting_id db.meetings) [
    | none ↦ db
    | some m ↦
        let again =
          change_all meeting_id (retranscribed (language_hint_from_context m.context))
            db.segments in
        record db {
          segments = change_all meeting_id (respoken (speakers_of t meeting_id again)) again;
        }
  ]

  abbrev pub backup_candidates : List String
  backup_candidates =
      "meeting_audio.mp3" ∷ "backup_audio.mp3" ∷ "backup_audio.webm" ∷ "backup_audio.wav"
      ∷ "backup_audio.mp4" ∷ "backup_audio.ogg" ∷ "backup_audio.m4a" ∷ "source_upload.mp3"
      ∷ "source_upload.wav" ∷ "source_upload.webm" ∷ "source_upload.ogg" ∷ "source_upload.m4a"
      ∷ "source_upload.mp4" ∷ []

  unfoldable pub first_existing : String → List String → Option String
  first_existing meeting_id [] = none
  first_existing meeting_id (name ∷ rest) =
      let later = first_existing meeting_id rest in
      if t.recording_exists meeting_id name then some name else later

  -- The recording's audio, none where there is none, where it cannot be read or is empty.
  unfoldable pub backup_audio : String → Option t.Audio
  backup_audio meeting_id = elim (first_existing meeting_id backup_candidates) [
    | none ↦ none
    | some name ↦ elim (t.read_recording meeting_id name) [ err x ↦ none | ok a ↦ a ]
  ]

  -- The result of the recording's transcription, none where it raises or is silent.
  unfoldable pub backup_result : String → Db t → Option (SttResult t.Confidence)
  backup_result meeting_id db = elim (backup_audio meeting_id) [
    | none ↦ none
    | some audio ↦
        elim (t.transcribe audio "final" (some "mixed") (meeting_language_hint t meeting_id db)) [
          | err x ↦ none
          | ok res ↦ if is_empty (strip res.text) then none else some res
        ]
  ]

  -- `"\n".join` of the raw texts that are not blank.
  unfoldable pub existing_text : List (Seg t) → String
  existing_text segs = join "\n" (texts segs)
    where
      texts : List (Seg t) → List String
      texts [] = []
      texts (s ∷ rest) =
          let others = texts rest in
          if is_empty (strip s.raw_text) then others else strip s.raw_text ∷ others

  -- `max((seg.seq for seg in segs), default=-1) + 1`.
  unfoldable pub next_seq : List (Seg t) → ℕ
  next_seq [] = 0
  next_seq (s ∷ rest) = max (suc s.seq) (next_seq rest)

  unfoldable pub mixed_segment : String → ℕ → String → SttResult t.Confidence → Seg t
  mixed_segment meeting_id seq tail res = record {
    meeting_id = meeting_id;
    seq = seq;
    speaker = some "mixed";
    raw_text = tail;
    enhanced_text = tail;
    confidence = res.confidence;
  }

  -- The result is the number of segments that were added.
  unfoldable pub recover_transcript_from_backup_audio : String → Db t → ℕ × Db t
  recover_transcript_from_backup_audio meeting_id db = elim (backup_result meeting_id db) [
    | none ↦ (0, db)
    | some res ↦
        let segs = list_by_meeting meeting_id db.segments in
        let tail = extract_missing_tail (existing_text segs) (strip res.text) in
        if is_empty tail then (0, db) else (
          1,
          record db {
            segments =
                upsert_by_meeting_seq (mixed_segment meeting_id (next_seq segs) tail res)
                  db.segments;
          },
        )
  ]

  -- `_split_final_pass_text`; the text with single spaces is the join of its words.
  unfoldable pub split_final_pass_text : String → List String
  split_final_pass_text transcript =
      let compact = join " " (words transcript) in
      let parts = sentences (words transcript) [] in
      if is_empty compact then [] else if leb (length parts) 1 then compact ∷ [] else parts

  -- `enumerate(parts)`, as segments for the speaker rules.
  unfoldable pub numbered : ℕ → List String → List Speakers.Segment
  numbered n [] = []
  numbered n (p ∷ ps) = record { seq = n; raw_text = p; enhanced_text = p } ∷ numbered (suc n) ps

  unfoldable pub part_segment :
      String → List SpeakerDecision → SttResult t.Confidence → ℕ → String → Seg t
  part_segment meeting_id decisions res n part =
      let clean = t.enhance part in
      record {
        meeting_id = meeting_id;
        seq = n;
        speaker = some (text_or "mixed" (speaker_at n decisions));
        raw_text = part;
        enhanced_text = strip (if is_empty clean then part else clean);
        confidence = res.confidence;
      }

  unfoldable pub store_parts :
      String
      → List SpeakerDecision
      → SttResult t.Confidence
      → ℕ
      → List String
      → List (Seg t)
      → List (Seg t)
  store_parts meeting_id decisions res n [] table = table
  store_parts meeting_id decisions res n (p ∷ ps) table =
      store_parts meeting_id decisions res (suc n) ps
        (upsert_by_meeting_seq (part_segment meeting_id decisions res n p) table)

  unfoldable pub final_pass_from_backup_audio : String → Db t → ℕ × Db t
  final_pass_from_backup_audio meeting_id db = elim (backup_result meeting_id db) [
    | none ↦ (0, db)
    | some res ↦
        let parts = split_final_pass_text (strip res.text) in
        let decisions =
          infer_speakers t.patterns t.speaker_response_window_sec (numbered 0 parts) in
        elim parts [
          | [] ↦ (0, db)
          | p ∷ ps ↦ (
            1,
            record db {
              segments =
                  store_parts meeting_id decisions res 0 (p ∷ ps)
                    (delete_meeting meeting_id db.segments);
            },
          )
        ]
  ]
