-- ===== src/LocalPipeline/Chunks.antt =====
-- The local pipeline: its state, and a chunk as it comes. A session of the database is written back
-- at its end; a step that raises inside it changes nothing.
pub mod Laws
use second_capture.Base.{
  ℕ, zero, suc, ◌+◌, max, String, ◌<>◌, str_eq, Bool, true, false, not, ◌&&◌, ◌||◌, ◌==◌, leb,
  is_some, Option, none, some, List, [], ◌∷◌, ◌++◌, map, length, if◌then◌else◌,
}
use second_capture.Base.Text.{is_empty, strip, norm, contains, text_or, show_nat}
use second_capture.Base.Lines.{join}
use second_capture.Base.Dict.{lookup, insert}
use second_capture.Base.Errors.{Exc, other, Outcome, ok, err}
use second_capture.Config.{ℤ}
use second_capture.Pipeline.{PipelineStatus, queued, processing, done}
use second_capture.Transcript.Speakers.{Patterns, SpeakerDecision, infer_speakers}
use second_capture.Transcript.Speakers as Speakers
use second_capture.Transcript.Structured.{sentences}
use second_capture.Base.Lines.{words}
use second_capture.LocalPipeline.Labels.{
  Letters, MeetingContext, track_speakers, speaker_from_track, speaker_locked_for_track,
  language_hint_from_context,
}
use second_capture.LocalPipeline.Tail.{extract_missing_tail}
use second_capture.LocalPipeline.Table.{
  Segment, upsert_by_meeting_seq, list_by_meeting, change_all, delete_meeting,
}

pub record SttResult (C : Type 0) : Type 0 where
  pub text : String
  pub speaker : Option String
  pub confidence : Option C

-- The speech to text engine, the blobs and the recordings, the enhancer, the patterns of the speaker
-- rules, and their window. The levels of the capture, which the engine alone reads, are part of
-- `transcribe`.
pub record Tools : Type 1 where
  pub Audio : Type 0
  pub Confidence : Type 0
  pub get_bytes : String → Outcome Audio
  pub recording_exists : (meeting_id name : String) → Bool
  pub read_recording : (meeting_id name : String) → Outcome (Option Audio)
  pub transcribe :
      Audio
      → (quality_profile : String) → (source_track language_hint : Option String)
      → Outcome (SttResult Confidence)
  pub enhance : String → String
  pub patterns : Patterns
  pub speaker_response_window_sec : ℤ
  pub letters : Letters

pub record Meeting : Type 0 where
  pub is_finished : Bool
  pub status : PipelineStatus
  pub context : MeetingContext

-- The context of a meeting that a chunk creates.
abbrev pub inline_context : MeetingContext
inline_context = record {
  source_track_roles = [];
  candidate_name = "";
  interviewer = "";
  language_profile = "";
  locale = "";
  language = "";
}

pub record Database (C : Type 0) : Type 0 where
  pub meetings : List (String × Meeting)
  pub segments : List (Segment C)

unfoldable pub status_for_chunk_processing : Bool → PipelineStatus
status_for_chunk_processing is_finished = if is_finished then done else processing

-- The speaker that the decisions give a segment; a later decision for its number wins.
unfoldable pub speaker_at : ℕ → List SpeakerDecision → Option String
speaker_at n [] = none
speaker_at n (d ∷ rest) =
    let later = speaker_at n rest in
    if is_some later then later else if d.seq == n then d.speaker else none

module _ (t : Tools) where
  abbrev pub Db : Type 0
  Db = Database t.Confidence

  abbrev pub Seg : Type 0
  Seg = Segment t.Confidence

  -- `MeetingRepository.ensure`.
  unfoldable pub ensured : String → Db → Meeting
  ensured meeting_id db = elim (lookup meeting_id db.meetings) [
    | some m ↦ m
    | none ↦ record { is_finished = false; status = queued; context = inline_context }
  ]

  unfoldable pub meeting_language_hint : String → Db → Option String
  meeting_language_hint meeting_id db = elim (lookup meeting_id db.meetings) [
    | none ↦ none
    | some m ↦ language_hint_from_context m.context
  ]

  unfoldable pub speakers_of : String → List Seg → List SpeakerDecision
  speakers_of meeting_id segments = infer_speakers t.patterns t.speaker_response_window_sec (
      map
        (λ (s : Seg). record {
          seq = s.seq;
          raw_text = s.raw_text;
          enhanced_text = s.enhanced_text;
        })
        (list_by_meeting meeting_id segments))

  -- `inferred and inferred != (s.speaker or "")`.
  abbrev pub is_new_speaker : Option String → Option String → Bool
  is_new_speaker none speaker = false
  is_new_speaker (some i) speaker = not (is_empty i) && not (str_eq i (text_or "" speaker))

  -- The loop's body over the segments after a chunk.
  unfoldable pub refreshed : List SpeakerDecision → Seg → Seg
  refreshed decisions s =
      let inferred = speaker_at s.seq decisions in
      record s {
        enhanced_text = t.enhance s.raw_text;
        speaker =
            if is_new_speaker inferred s.speaker && not (speaker_locked_for_track s.speaker)
            then inferred
            else s.speaker;
      }

  unfoldable pub segment_of_chunk :
      String → ℕ → Option String → MeetingContext → String → SttResult t.Confidence → Seg
  segment_of_chunk meeting_id chunk_seq source_track context heard res = record {
    meeting_id = meeting_id;
    seq = chunk_seq;
    speaker = elim (speaker_from_track t.letters source_track context) [
      | some s ↦ some s
      | none ↦ res.speaker
    ];
    raw_text = heard;
    enhanced_text = heard;
    confidence = res.confidence;
  }

  -- The session of the database for a chunk with a text.
  unfoldable pub store_chunk :
      String → ℕ → Option String → String → SttResult t.Confidence → Db → Db
  store_chunk meeting_id chunk_seq source_track heard res db =
      let m = ensured meeting_id db in
      let stored =
        upsert_by_meeting_seq
          (segment_of_chunk meeting_id chunk_seq source_track m.context heard res) db.segments in
      record {
        meetings =
            insert meeting_id (record m { status = status_for_chunk_processing m.is_finished })
              db.meetings;
        segments = change_all meeting_id (refreshed (speakers_of meeting_id stored)) stored;
      }

  -- What follows the transcription.
  unfoldable pub heard_chunk :
      String → ℕ → Option String → Outcome (SttResult t.Confidence) → Db → Outcome (Unit {0}) × Db
  heard_chunk meeting_id chunk_seq source_track (err x) db = (err x, db)
  heard_chunk meeting_id chunk_seq source_track (ok res) db =
      let heard = strip res.text in
      (
        ok tt,
        if is_empty heard then db else store_chunk meeting_id chunk_seq source_track heard res db,
      )

  abbrev pub audio_of : Option t.Audio → Option String → Outcome t.Audio
  audio_of (some audio) blob_key = ok audio
  audio_of none none = err (other "audio_bytes or blob_key required")
  audio_of none (some key) =
      if is_empty key then err (other "audio_bytes or blob_key required") else t.get_bytes key

  unfoldable pub process_chunk_inline :
      (meeting_id : String)
      → (chunk_seq : ℕ) → (audio_bytes : Option t.Audio) → (blob_key : Option String)
      → (quality_profile : String) → (source_track : Option String) → Db
      → Outcome (Unit {0}) × Db
  process_chunk_inline meeting_id chunk_seq audio_bytes blob_key quality_profile source_track db =
      elim (audio_of audio_bytes blob_key) [
        | err x ↦ (err x, db)
        | ok audio ↦
            heard_chunk meeting_id chunk_seq source_track
              (t.transcribe audio quality_profile source_track
                (meeting_language_hint meeting_id db))
              db
      ]
