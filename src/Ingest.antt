-- ===== src/Ingest.antt =====
-- The ingestion of audio chunks and its deduplication
-- (src/interview_analytics_agent/services/chunk_ingest_service.py, queue/idempotency.py and
-- queue/dispatcher.py).
pub mod Laws
pub mod Queued
use second_capture.Base.{
  ℕ, ◌+◌, ◌<◌, ltb, leb, ◌≡◌, String, ◌<>◌, str_eq, Bool, true, false, not, Option, none, some,
  List, [], ◌∷◌, is_some, length, if◌then◌else◌,
}
use second_capture.Base.Text.{is_empty, norm, show_nat, text_or}
use second_capture.Base.Dict.{lookup, insert, remove}
use second_capture.Base.Errors.{other, Outcome, ok, err, Op, pure, catch, ◌>>=◌, ◌>>◌}

-- The arguments that describe one chunk. `capture_levels` is passed on as it is.
pub record Chunk : Type 0 where
  pub meeting_id : String
  pub seq : ℕ
  pub audio : List ℕ
  pub source_track : Option String
  pub quality_profile : String
  pub capture_levels : List (String × String)

-- What `enqueue_stt` puts on its queue. The event id, the time and the trace context, which
-- nothing here reads, are left out.
pub record SttTask : Type 0 where
  pub meeting_id : String
  pub chunk_seq : ℕ
  pub blob_key : String
  pub source_track : String
  pub quality_profile : String
  pub capture_levels : List (String × String)

-- What the ingestion finds around it: `SET NX EX` of Redis, the blob store, the inline pipeline
-- and the stream of Redis, each over its own state, the base64 decoder, `none` where it raises,
-- and the setting `queue_mode`.
pub record Services : Type 1 where
  pub Remote : Type 0
  pub Updates : Type 0
  pub set_nx : String → ℕ → Op Remote Bool
  pub put_bytes : String → List ℕ → Op Remote (Unit {0})
  pub get_bytes : String → Op Remote (List ℕ)
  pub process_chunk_inline : Chunk → String → Op Remote Updates
  pub enqueue : String → SttTask → Op Remote (Unit {0})
  pub b64_decode : String → Option (List ℕ)
  pub queue_mode : String

-- The process: `_local_cache`, with the times at which its keys expire, and the clock, both in
-- seconds, and the systems behind it.
pub record Process (R : Type 0) : Type 0 where
  pub remote : R
  pub local_cache : List (String × ℕ)
  pub clock : ℕ

abbrev pub on_remote : {R A : Type 0} → Op R A → Op (Process R) A
on_remote m p = let (r, s) = m p.remote in (r, record p { remote = s })

abbrev pub default_ttl_sec : ℕ
default_ttl_sec = 86400

-- The removal of the keys that have expired.
unfoldable pub drop_expired : ℕ → List (String × ℕ) → List (String × ℕ)
drop_expired now [] = []
drop_expired now ((k, t) ∷ rest) =
    let others = drop_expired now rest in if leb t now then others else (k, t) ∷ others

-- A key that is held has not expired.
abbrev pub is_held : ℕ → Option ℕ → Bool
is_held now none = false
is_held now (some t) = ltb now t

unfoldable pub swept : ℕ → List (String × ℕ) → List (String × ℕ)
swept now cache =
    let kept = drop_expired now cache in if ltb 10000 (length cache) then kept else cache

unfoldable pub local_check_and_set : {R : Type 0} → String → ℕ → Op (Process R) Bool
local_check_and_set key ttl_sec p =
    if is_held p.clock (lookup key p.local_cache) then (ok false, p) else (
      ok true,
      record p { local_cache = swept p.clock (insert key (p.clock + ttl_sec) p.local_cache) },
    )

unfoldable pub idem_key_of : String → String → String → String
idem_key_of scope meeting_id idem_key =
    "idem:" <> (scope <> (":" <> (meeting_id <> (":" <> idem_key))))

-- `meetings/{meeting_id}/chunks/{seq}.bin`.
unfoldable pub blob_key_of : String → ℕ → String
blob_key_of meeting_id seq = "meetings/" <> (meeting_id <> ("/chunks/" <> (show_nat seq <> ".bin")))

pub record ChunkIngestResult (U : Type 0) : Type 0 where
  pub accepted : Bool
  pub meeting_id : String
  pub seq : ℕ
  pub idempotency_key : String
  pub blob_key : String
  pub is_duplicate : Bool
  pub inline_updates : Option U

module _ (v : Services) where
  unfoldable pub is_inline : Bool
  is_inline = str_eq (norm v.queue_mode) "inline"

  -- True if the key is new. Where Redis raises, the local cache decides.
  unfoldable pub check_and_set : String → String → String → ℕ → Op (Process v.Remote) Bool
  check_and_set scope meeting_id idem_key ttl_sec =
      let key = idem_key_of scope meeting_id idem_key in
      if is_inline
      then local_check_and_set key ttl_sec
      else catch (on_remote (v.set_nx key ttl_sec)) (λ _. local_check_and_set key ttl_sec)

  unfoldable pub stt_task : Chunk → String → SttTask
  stt_task c blob_key = record {
    meeting_id = c.meeting_id;
    chunk_seq = c.seq;
    blob_key = blob_key;
    source_track = text_or "" c.source_track;
    quality_profile = if is_empty c.quality_profile then "balanced" else c.quality_profile;
    capture_levels = c.capture_levels;
  }

  -- `enqueue_stt`, which returns the event id.
  unfoldable pub enqueue_stt : Chunk → String → Op (Process v.Remote) (Unit {0})
  enqueue_stt c blob_key =
      if is_inline
      then (on_remote (v.get_bytes blob_key) >>= λ audio.
          on_remote (v.process_chunk_inline (record c { audio = audio }) blob_key) >>= λ _. pure tt)
      else on_remote (v.enqueue "q:stt" (stt_task c blob_key))

  -- What follows the writing of the blob: nothing, the inline pipeline, or the queue.
  unfoldable pub transcribe :
      Chunk → String → (defer skip : Bool) → Op (Process v.Remote) (Option v.Updates)
  transcribe c blob_key defer skip =
      if skip
      then pure none
      else if is_inline
      then if defer
        then pure none
        else (on_remote (v.process_chunk_inline c blob_key) >>= λ u. pure (some u))
      else (enqueue_stt c blob_key >>= λ _. pure none)

  abbrev pub Result : Type 0
  Result = ChunkIngestResult v.Updates

  abbrev pub result : Chunk → String → Bool → Option v.Updates → Result
  result c key duplicate updates = record {
    accepted = true;
    meeting_id = c.meeting_id;
    seq = c.seq;
    idempotency_key = key;
    blob_key = blob_key_of c.meeting_id c.seq;
    is_duplicate = duplicate;
    inline_updates = updates;
  }

  unfoldable pub ingest_new : Chunk → String → (defer skip : Bool) → Op (Process v.Remote) Result
  ingest_new c key defer skip =
      on_remote (v.put_bytes (blob_key_of c.meeting_id c.seq) c.audio) >>= λ _.
      transcribe c (blob_key_of c.meeting_id c.seq) defer skip >>= λ updates.
      pure (result c key false updates)

  -- `fresh` is what `new_idempotency_key` gives where the caller has no key.
  unfoldable pub ingest_audio_chunk_bytes :
      Chunk
      → (key : Option String) → (fresh scope : String) → (defer skip : Bool)
      → Op (Process v.Remote) Result
  ingest_audio_chunk_bytes c key fresh scope defer skip =
      let idem_key = text_or fresh key in
      check_and_set scope c.meeting_id idem_key default_ttl_sec >>= λ is_new.
      if is_new then ingest_new c idem_key defer skip else pure (result c idem_key true none)

  -- The chunk's audio is the decoded text.
  unfoldable pub ingest_audio_chunk_b64 :
      Chunk
      → (content_b64 : String) → (key : Option String) → (fresh scope : String) → (skip : Bool)
      → Op (Process v.Remote) Result
  ingest_audio_chunk_b64 c content_b64 key fresh scope skip p = elim (v.b64_decode content_b64) [
    | none ↦ (err (other "content_b64 decode failed"), p)
    | some audio ↦
        ingest_audio_chunk_bytes (record c { audio = audio }) key fresh scope false skip p
  ]
