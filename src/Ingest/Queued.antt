-- ===== src/Ingest/Queued.antt =====
-- Two chunks with one key in the queued mode.
use second_capture.Base.{ℕ, ◌≡◌, subst, String, Bool, true, false, not, none, some, List, arith}
use second_capture.Base.Text.{is_empty, text_or}
use second_capture.Base.Errors.{ok}
use second_capture.Ingest.Laws.{given_key}
use second_capture.Ingest.{
  Chunk, SttTask, Services, Process, on_remote, default_ttl_sec, idem_key_of, blob_key_of,
  is_inline, check_and_set, stt_task, enqueue_stt, transcribe, result, ingest_new,
  ingest_audio_chunk_bytes,
}

-- What the ingestion relies on of a Redis that answers: `SET NX` sets a key that is not there, and
-- the key is there then; writing a blob and queueing a task leave the keys alone. Expiry is left
-- out: the laws speak of commands with less time between them than the keys live.
pub record KeepsKeys (v : Services) : Type 0 where
  pub holds : v.Remote → String → Bool
  pub set_nx_lem :
      (k : String) (ttl : ℕ) (s : v.Remote) → (v.set_nx k ttl s).0 ≡ ok (not (holds s k))
  pub holds-set_nx : (k : String) (ttl : ℕ) (s : v.Remote) → holds (v.set_nx k ttl s).1 k ≡ true
  pub set_nx_held :
      (k : String) (ttl : ℕ) (s : v.Remote) → holds s k ≡ true → (v.set_nx k ttl s).1 ≡ s
  pub holds-put_bytes :
      (b : String) (audio : List ℕ) (s : v.Remote) (k : String)
      → holds (v.put_bytes b audio s).1 k ≡ holds s k
  pub holds-enqueue :
      (q : String) (t : SttTask) (s : v.Remote) (k : String)
      → holds (v.enqueue q t s).1 k ≡ holds s k

module _ (v : Services) (law : KeepsKeys v) (queued : is_inline v ≡ false) where
  transcribe_holds :
      (c : Chunk) (blob : String) (defer skip : Bool) (p : Process v.Remote) (k : String)
      → law.holds (transcribe v c blob defer skip p).1.remote k ≡ law.holds p.remote k
  unfolding transcribe enqueue_stt
  transcribe_holds c blob defer skip p k =
      ground (arith, queued, law.holds-enqueue "q:stt" (stt_task v c blob) p.remote k)

  ingest_new_holds :
      (c : Chunk) (key : String) (defer skip : Bool) (p : Process v.Remote) (k : String)
      → law.holds (ingest_new v c key defer skip p).1.remote k ≡ law.holds p.remote k
  unfolding ingest_new
  ingest_new_holds c key defer skip p k =
      let blob = blob_key_of c.meeting_id c.seq in
      ground (
        arith,
        transcribe_holds c blob defer skip (on_remote (v.put_bytes blob c.audio) p).1 k,
        law.holds-put_bytes blob c.audio p.remote k,
      )

  -- After any ingestion its key is held.
  ingest_holds :
      (c : Chunk) (k fresh scope : String) (defer skip : Bool) (p : Process v.Remote)
      → law.holds
          (ingest_audio_chunk_bytes v c (some k) fresh scope defer skip p).1.remote
          (idem_key_of scope c.meeting_id (text_or fresh (some k)))
        ≡ true
  unfolding ingest_audio_chunk_bytes check_and_set
  ingest_holds c k fresh scope defer skip p =
      let idem = text_or fresh (some k) in
      let key = idem_key_of scope c.meeting_id idem in
      let u = (on_remote (v.set_nx key default_ttl_sec) p).1 in
      ground (
        arith,
        queued,
        law.set_nx_lem key default_ttl_sec p.remote,
        law.holds-set_nx key default_ttl_sec p.remote,
        ingest_new_holds c idem defer skip u key,
      )

  held_is_duplicate :
      (c : Chunk) (k fresh scope : String) (defer skip : Bool) (p : Process v.Remote)
      → law.holds p.remote (idem_key_of scope c.meeting_id (text_or fresh (some k))) ≡ true
      → ingest_audio_chunk_bytes v c (some k) fresh scope defer skip p
        ≡ (ok (result v c (text_or fresh (some k)) true none), p)
  unfolding ingest_audio_chunk_bytes check_and_set
  held_is_duplicate c k fresh scope defer skip p held =
      let key = idem_key_of scope c.meeting_id (text_or fresh (some k)) in
      ground (
        arith,
        queued,
        law.set_nx_lem key default_ttl_sec p.remote,
        law.set_nx_held key default_ttl_sec p.remote held,
      )

  -- In the queued mode, with a Redis that answers, once a chunk with a key has been sent, whether
  -- the ingestion returned or raised, a chunk of the same meeting, scope and key that comes next
  -- is a duplicate: it is accepted, and nothing is written or queued for it.
  pub queued_once :
      (first second : Chunk) (k fresh fresh' scope : String) (defer skip defer' skip' : Bool)
      (p : Process v.Remote)
      → is_empty k ≡ false
      → second.meeting_id ≡ first.meeting_id
      → let q = (ingest_audio_chunk_bytes v first (some k) fresh scope defer skip p).1 in
        ingest_audio_chunk_bytes v second (some k) fresh' scope defer' skip' q
        ≡ (ok (result v second k true none), q)
  queued_once first second k fresh fresh' scope defer skip defer' skip' p filled same =
      let q = (ingest_audio_chunk_bytes v first (some k) fresh scope defer skip p).1 in
      let held : law.holds q.remote (idem_key_of scope second.meeting_id (text_or fresh' (some k)))
          ≡ true =
        ground (
          arith,
          given_key fresh k filled,
          given_key fresh' k filled,
          ingest_holds first k fresh scope defer skip p,
        ) in
      subst
        (λ x.
          ingest_audio_chunk_bytes v second (some k) fresh' scope defer' skip' q
          ≡ (ok (result v second x true none), q))
        (given_key fresh' k filled) (held_is_duplicate second k fresh' scope defer' skip' q held)
