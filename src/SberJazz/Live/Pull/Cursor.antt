-- ===== src/SberJazz/Live/Pull/Cursor.antt =====
-- The cursor of a meeting where the ingestion of its batch raises.
use second_capture.Base.{
  ℕ, ◌+◌, ◌≡◌, inl, inr, refl, String, eq_refl, Bool, Option, some, List, [], ◌∷◌, arith,
  if◌then◌else◌,
}
use second_capture.Base.Text.{text_or}
use second_capture.Base.Errors.{Exc, ok, err, Op, Outcome-cases}
use second_capture.SberJazz.World.{plain, Payload, Env}
use second_capture.SberJazz.RedisLaws.{IsStore}
use second_capture.SberJazz.Limits.{session_ttl_sec}
use second_capture.SberJazz.Store.{W}
use second_capture.SberJazz.Live.{LiveChunk, live_cursor_key, save_live_cursor}
use second_capture.SberJazz.Live.Chunks.{Parsed, parse_live_pull_payload}
use second_capture.SberJazz.Live.Pull.{ingest_all, save_cursor_if, take_in}

module _ (e : Env) (st : IsStore e.redis) (ingest : String → ℕ → String → String → Op (W e) Bool)
    (m : String)
    (keeps : (n : ℕ) (content key : String) (w : W e)
      → st.view (ingest m n content key w).1.redis (live_cursor_key m)
        ≡ st.view w.redis (live_cursor_key m)) where
  ingest_all-keeps :
      (chunks : List LiveChunk) (pulled ingested : ℕ) (w : W e)
      → st.view (ingest_all e ingest m chunks pulled ingested w).1.redis (live_cursor_key m)
        ≡ st.view w.redis (live_cursor_key m)
  unfolding ingest_all
  ingest_all-keeps [] pulled ingested w = refl
  ingest_all-keeps (c ∷ rest) pulled ingested w =
      let v = (ingest m c.seq c.content_b64 c.chunk_id w).1 in
      elim (Outcome-cases (ingest m c.seq c.content_b64 c.chunk_id w).0) [
        | inl (duplicate, done) ↦ ground (
          arith,
          keeps c.seq c.content_b64 c.chunk_id w,
          ingest_all-keeps rest (pulled + 1) (if duplicate then ingested else ingested + 1) v,
        )
        | inr (x, failed) ↦ ground (arith, keeps c.seq c.content_b64 c.chunk_id w)
      ]

  save_cursor_lem :
      (c : String) (w : W e)
      → ((save_cursor_if e ingest m (some c) w).0 ≡ ok tt)
        × (st.view (save_cursor_if e ingest m (some c) w).1.redis (live_cursor_key m)
            ≡ some (plain c))
  unfolding save_cursor_if save_live_cursor
  save_cursor_lem c w =
      let k = live_cursor_key m in
      let n : ℕ = session_ttl_sec e.settings in
      ground
        (arith, st.set_ok k (plain c) n w.redis, st.view-set k (plain c) n w.redis k, eq_refl k)

  -- With a Redis that answers and an ingestion that leaves the key of the cursor alone: where a
  -- batch with a next cursor was parsed and the ingestion of one of its chunks raises, the pull
  -- raises the same, and Redis holds the next cursor already, so that the next pull begins behind
  -- the chunks that were not ingested.
  pub failed_batch_is_skipped :
      (cursor : Option String) (payload : Payload) (w : W e)
      (parsed : Parsed e m (text_or "no-cursor" cursor)) (next : String) (x : Exc)
      → let read = parse_live_pull_payload e m (text_or "no-cursor" cursor) payload w in
        let out = take_in e ingest m cursor payload w in
        read.0 ≡ ok parsed
        → parsed.next_cursor ≡ some next
        → (ingest_all e ingest m parsed.chunks 0 0
            (save_cursor_if e ingest m (some next) read.1).1).0
          ≡ err x
        → (out.0 ≡ err x) × (st.view out.1.redis (live_cursor_key m) ≡ some (plain next))
  unfolding take_in
  failed_batch_is_skipped cursor payload w parsed next x found has failed =
      let u = (parse_live_pull_payload e m (text_or "no-cursor" cursor) payload w).1 in
      let v = (save_cursor_if e ingest m (some next) u).1 in
      ground (arith, save_cursor_lem next u, ingest_all-keeps parsed.chunks 0 0 v)
