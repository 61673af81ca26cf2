-- ===== src/SberJazz/Live.antt =====
-- The live pull of audio chunks from the platform into the ingestion.
pub mod Chunks
pub mod Pull
use second_capture.Base.{
  ℕ, suc, ◌+◌, String, ◌<>◌, Bool, true, false, not, Option, none, some, List, [], ◌∷◌,
  if◌then◌else◌,
}
use second_capture.Base.Text.{is_empty, strip, show_nat}
use second_capture.Base.Errors.{Op, pure, ◌>>=◌, ◌>>◌}
use second_capture.SberJazz.World.{Raw, plain, object, SessionState, Redis, Env, on_redis}
use second_capture.SberJazz.Limits.{session_ttl_sec}
use second_capture.SberJazz.Store.{W, now_iso, save_state, get_sberjazz_meeting_state}

-- `SberJazzLiveChunk`.
pub record LiveChunk : Type 0 where
  pub chunk_id : String
  pub seq : ℕ
  pub content_b64 : String

abbrev pub live_cursor_key : String → String
live_cursor_key meeting_id = "connector:sberjazz:live_cursor:" <> meeting_id

abbrev live_seq_key : String → String
live_seq_key meeting_id = "connector:sberjazz:live_seq:" <> meeting_id

abbrev live_fail_count_key : String → String
live_fail_count_key meeting_id = "connector:sberjazz:live_fail_count:" <> meeting_id

-- A text without its spaces, if anything is left of it.
abbrev pub filled_text : String → Option String
filled_text s = if is_empty (strip s) then none else some (strip s)

-- A cursor as Redis holds it. The key is written with plain texts only; an object under it, which
-- another program would have put there, counts as no cursor.
cursor_of : Option Raw → Option String
cursor_of none = none
cursor_of (some (object _)) = none
cursor_of (some (plain s)) = filled_text s

module _ (e : Env) where
  unfoldable pub load_live_cursor : String → Op (W e) (Option String)
  unfolding cursor_of
  load_live_cursor meeting_id =
      on_redis (e.redis.get (live_cursor_key meeting_id)) >>= λ raw. pure (cursor_of raw)

  unfoldable pub save_live_cursor : String → String → Op (W e) (Unit {0})
  save_live_cursor meeting_id cursor =
      on_redis
        (e.redis.set (live_cursor_key meeting_id) (plain cursor) (session_ttl_sec e.settings))

  unfoldable pub next_live_seq : String → Op (W e) ℕ
  next_live_seq meeting_id = on_redis (e.redis.incr (live_seq_key meeting_id))

  unfoldable pub inc_live_pull_fail_count : String → Op (W e) ℕ
  inc_live_pull_fail_count meeting_id =
      on_redis (e.redis.incr (live_fail_count_key meeting_id)) >>= λ count.
      on_redis (
        e.redis.set (live_fail_count_key meeting_id) (plain (show_nat count))
          (session_ttl_sec e.settings))
      >>= λ _. pure count

  unfoldable pub reset_live_pull_fail_count : String → Op (W e) (Unit {0})
  reset_live_pull_fail_count meeting_id = on_redis (e.redis.delete (live_fail_count_key meeting_id))

  -- The session as connected, with the time of now; the rest is kept.
  unfoldable pub touch_connected_state : String → Op (W e) (Unit {0})
  touch_connected_state meeting_id = get_sberjazz_meeting_state e meeting_id >>= λ prev. λ w.
      (save_state e (record prev { connected = true; updated_at = now_iso e w }) >>= λ _. pure tt) w
