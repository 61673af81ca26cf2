-- ===== src/SberJazz/Store.antt =====
-- Session states in memory and in Redis, and the stamps of time that they carry.
use second_capture.Base.{ℕ, ◌-◌, ◌/◌, String, ◌<>◌, Option, none, some, is_some, Bool, false, ◌&&◌}
use second_capture.Base.Errors.{Exc, other, ok, err, Op, pure, modify, catch, ◌>>=◌, ◌>>◌}
use second_capture.SberJazz.World.{SessionState, Env, World, lookup, insert, on_redis}
use second_capture.SberJazz.Payloads.{session_payload, parse_session}
use second_capture.SberJazz.Limits.{session_ttl_sec, resolve_connector}

abbrev pub session_key : String → String
session_key meeting_id = "connector:sberjazz:session:" <> meeting_id

abbrev pub session_index_key : String
session_index_key = "connector:sberjazz:sessions"

-- `_parse_dt` at the time `now`: a text that is no stamp counts as now. A time without a zone is a
-- number too; what subtracts or compares it asks `is_naive_time` first.
unfoldable pub parse_dt : Env → ℕ → String → ℕ
parse_dt e now value = elim (e.from_iso value) [ none ↦ now | some t ↦ t ]

-- The text is read as a time without a zone.
unfoldable pub is_naive_time : Env → String → Bool
is_naive_time e value = is_some (e.from_iso value) && e.is_naive value

-- The `TypeError` of `datetime.now(UTC) - t` for such a time.
abbrev pub naive_error : Exc
naive_error = other "can't subtract offset-naive and offset-aware datetimes"

-- `max(0, int((now - t).total_seconds()))`.
unfoldable pub age_sec : ℕ → ℕ → ℕ
age_sec now t = (now - t) / 1000000

module _ (e : Env) where
  abbrev pub W : Type 0
  W = World e.redis.State e.Platform

  -- `_now_iso`.
  abbrev pub now_iso : W → String
  now_iso w = e.iso w.clock

  save_state_redis : SessionState → Op W (Unit {0})
  save_state_redis s = do
    on_redis
        (e.redis.set (session_key s.meeting_id) (session_payload s) (session_ttl_sec e.settings))
    on_redis (e.redis.sadd session_index_key s.meeting_id)

  load_state_redis : String → Op W (Option SessionState)
  load_state_redis meeting_id = do
    raw ← on_redis (e.redis.get (session_key meeting_id))
    λ w. (parse_session raw, w)

  remember : SessionState → W → W
  remember s w = record w { sessions = insert s.meeting_id s w.sessions }

  -- A failure of Redis is logged, and the state stays in memory.
  unfoldable pub save_state : SessionState → Op W SessionState
  unfolding save_state_redis remember
  save_state s = do modify (remember s); catch (save_state_redis s) (λ _. pure tt); pure s

  -- The state of a meeting that is known nowhere.
  unfoldable pub fresh_state : String → Op W SessionState
  fresh_state meeting_id w = elim (resolve_connector e) [
    | err x ↦ (err x, w)
    | ok r ↦ (
      ok (record {
        meeting_id = meeting_id;
        provider = r.provider;
        connected = false;
        attempts = 0;
        last_error = none;
        updated_at = now_iso w;
      }),
      w,
    )
  ]

  -- What memory holds, or a fresh state.
  unfoldable pub state_in_memory : String → Op W SessionState
  unfolding fresh_state
  state_in_memory meeting_id w = elim (lookup meeting_id w.sessions) [
    | some s ↦ (ok s, w)
    | none ↦ fresh_state meeting_id w
  ]

  -- Redis first; where it has nothing, or fails, memory; else a fresh state.
  unfoldable pub get_sberjazz_meeting_state : String → Op W SessionState
  unfolding load_state_redis state_in_memory
  get_sberjazz_meeting_state meeting_id w =
      let (r, w') = load_state_redis meeting_id w in
      elim r [
        | err _ ↦ state_in_memory meeting_id w'
        | ok none ↦ state_in_memory meeting_id w'
        | ok (some s) ↦ (ok s, record w' { sessions = insert meeting_id s w'.sessions })
      ]
