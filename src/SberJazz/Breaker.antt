-- ===== src/SberJazz/Breaker.antt =====
-- The circuit breaker of the connector.
pub mod Laws
pub mod Trips
pub mod Machine
use second_capture.Base.{
  ℕ, suc, max, ◌+◌, String, str_eq, Bool, true, ◌||◌, ◌&&◌, Option, none, some, ltb, leb, ◌==◌,
  from_option, if◌then◌else◌,
}
use second_capture.Base.Text.{text_or}
use second_capture.Base.Errors.{
  Exc, provider, connector_provider_error, Outcome, ok, err, Op, pure, raise, gets, modify, catch,
  ◌>>=◌, ◌>>◌,
}
use second_capture.SberJazz.World.{BreakerState, Redis, Env, World, on_redis}
use second_capture.SberJazz.Payloads.{breaker_payload, parse_breaker}
use second_capture.SberJazz.Limits.{session_ttl_sec, cb_failure_threshold, cb_open_sec}
use second_capture.SberJazz.Store.{W, now_iso, parse_dt, is_naive_time, naive_error, age_sec}

abbrev pub circuit_breaker_key : String
circuit_breaker_key = "connector:sberjazz:circuit_breaker"

module _ (e : Env) where
  unfoldable pub default_cb_state : W e → BreakerState
  default_cb_state w = record {
    state = "closed";
    consecutive_failures = 0;
    opened_at = none;
    last_error = none;
    updated_at = now_iso e w;
  }

  save_cb_state_redis : BreakerState → Op (W e) (Unit {0})
  save_cb_state_redis s =
      on_redis (e.redis.set circuit_breaker_key (breaker_payload s) (session_ttl_sec e.settings))

  unfoldable pub load_cb_state_redis : Op (W e) (Option BreakerState)
  load_cb_state_redis = do
    raw ← on_redis (e.redis.get circuit_breaker_key)
    λ w. (parse_breaker raw, w)

  -- The global is written first; a failure of Redis is logged.
  unfoldable pub save_cb_state : BreakerState → Op (W e) BreakerState
  unfolding save_cb_state_redis
  save_cb_state s = do
    modify (λ w. record w { breaker = some s })
    catch (save_cb_state_redis s) (λ _. pure tt)
    pure s

  abbrev pub breaker_in_memory : W e → BreakerState
  breaker_in_memory w = from_option (default_cb_state w) w.breaker

  -- Redis first; where it has nothing, or fails, the global; else closed.
  unfoldable pub get_sberjazz_circuit_breaker_state : Op (W e) BreakerState
  unfolding load_cb_state_redis default_cb_state
  get_sberjazz_circuit_breaker_state w =
      let (r, w') = load_cb_state_redis w in
      elim r [
        | err _ ↦ (ok (breaker_in_memory w'), w')
        | ok none ↦ (ok (breaker_in_memory w'), w')
        | ok (some s) ↦ (ok s, record w' { breaker = some s })
      ]

  unfoldable pub reset_sberjazz_circuit_breaker : Op (W e) BreakerState
  reset_sberjazz_circuit_breaker w = save_cb_state (default_cb_state w) w

  -- The time at which the breaker opened, as `_before_connector_call` reads it.
  unfoldable pub opened_text : ℕ → BreakerState → String
  opened_text now s = text_or (e.iso now) s.opened_at

  unfoldable pub opened_time : ℕ → BreakerState → ℕ
  unfolding parse_dt opened_text
  opened_time now s = parse_dt e now (opened_text now s)

  unfoldable pub half_opened : BreakerState → W e → BreakerState
  half_opened s w = record s { state = "half_open"; updated_at = now_iso e w }

  -- What the state read allows: the call, or an error while the breaker is open and fresh, or has
  -- an opening time without a zone; past
  -- the cooldown the breaker is saved as half open.
  unfoldable pub admit : BreakerState → Op (W e) (Unit {0})
  admit s w =
      if str_eq s.state "open"
      then if is_naive_time e (opened_text w.clock s)
        then (err naive_error, w)
        else if ltb (age_sec w.clock (opened_time w.clock s)) (cb_open_sec e.settings)
        then (
          err (provider connector_provider_error "SberJazz connector circuit breaker is open"),
          w,
        )
        else (save_cb_state (half_opened s w) >>= λ _. pure tt) w
      else (ok tt, w)

  unfoldable pub before_connector_call : Op (W e) (Unit {0})
  unfolding admit
  before_connector_call = do s ← get_sberjazz_circuit_breaker_state; admit s

  unfoldable pub close_unless_clean : BreakerState → Op (W e) (Unit {0})
  close_unless_clean s w =
      if str_eq s.state "closed" && s.consecutive_failures == 0
      then (ok tt, w)
      else (save_cb_state (default_cb_state w) >>= λ _. pure tt) w

  unfoldable pub on_connector_success : Op (W e) (Unit {0})
  unfolding close_unless_clean
  on_connector_success = do s ← get_sberjazz_circuit_breaker_state; close_unless_clean s

  -- The state after one more failure.
  unfoldable pub after_failure : BreakerState → Option String → W e → BreakerState
  unfolding cb_failure_threshold
  after_failure prev error w =
      let failures = max 1 (prev.consecutive_failures + 1) in
      let should_open =
        leb (cb_failure_threshold e.settings) failures || str_eq prev.state "half_open" in
      record {
        state = if should_open then "open" else "closed";
        consecutive_failures = failures;
        opened_at = if should_open then some (now_iso e w) else none;
        last_error = error;
        updated_at = now_iso e w;
      }

  unfoldable pub on_connector_failure : Option String → Op (W e) (Unit {0})
  on_connector_failure error = do
    prev ← get_sberjazz_circuit_breaker_state
    (λ w. save_cb_state (after_failure prev error w) w) >>= λ _. pure tt
