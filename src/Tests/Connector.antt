-- ===== src/Tests/Connector.antt =====
-- The connector's theorems at concrete inputs.
use second_capture.Base.{suc, ◌+◌, ◌≡◌, ◌≤◌, refl, true, false, none, some, [], ◌∷◌, arith}
use second_capture.Base.Text.{norm, strip, lower, is_empty}
use second_capture.Base.Errors.{Exc, provider, connector_timeout, ok, err, is_ok}
use second_capture.SberJazz.World.{SessionState, plain, lookup, insert}
use second_capture.SberJazz.Limits.{retry_config, resolve_connector, cb_failure_threshold}
use second_capture.SberJazz.Payloads.{parse_session, parse_breaker}
use second_capture.SberJazz.Store.{
  W, get_sberjazz_meeting_state, state_in_memory, fresh_state, save_state,
}
use second_capture.SberJazz.Breaker.{
  get_sberjazz_circuit_breaker_state, load_cb_state_redis, admit, default_cb_state,
  close_unless_clean, before_connector_call, on_connector_success,
}
use second_capture.SberJazz.Breaker.Laws.{seen}
use second_capture.SberJazz.Breaker.Trips.{fail_times, fail_times_trips}
use second_capture.SberJazz.Lock.{op_lock_key}
use second_capture.SberJazz.Lock.Laws.{lock_of, IsRefused, operations_exclude, operations_free_lock}
use second_capture.SberJazz.Calls.{
  leave, join_impl, leave_impl, join_sberjazz_meeting, leave_sberjazz_meeting,
  reconnect_sberjazz_meeting, join_unless_recent, call_with_retries, call_resolved, attempt_loop,
  attempt_call, stamped,
}
use second_capture.SberJazz.Calls.Laws.{Succeeds}
use second_capture.SberJazz.Calls.Outcomes.{
  join_impl_returns, leave_impl_returns, MayRaise, calls_raise_provider,
}
use second_capture.Tests.Memory.{env, world, memory_store, env_iso}

abbrev idle : W env
idle = world []

abbrev timed_out : Exc
timed_out = provider connector_timeout "late"

abbrev failing : W env
failing = world (err timed_out ∷ err timed_out ∷ [])

abbrev locked : W env
locked = record idle { redis = (op_lock_key "m", plain "t0") ∷ [] }

abbrev session : SessionState
session = record {
  meeting_id = "m";
  provider = "sberjazz";
  connected = true;
  attempts = 1;
  last_error = none;
  updated_at = "1110";
}

abbrev left : SessionState
left = record session { connected = false }

threshold_two : cb_failure_threshold env.settings ≤ suc 1
unfolding cb_failure_threshold
threshold_two = omega arith

fail_times_trips_example :
    ((seen env (fail_times env memory_store (suc 1) (some "late") idle)).consecutive_failures
      ≡ (seen env idle).consecutive_failures + suc 1)
    × (is_ok (before_connector_call env (fail_times env memory_store (suc 1) (some "late") idle)).0
        ≡ false)
fail_times_trips_example =
    fail_times_trips env memory_store env_iso 1 (some "late") idle threshold_two

locked_lem : lock_of env memory_store "m" locked ≡ some (plain "t0")
unfolding lookup
locked_lem = refl

operations_exclude_example :
    IsRefused env memory_store "m" (plain "t0") (join_sberjazz_meeting env "t1" "m") locked
    × IsRefused env memory_store "m" (plain "t0") (leave_sberjazz_meeting env "t1" "m") locked
    × IsRefused env memory_store "m" (plain "t0") (reconnect_sberjazz_meeting env "t1" "m") locked
operations_exclude_example =
    operations_exclude env memory_store "m" "t1" locked (plain "t0") locked_lem

free_lem : lock_of env memory_store "m" failing ≡ none
unfolding lookup
free_lem = refl

operations_free_lock_example :
    (lock_of env memory_store "m" (join_sberjazz_meeting env "t1" "m" failing).1 ≡ none)
    × (lock_of env memory_store "m" (leave_sberjazz_meeting env "t1" "m" failing).1 ≡ none)
    × (lock_of env memory_store "m" (reconnect_sberjazz_meeting env "t1" "m" failing).1 ≡ none)
operations_free_lock_example = operations_free_lock env memory_store "m" "t1" failing free_lem

join_lem : (join_impl env "m" false idle).0 ≡ ok session
unfolding retry_config join_impl before_connector_call get_sberjazz_circuit_breaker_state
    load_cb_state_redis parse_breaker admit default_cb_state get_sberjazz_meeting_state
    parse_session state_in_memory fresh_state resolve_connector join_unless_recent call_with_retries
    call_resolved attempt_loop attempt_call on_connector_success close_unless_clean save_state
    stamped norm strip lower is_empty lookup insert
join_lem = refl

join_impl_returns_example :
    (session.connected ≡ true)
    × (session.meeting_id ≡ "m")
    × (session.last_error ≡ none)
    × (lookup "m" (join_impl env "m" false idle).1.sessions ≡ some session)
join_impl_returns_example = join_impl_returns env "m" false idle session join_lem

leave_lem : (leave_impl env "m" idle).0 ≡ ok left
unfolding retry_config leave_impl before_connector_call get_sberjazz_circuit_breaker_state
    load_cb_state_redis parse_breaker admit default_cb_state resolve_connector call_with_retries
    call_resolved attempt_loop attempt_call on_connector_success close_unless_clean save_state
    stamped norm strip lower is_empty lookup insert
leave_lem = refl

leave_impl_returns_example :
    Succeeds env leave "m" 1 (retry_config env.settings).attempts left (leave_impl env "m" idle).1
leave_impl_returns_example = leave_impl_returns env "m" idle left leave_lem

calls_raise_provider_example :
    ((join_sberjazz_meeting env "t1" "m" failing).0 ≡ err timed_out
      → MayRaise env "m" "t1" failing timed_out)
    × ((leave_sberjazz_meeting env "t1" "m" failing).0 ≡ err timed_out
        → MayRaise env "m" "t1" failing timed_out)
    × ((reconnect_sberjazz_meeting env "t1" "m" failing).0 ≡ err timed_out
        → MayRaise env "m" "t1" failing timed_out)
calls_raise_provider_example = calls_raise_provider env "m" "t1" failing timed_out
