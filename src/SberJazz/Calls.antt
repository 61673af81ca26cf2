-- ===== src/SberJazz/Calls.antt =====
-- Joining, leaving and reconnecting, with retries, the breaker and the meeting's lock.
pub mod Attempts
pub mod Laws
pub mod Errors
pub mod Outcomes
use second_capture.Base.{
  ℕ, zero, suc, ◌+◌, ◌*◌, String, Bool, true, false, not, ◌&&◌, ◌||◌, Option, none, some, leb,
  if◌then◌else◌,
}
use second_capture.Base.Text.{truncate}
use second_capture.Base.Errors.{
  ErrCode, connector_auth_error, connector_bad_request, connector_invalid_response,
  connector_provider_error, Exc, provider, unauthorized_error, http, other, exc_text, Outcome, ok,
  err, Op, pure, raise, catch, ◌>>=◌, ◌>>◌,
}
use second_capture.SberJazz.World.{SessionState, Env, Connector, World, on_platform}
use second_capture.SberJazz.Limits.{
  Retries, Resolved, retry_config, join_idempotent_ttl_sec, resolve_connector,
}
use second_capture.SberJazz.Store.{
  W, now_iso, parse_dt, is_naive_time, naive_error, age_sec, save_state, get_sberjazz_meeting_state,
}
use second_capture.SberJazz.Breaker.{
  before_connector_call, on_connector_success, on_connector_failure,
}
use second_capture.SberJazz.Lock.{with_meeting_lock}

-- `_NON_RETRYABLE_CONNECTOR_CODES`.
is_final : ErrCode → Bool
is_final connector_auth_error = true
is_final connector_bad_request = true
is_final connector_invalid_response = true
is_final _ = false

unfoldable pub is_retryable_connector_error : Exc → Bool
unfolding is_final
is_retryable_connector_error (provider code _) = not (is_final code)
is_retryable_connector_error (unauthorized_error _) = true
is_retryable_connector_error (http _ _ _) = true
is_retryable_connector_error (other _) = true

abbrev pub is_provider_error : Exc → Bool
is_provider_error (provider _ _) = true
is_provider_error _ = false

-- How the `for` loop over the attempts ends: by `return`, or with the last exception.
pub data Loop (A : Type 0) : Type 0 where
  returned : A → Loop A
  gave_up : Option Exc → Loop A

-- The method of the connector that is called, and whether the session is connected after it.
pub data Call : Type 0 where
  join leave : Call

abbrev pub connected_after : Call → Bool
connected_after join = true
connected_after leave = false

-- `str(e)[:300]` of the last exception.
abbrev pub error_text : Option Exc → Option String
error_text none = none
error_text (some x) = some (truncate 300 (exc_text x))

-- The exception after the last attempt: a `ProviderError` as it is, any other as a new one.
abbrev pub final_error : Option Exc → Exc
final_error none = provider connector_provider_error "SberJazz call не выполнен после retries"
final_error (some (provider c m)) = provider c m
final_error (some _) = provider connector_provider_error "SberJazz call не выполнен после retries"

module _ (e : Env) where
  abbrev pub invoke : Call → Connector e.Platform → String → Op (W e) (Unit {0})
  invoke join c meeting_id = on_platform (c.join meeting_id)
  invoke leave c meeting_id = on_platform (c.leave meeting_id)

  -- A session state with the time of now.
  unfoldable pub stamped : String → String → Bool → ℕ → Option String → W e → SessionState
  stamped meeting_id name connected attempts error w = record {
    meeting_id = meeting_id;
    provider = name;
    connected = connected;
    attempts = attempts;
    last_error = error;
    updated_at = now_iso e w;
  }

  -- `for attempt in range(1, attempts + 1)`; the first argument counts the rounds left.
  unfoldable pub attempt_loop :
      {A : Type 0} → ℕ → Retries → (ℕ → Op (W e) A) → ℕ → Option Exc → W e → Loop A × W e
  attempt_loop zero cfg body attempt last w = (gave_up last, w)
  attempt_loop (suc rounds) cfg body attempt last w =
      let (r, w') = body attempt w in
      elim r [
        | ok a ↦ (returned a, w')
        | err x ↦
            let again =
              attempt_loop rounds cfg body (attempt + 1) (some x)
                (record w' { clock = w'.clock + cfg.backoff * attempt }) in
            if not (is_retryable_connector_error x) || leb cfg.attempts attempt
            then (gave_up (some x), w')
            else again
      ]

  -- The body of the `try`.
  unfoldable pub attempt_call :
      Call → Connector e.Platform → String → String → ℕ → Op (W e) SessionState
  attempt_call call c name meeting_id attempt = do
    invoke call c meeting_id
    on_connector_success e
    λ w. save_state e (stamped meeting_id name (connected_after call) attempt none w) w

  -- What follows the loop when no attempt went through.
  unfoldable pub give_up : Call → String → String → ℕ → Option Exc → Op (W e) SessionState
  give_up call name meeting_id attempts last = do
    (λ w.
          save_state e
            (stamped meeting_id name (not (connected_after call)) attempts (error_text last) w) w)
        >>= λ _. pure tt
    on_connector_failure e (error_text last)
    raise (final_error last)

  -- The loop with a connector that was found, and what follows it.
  unfoldable pub call_resolved : Call → Resolved e → String → Op (W e) SessionState
  call_resolved call r meeting_id w =
      let cfg = retry_config e.settings in
      let (l, w') =
        attempt_loop cfg.attempts cfg (attempt_call call r.connector r.provider meeting_id) 1 none
          w in
      elim l [
        | returned s ↦ (ok s, w')
        | gave_up last ↦ give_up call r.provider meeting_id cfg.attempts last w'
      ]

  unfoldable pub call_with_retries : Call → String → Op (W e) SessionState
  call_with_retries call meeting_id w = elim (resolve_connector e) [
    | err x ↦ (err x, w)
    | ok r ↦ call_resolved call r meeting_id w
  ]

  -- The session joined so recently that a join is not repeated.
  unfoldable pub is_recent : SessionState → ℕ → Bool
  is_recent s now =
      leb (age_sec now (parse_dt e now s.updated_at)) (join_idempotent_ttl_sec e.settings)

  -- The session of a recent join, with the time of now and no error.
  unfoldable pub refreshed : SessionState → String → W e → SessionState
  refreshed previous meeting_id w = record previous {
    meeting_id = meeting_id;
    connected = true;
    last_error = none;
    updated_at = now_iso e w;
  }

  -- The idempotent skip, or the calls; the age of a session is read only where it is connected and
  -- the join is not forced.
  unfoldable pub join_unless_recent : String → Bool → SessionState → Op (W e) SessionState
  join_unless_recent meeting_id force previous w =
      if previous.connected && not force && is_naive_time e previous.updated_at
      then (err naive_error, w)
      else if previous.connected && not force && is_recent previous w.clock
      then save_state e (refreshed previous meeting_id w) w
      else call_with_retries join meeting_id w

  unfoldable pub join_impl : String → Bool → Op (W e) SessionState
  join_impl meeting_id force = do
    before_connector_call e
    previous ← get_sberjazz_meeting_state e meeting_id
    join_unless_recent meeting_id force previous

  unfoldable pub leave_impl : String → Op (W e) SessionState
  leave_impl meeting_id = do before_connector_call e; call_with_retries leave meeting_id

  unfoldable pub join_sberjazz_meeting : String → String → Op (W e) SessionState
  join_sberjazz_meeting token meeting_id =
      with_meeting_lock e meeting_id token (join_impl meeting_id false)

  unfoldable pub leave_sberjazz_meeting : String → String → Op (W e) SessionState
  leave_sberjazz_meeting token meeting_id =
      with_meeting_lock e meeting_id token (leave_impl meeting_id)

  -- `except ProviderError`: another exception of the leave goes through.
  abbrev ignore_provider_error : Exc → Op (W e) (Unit {0})
  ignore_provider_error x = if is_provider_error x then pure tt else raise x

  unfoldable pub leave_first : Bool → String → Op (W e) (Unit {0})
  leave_first connected meeting_id =
      if connected
      then catch (leave_impl meeting_id >>= λ _. pure tt) ignore_provider_error
      else pure tt

  unfoldable pub reconnect_body : String → Op (W e) SessionState
  reconnect_body meeting_id = do
    state ← get_sberjazz_meeting_state e meeting_id
    leave_first state.connected meeting_id
    join_impl meeting_id true

  unfoldable pub reconnect_sberjazz_meeting : String → String → Op (W e) SessionState
  reconnect_sberjazz_meeting token meeting_id =
      with_meeting_lock e meeting_id token (reconnect_body meeting_id)
