-- ===== src/SberJazz/Calls/Outcomes.antt =====
-- How joining and leaving end.
use second_capture.Base.{ℕ, ◌≡◌, ◌⊎◌, String, Bool, true, false, none, some, arith, inl, inr}
use second_capture.Base.Errors.{Exc, ok, err, Op, Outcome-cases}
use second_capture.SberJazz.World.{SessionState, Env, lookup}
use second_capture.SberJazz.Limits.{Retries, Resolved, retry_config, resolve_connector}
use second_capture.SberJazz.Store.{W, naive_error, get_sberjazz_meeting_state}
use second_capture.SberJazz.Breaker.{before_connector_call}
use second_capture.SberJazz.Lock.{acquire_op_lock, then_release, with_meeting_lock}
use second_capture.SberJazz.Calls.{
  Loop, Call, join, leave, attempt_loop, attempt_call, call_resolved, call_with_retries,
  is_provider_error, join_impl, join_unless_recent, refreshed, leave_impl, leave_first,
  reconnect_body, join_sberjazz_meeting, leave_sberjazz_meeting, reconnect_sberjazz_meeting,
}
use second_capture.SberJazz.Calls.Attempts.{loop_returned}
use second_capture.SberJazz.Calls.Laws.{
  Loop-cases, give_up_lem, Succeeds, attempt_call_returned, save_state_lem,
}
use second_capture.SberJazz.Calls.Errors.{IsExpected, get_state_error, before_error, call_error}

module _ (e : Env) where
  resolved_returned :
      (call : Call) (r : Resolved e) (meeting_id : String) (w : W e) (s : SessionState)
      → (call_resolved e call r meeting_id w).0 ≡ ok s
      → Succeeds e call meeting_id 1
          (retry_config e.settings).attempts
          s
          (call_resolved e call r meeting_id w).1
  unfolding call_resolved
  resolved_returned call r meeting_id w s h = elim (Loop-cases l.0) [
    | inl (t, ret) ↦
        let round = loop_returned e cfg body cfg.attempts 1 none w t ret in
        let good =
          attempt_call_returned e call r.connector r.provider meeting_id round.0 round.1 t
            round.4 in
        ground (arith, round, good)
    | inr (last, gave) ↦
        ground (arith, give_up_lem e call r.provider meeting_id cfg.attempts last l.1)
  ]
    where
      cfg : Retries
      cfg = retry_config e.settings

      body : ℕ → Op (W e) SessionState
      body = attempt_call e call r.connector r.provider meeting_id

      l : Loop SessionState × W e
      l = attempt_loop e cfg.attempts cfg body 1 none w

  pub call_returned :
      (call : Call) (meeting_id : String) (w : W e) (s : SessionState)
      → (call_with_retries e call meeting_id w).0 ≡ ok s
      → Succeeds e call meeting_id 1
          (retry_config e.settings).attempts
          s
          (call_with_retries e call meeting_id w).1
  unfolding call_with_retries
  call_returned call meeting_id w s h = elim (Outcome-cases (resolve_connector e)) [
    | inl (r, found) ↦ ground (arith, resolved_returned call r meeting_id w s)
    | inr (x, missing) ↦ ground arith
  ]

  join_unless_recent_lem :
      (meeting_id : String) (force : Bool) (previous : SessionState) (w : W e)
      → ((s : SessionState)
          → (join_unless_recent e meeting_id force previous w).0 ≡ ok s
          → (s.connected ≡ true)
            × (s.meeting_id ≡ meeting_id)
            × (s.last_error ≡ none)
            × (lookup meeting_id (join_unless_recent e meeting_id force previous w).1.sessions
                ≡ some s))
        × ((x : Exc) → (join_unless_recent e meeting_id force previous w).0 ≡ err x → IsExpected x)
  unfolding join_unless_recent refreshed
  join_unless_recent_lem meeting_id force previous w = (
    λ s h. ground (
      arith,
      call_returned join meeting_id w s,
      save_state_lem e (refreshed e previous meeting_id w) w,
    ),
    λ x h. ground (
      arith,
      call_error e join meeting_id w x,
      save_state_lem e (refreshed e previous meeting_id w) w,
    ),
  )

  -- A join that returns gives a connected session of that meeting with no error, and memory holds
  -- it; this is so for the shortcut of a recent join and for every round of the retries.
  pub join_impl_returns :
      (meeting_id : String) (force : Bool) (w : W e) (s : SessionState)
      → (join_impl e meeting_id force w).0 ≡ ok s
      → (s.connected ≡ true)
        × (s.meeting_id ≡ meeting_id)
        × (s.last_error ≡ none)
        × (lookup meeting_id (join_impl e meeting_id force w).1.sessions ≡ some s)
  unfolding join_impl
  join_impl_returns meeting_id force w s h =
      elim (Outcome-cases (get_sberjazz_meeting_state e meeting_id v).0) [
        | inl (previous, read) ↦
            ground (arith, (join_unless_recent_lem meeting_id force previous u).0 s)
        | inr (x, failed) ↦ ground arith
      ]
    where
      v : W e
      v = (before_connector_call e w).1

      u : W e
      u = (get_sberjazz_meeting_state e meeting_id v).1

  -- A leave that returns gives a session of that meeting that is not connected, with no error and
  -- with a number of attempts from 1 to the configured one, and memory holds it.
  pub leave_impl_returns :
      (meeting_id : String) (w : W e) (s : SessionState)
      → (leave_impl e meeting_id w).0 ≡ ok s
      → Succeeds e leave meeting_id 1
          (retry_config e.settings).attempts
          s
          (leave_impl e meeting_id w).1
  unfolding leave_impl
  leave_impl_returns meeting_id w s h =
      ground (arith, call_returned leave meeting_id (before_connector_call e w).1 s)

  join_impl_error :
      (meeting_id : String) (force : Bool) (w : W e) (x : Exc)
      → (join_impl e meeting_id force w).0 ≡ err x
      → IsExpected x
  unfolding join_impl
  join_impl_error meeting_id force w x h =
      elim (Outcome-cases (get_sberjazz_meeting_state e meeting_id v).0) [
        | inl (previous, read) ↦
            ground
              (arith, before_error e w x, (join_unless_recent_lem meeting_id force previous u).1 x)
        | inr (y, failed) ↦ ground (arith, before_error e w x, get_state_error e meeting_id v x)
      ]
    where
      v : W e
      v = (before_connector_call e w).1

      u : W e
      u = (get_sberjazz_meeting_state e meeting_id v).1

  leave_impl_error :
      (meeting_id : String) (w : W e) (x : Exc)
      → (leave_impl e meeting_id w).0 ≡ err x
      → IsExpected x
  unfolding leave_impl
  leave_impl_error meeting_id w x h =
      ground
        (arith, before_error e w x, call_error e leave meeting_id (before_connector_call e w).1 x)

  leave_first_error :
      (connected : Bool) (meeting_id : String) (w : W e) (x : Exc)
      → (leave_first e connected meeting_id w).0 ≡ err x
      → IsExpected x
  unfolding leave_first
  leave_first_error connected meeting_id w x h = ground (arith, leave_impl_error meeting_id w x)

  reconnect_body_error :
      (meeting_id : String) (w : W e) (x : Exc)
      → (reconnect_body e meeting_id w).0 ≡ err x
      → IsExpected x
  unfolding reconnect_body
  reconnect_body_error meeting_id w x h =
      elim (Outcome-cases (get_sberjazz_meeting_state e meeting_id w).0) [
        | inl (state, read) ↦
            let v = (get_sberjazz_meeting_state e meeting_id w).1 in
            let left = leave_first e state.connected meeting_id v in
            ground (
              arith,
              leave_first_error state.connected meeting_id v x,
              join_impl_error meeting_id true left.1 x,
            )
        | inr (y, failed) ↦ ground (arith, get_state_error e meeting_id w x)
      ]

  -- What an operation under the lock may raise: what it may raise itself, the provider's error for
  -- a held lock, or what Redis raises where the lock is taken.
  abbrev pub MayRaise : String → String → W e → Exc → Type 0
  MayRaise meeting_id token w x =
      (is_provider_error x ≡ true)
      ⊎ (x ≡ naive_error)
      ⊎ ((acquire_op_lock e meeting_id token w).0 ≡ err x)

  lock_error :
      (meeting_id token : String) (body : Op (W e) SessionState) (w : W e) (x : Exc)
      → ((u : W e) → (body u).0 ≡ err x → IsExpected x)
      → (with_meeting_lock e meeting_id token body w).0 ≡ err x
      → MayRaise meeting_id token w x
  unfolding with_meeting_lock then_release
  lock_error meeting_id token body w x expected h =
      ground (arith, expected (acquire_op_lock e meeting_id token w).1)

  -- A join, a leave and a reconnection raise nothing but a `ProviderError`, whatever the connector
  -- raises, with two exceptions: what Redis raises where the lock is taken, and the `TypeError` of
  -- a time without a zone.
  pub calls_raise_provider :
      (meeting_id token : String) (w : W e) (x : Exc)
      → ((join_sberjazz_meeting e token meeting_id w).0 ≡ err x → MayRaise meeting_id token w x)
        × ((leave_sberjazz_meeting e token meeting_id w).0 ≡ err x → MayRaise meeting_id token w x)
        × ((reconnect_sberjazz_meeting e token meeting_id w).0 ≡ err x
            → MayRaise meeting_id token w x)
  unfolding join_sberjazz_meeting leave_sberjazz_meeting reconnect_sberjazz_meeting
  calls_raise_provider meeting_id token w x = (
    lock_error meeting_id token (join_impl e meeting_id false) w x
        (λ u. join_impl_error meeting_id false u x),
    lock_error meeting_id token (leave_impl e meeting_id) w x
        (λ u. leave_impl_error meeting_id u x),
    lock_error meeting_id token (reconnect_body e meeting_id) w x
        (λ u. reconnect_body_error meeting_id u x),
  )
