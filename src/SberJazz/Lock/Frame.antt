-- ===== src/SberJazz/Lock/Frame.antt =====
-- Which keys of Redis joining, leaving and reconnecting write.
use second_capture.Base.{
  ℕ, zero, suc, ◌+◌, ◌*◌, ◌≡◌, refl, String, str_eq, Bool, true, false, not, Option, none, some,
  arith, inl, inr,
}
use second_capture.Base.Errors.{Exc, Op, Outcome-cases}
use second_capture.SberJazz.World.{SessionState, BreakerState, Env, Connector}
use second_capture.SberJazz.RedisLaws.{IsStore}
use second_capture.SberJazz.Payloads.{session_payload, breaker_payload}
use second_capture.SberJazz.Limits.{
  Retries, Resolved, session_ttl_sec, retry_config, resolve_connector,
}
use second_capture.SberJazz.Store.{
  W, session_key, session_index_key, save_state, get_sberjazz_meeting_state,
}
use second_capture.SberJazz.Breaker.{
  circuit_breaker_key, save_cb_state, get_sberjazz_circuit_breaker_state, load_cb_state_redis,
  admit, half_opened, before_connector_call, on_connector_success, on_connector_failure,
  default_cb_state, after_failure, close_unless_clean,
}
use second_capture.SberJazz.Breaker.Laws.{
  seen, after_read, saved, save_lem, read_lem, before_lem, on_connector_failure_lem,
}
use second_capture.SberJazz.Calls.{
  Call, join, leave, Loop, connected_after, attempt_loop, attempt_call, invoke, stamped, give_up,
  error_text, call_resolved, call_with_retries, join_unless_recent, refreshed, join_impl,
  leave_impl, leave_first, reconnect_body,
}
use second_capture.SberJazz.Calls.Laws.{save_state_lem}
use second_capture.SberJazz.Calls.Laws.{Loop-cases}

module _ (e : Env) (st : IsStore e.redis) (k : String)
    (not_session : (j : String) → str_eq (session_key j) k ≡ false)
    (not_breaker : str_eq circuit_breaker_key k ≡ false) where
  -- `m` leaves what stands under `k` alone.
  abbrev Keeps : {A : Type 0} → Op (W e) A → Type 0
  Keeps m = (w : W e) → st.view (m w).1.redis k ≡ st.view w.redis k

  save_state-Keeps : (s : SessionState) → Keeps (save_state e s)
  unfolding save_state
  save_state-Keeps s w =
      let key = session_key s.meeting_id in
      let n : ℕ = session_ttl_sec e.settings in
      ground (
        arith,
        not_session s.meeting_id,
        st.set_ok key (session_payload s) n w.redis,
        st.view-set key (session_payload s) n w.redis k,
        st.view-sadd session_index_key s.meeting_id
            (e.redis.set key (session_payload s) n w.redis).1 k,
      )

  get_state-Keeps : (m : String) → Keeps (get_sberjazz_meeting_state e m)
  unfolding get_sberjazz_meeting_state
  get_state-Keeps m w = ground (arith, st.get_lem (session_key m) w.redis)

  saved-keeps : (s : BreakerState) (w : W e) → st.view (saved e s w).redis k ≡ st.view w.redis k
  unfolding saved save_cb_state
  saved-keeps s w =
      let n : ℕ = session_ttl_sec e.settings in
      ground (
        arith,
        not_breaker,
        st.set_ok circuit_breaker_key (breaker_payload s) n w.redis,
        st.view-set circuit_breaker_key (breaker_payload s) n w.redis k,
      )

  after_read-keeps : (w : W e) → st.view (after_read e w).redis k ≡ st.view w.redis k
  unfolding after_read get_sberjazz_circuit_breaker_state load_cb_state_redis
  after_read-keeps w = ground (arith, st.get_lem circuit_breaker_key w.redis)

  before-Keeps : Keeps (before_connector_call e)
  unfolding admit
  before-Keeps w =
      let v = after_read e w in
      let s = half_opened e (seen e w) v in
      ground (arith, before_lem e w, save_lem e s v, saved-keeps s v, after_read-keeps w)

  success-Keeps : Keeps (on_connector_success e)
  unfolding on_connector_success close_unless_clean
  success-Keeps w =
      let v = after_read e w in
      let s = default_cb_state e v in
      ground (arith, read_lem e w, save_lem e s v, saved-keeps s v, after_read-keeps w)

  failure-Keeps : (error : Option String) → Keeps (on_connector_failure e error)
  failure-Keeps error w =
      let v = after_read e w in
      let s = after_failure e (seen e w) error v in
      ground (arith, on_connector_failure_lem e error w, saved-keeps s v, after_read-keeps w)

  invoke-Keeps : (call : Call) (c : Connector e.Platform) (m : String) → Keeps (invoke e call c m)
  invoke-Keeps join c m w = refl
  invoke-Keeps leave c m w = refl

  attempt_call-Keeps :
      (call : Call) (c : Connector e.Platform) (name m : String) (n : ℕ)
      → Keeps (attempt_call e call c name m n)
  unfolding attempt_call
  attempt_call-Keeps call c name m n w =
      let v = (invoke e call c m w).1 in
      let u = (on_connector_success e v).1 in
      ground (
        arith,
        invoke-Keeps call c m w,
        success-Keeps v,
        save_state-Keeps (stamped e m name (connected_after call) n none u) u,
      )

  attempt_loop-Keeps :
      (cfg : Retries) (body : ℕ → Op (W e) SessionState)
      → ((n : ℕ) → Keeps (body n))
      → (rounds n : ℕ) (last : Option Exc) (w : W e)
      → st.view (attempt_loop e rounds cfg body n last w).1.redis k ≡ st.view w.redis k
  unfolding attempt_loop
  attempt_loop-Keeps cfg body keep zero n last w = refl
  attempt_loop-Keeps cfg body keep (suc rounds) n last w = elim (Outcome-cases (body n w).0) [
    | inl (s, r) ↦ ground (arith, keep n w)
    | inr (x, r) ↦
        let v = (body n w).1 in
        ground (
          arith,
          keep n w,
          attempt_loop-Keeps cfg body keep rounds (n + 1) (some x)
              (record v { clock = v.clock + cfg.backoff * n }),
        )
  ]

  give_up-Keeps :
      (call : Call) (name m : String) (n : ℕ) (last : Option Exc)
      → Keeps (give_up e call name m n last)
  unfolding give_up
  give_up-Keeps call name m n last w =
      let s = stamped e m name (not (connected_after call)) n (error_text last) w in
      let v = (save_state e s w).1 in
      ground (arith, save_state-Keeps s w, save_state_lem e s w, failure-Keeps (error_text last) v)

  resolved-Keeps : (call : Call) (r : Resolved e) (m : String) → Keeps (call_resolved e call r m)
  unfolding call_resolved
  resolved-Keeps call r m w = elim (Loop-cases l.0) [
    | inl (s, ret) ↦ ground (arith, loop_keeps)
    | inr (last, gave) ↦
        ground (arith, loop_keeps, give_up-Keeps call r.provider m cfg.attempts last l.1)
  ]
    where
      cfg : Retries
      cfg = retry_config e.settings

      l : Loop SessionState × W e
      l = attempt_loop e cfg.attempts cfg (attempt_call e call r.connector r.provider m) 1 none w

      loop_keeps : st.view l.1.redis k ≡ st.view w.redis k
      loop_keeps =
          attempt_loop-Keeps cfg (attempt_call e call r.connector r.provider m)
            (attempt_call-Keeps call r.connector r.provider m) cfg.attempts 1 none w

  call-Keeps : (call : Call) (m : String) → Keeps (call_with_retries e call m)
  unfolding call_with_retries
  call-Keeps call m w = elim (Outcome-cases (resolve_connector e)) [
    | inl (r, found) ↦ ground (arith, resolved-Keeps call r m w)
    | inr (y, missing) ↦ ground arith
  ]

  join_unless_recent-Keeps :
      (m : String) (force : Bool) (s : SessionState) → Keeps (join_unless_recent e m force s)
  unfolding join_unless_recent
  join_unless_recent-Keeps m force s w =
      ground (arith, call-Keeps join m w, save_state-Keeps (refreshed e s m w) w)

  pub join_impl-Keeps : (m : String) (force : Bool) → Keeps (join_impl e m force)
  unfolding join_impl
  join_impl-Keeps m force w = elim (Outcome-cases (get_sberjazz_meeting_state e m v).0) [
    | inl (s, read) ↦ ground (
      arith,
      before-Keeps w,
      get_state-Keeps m v,
      join_unless_recent-Keeps m force s (get_sberjazz_meeting_state e m v).1,
    )
    | inr (x, failed) ↦ ground (arith, before-Keeps w, get_state-Keeps m v)
  ]
    where
      v : W e
      v = (before_connector_call e w).1

  pub leave_impl-Keeps : (m : String) → Keeps (leave_impl e m)
  unfolding leave_impl
  leave_impl-Keeps m w =
      ground (arith, before-Keeps w, call-Keeps leave m (before_connector_call e w).1)

  leave_first-Keeps : (b : Bool) (m : String) → Keeps (leave_first e b m)
  unfolding leave_first
  leave_first-Keeps b m w = ground (arith, leave_impl-Keeps m w)

  pub reconnect_body-Keeps : (m : String) → Keeps (reconnect_body e m)
  unfolding reconnect_body
  reconnect_body-Keeps m w = elim (Outcome-cases (get_sberjazz_meeting_state e m w).0) [
    | inl (s, read) ↦ ground (
      arith,
      get_state-Keeps m w,
      leave_first-Keeps s.connected m v,
      join_impl-Keeps m true (leave_first e s.connected m v).1,
    )
    | inr (x, failed) ↦ ground (arith, get_state-Keeps m w)
  ]
    where
      v : W e
      v = (get_sberjazz_meeting_state e m w).1
