-- ===== src/SberJazz/Calls/Laws.antt =====
-- What one call of the platform does, whatever Redis and the platform answer.
use second_capture.Base.{ℕ, ◌≡◌, ◌≤◌, refl, String, not, Option, none, some, arith, ◌⊎◌, inl, inr}
use second_capture.Base.Dict.{lookup-insert_self}
use second_capture.Base.Errors.{Exc, ok, err}
use second_capture.SberJazz.World.{SessionState, Env, Connector, lookup}
use second_capture.SberJazz.Store.{W, save_state}
use second_capture.SberJazz.Breaker.{
  after_failure, on_connector_success, close_unless_clean, default_cb_state,
}
use second_capture.SberJazz.Breaker.Laws.{
  seen, read_lem, after_read, after_read_same, saved_same, save_lem, on_connector_failure_lem,
}
use second_capture.SberJazz.Calls.{
  Loop, returned, gave_up, Call, connected_after, attempt_call, give_up, final_error, error_text,
  stamped, invoke,
}

pub Loop-cases :
    {A : Type 0} (l : Loop A) → ((a : A) × (l ≡ returned a)) ⊎ ((o : Option Exc) × (l ≡ gave_up o))
Loop-cases (returned a) = inl (a, refl)
Loop-cases (gave_up o) = inr (o, refl)

module _ (e : Env) where
  -- Saving never raises, and memory holds the session under its meeting.
  pub save_state_lem :
      (s : SessionState) (w : W e)
      → ((save_state e s w).0 ≡ ok s)
        × (lookup s.meeting_id (save_state e s w).1.sessions ≡ some s)
        × ((save_state e s w).1.platform ≡ w.platform)
        × ((save_state e s w).1.clock ≡ w.clock)
  unfolding save_state
  save_state_lem s w = ground (arith, lookup-insert_self s.meeting_id s w.sessions)

  pub on_connector_success_same :
      (w : W e)
      → ((on_connector_success e w).0 ≡ ok tt)
        × ((on_connector_success e w).1.platform ≡ w.platform)
        × ((on_connector_success e w).1.sessions ≡ w.sessions)
  unfolding on_connector_success close_unless_clean
  on_connector_success_same w = ground (
    arith,
    read_lem e w,
    after_read_same e w,
    save_lem e (default_cb_state e (after_read e w)) (after_read e w),
    saved_same e (default_cb_state e (after_read e w)) (after_read e w),
  )

  -- What a successful attempt returns, and where it is stored.
  abbrev pub Succeeds : Call → String → ℕ → ℕ → SessionState → W e → Type 0
  Succeeds call meeting_id lo hi s w =
      (s.connected ≡ connected_after call)
      × (s.meeting_id ≡ meeting_id)
      × (s.last_error ≡ none)
      × (lo ≤ s.attempts)
      × (s.attempts ≤ hi)
      × (lookup meeting_id w.sessions ≡ some s)

  -- The world after the connector's call and the breaker's bookkeeping.
  abbrev called : Call → Connector e.Platform → String → W e → W e
  called call c meeting_id w = (on_connector_success e (invoke e call c meeting_id w).1).1

  pub attempt_call_returned :
      (call : Call) (c : Connector e.Platform) (name meeting_id : String) (k : ℕ) (w : W e)
      (s : SessionState)
      → (attempt_call e call c name meeting_id k w).0 ≡ ok s
      → Succeeds call meeting_id k k s (attempt_call e call c name meeting_id k w).1
  unfolding attempt_call stamped
  attempt_call_returned call c name meeting_id k w s h =
      let v = called call c meeting_id w in
      ground (
        arith,
        on_connector_success_same (invoke e call c meeting_id w).1,
        save_state_lem (stamped e meeting_id name (connected_after call) k none v) v,
      )

  -- Giving up raises, and memory holds the session in the state opposite to the one asked for.
  pub give_up_lem :
      (call : Call) (name meeting_id : String) (n : ℕ) (last : Option Exc) (w : W e)
      → ((give_up e call name meeting_id n last w).0 ≡ err (final_error last))
        × (lookup meeting_id (give_up e call name meeting_id n last w).1.sessions
            ≡ some (stamped e meeting_id name (not (connected_after call)) n (error_text last) w))
        × ((give_up e call name meeting_id n last w).1.platform ≡ w.platform)
  unfolding give_up stamped
  give_up_lem call name meeting_id n last w =
      let s = stamped e meeting_id name (not (connected_after call)) n (error_text last) w in
      let v = (save_state e s w).1 in
      let b = after_failure e (seen e v) (error_text last) (after_read e v) in
      ground (
        arith,
        save_state_lem s w,
        on_connector_failure_lem e (error_text last) v,
        saved_same e b (after_read e v),
        after_read_same e v,
      )
