-- ===== src/SberJazz/Calls/Errors.antt =====
-- The exceptions of the calls are errors of the provider.
use second_capture.Base.{ℕ, ◌≡◌, ◌⊎◌, refl, String, true, Option, none, some, arith, inl, inr}
use second_capture.Base.Errors.{Exc, err, Outcome-cases}
use second_capture.SberJazz.World.{SessionState, Env}
use second_capture.SberJazz.Limits.{Resolved, retry_config, resolve_connector}
use second_capture.SberJazz.Store.{W, naive_error, get_sberjazz_meeting_state, fresh_state}
use second_capture.SberJazz.Breaker.{before_connector_call, admit, half_opened}
use second_capture.SberJazz.Breaker.Laws.{seen, after_read, save_lem, before_lem}
use second_capture.SberJazz.Calls.{
  Loop, Call, attempt_loop, attempt_call, give_up, final_error, call_resolved, call_with_retries,
  is_provider_error,
}
use second_capture.SberJazz.Calls.Laws.{Loop-cases, give_up_lem}

-- An error of the provider, or the `TypeError` of a time without a zone.
abbrev pub IsExpected : Exc → Type 0
IsExpected x = (is_provider_error x ≡ true) ⊎ (x ≡ naive_error)

module _ (e : Env) where
  final_error_provider : (last : Option Exc) → is_provider_error (final_error last) ≡ true
  final_error_provider none = refl
  final_error_provider (some x) = ground arith

  pub get_state_error :
      (meeting_id : String) (w : W e) (x : Exc)
      → (get_sberjazz_meeting_state e meeting_id w).0 ≡ err x
      → is_provider_error x ≡ true
  unfolding get_sberjazz_meeting_state fresh_state resolve_connector
  get_state_error meeting_id w x h = ground arith

  pub before_error : (w : W e) (x : Exc) → (before_connector_call e w).0 ≡ err x → IsExpected x
  unfolding admit
  before_error w x h = ground (
    arith,
    before_lem e w,
    save_lem e (half_opened e (seen e w) (after_read e w)) (after_read e w),
  )

  give_up_error :
      (call : Call) (name meeting_id : String) (n : ℕ) (last : Option Exc) (w : W e) (x : Exc)
      → (give_up e call name meeting_id n last w).0 ≡ err x
      → is_provider_error x ≡ true
  give_up_error call name meeting_id n last w x h =
      cc ((give_up_lem e call name meeting_id n last w).0, h, final_error_provider last)

  resolved_error :
      (call : Call) (r : Resolved e) (meeting_id : String) (w : W e) (x : Exc)
      → (call_resolved e call r meeting_id w).0 ≡ err x
      → is_provider_error x ≡ true
  unfolding call_resolved
  resolved_error call r meeting_id w x h = elim (Loop-cases l.0) [
    | inl (t, ret) ↦ ground arith
    | inr (last, gave) ↦ ground (
      arith,
      give_up_error call r.provider meeting_id (retry_config e.settings).attempts last l.1 x,
    )
  ]
    where
      l : Loop SessionState × W e
      l =
          attempt_loop e (retry_config e.settings).attempts (retry_config e.settings)
            (attempt_call e call r.connector r.provider meeting_id) 1 none w

  resolve_error : (x : Exc) → resolve_connector e ≡ err x → is_provider_error x ≡ true
  unfolding resolve_connector
  resolve_error x h = ground arith

  pub call_error :
      (call : Call) (meeting_id : String) (w : W e) (x : Exc)
      → (call_with_retries e call meeting_id w).0 ≡ err x
      → is_provider_error x ≡ true
  unfolding call_with_retries
  call_error call meeting_id w x h = elim (Outcome-cases (resolve_connector e)) [
    | inl (r, found) ↦ ground (arith, resolved_error call r meeting_id w x)
    | inr (y, missing) ↦ ground (arith, resolve_error y)
  ]
