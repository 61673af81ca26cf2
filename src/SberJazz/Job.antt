-- ===== src/SberJazz/Job.antt =====
-- The reconciliation job (src/interview_analytics_agent/jobs/reconciliation_job.py).
pub mod Laws
use second_capture.Base.{
  ℕ, max, String, str_eq, Bool, true, false, not, ◌&&◌, Option, none, some, ltb, List,
  if◌then◌else◌,
}
use second_capture.Base.Text.{is_empty}
use second_capture.Base.Errors.{Outcome, ok, err, Op, pure, catch, ◌>>=◌}
use second_capture.Config.{ℤ, pos, at_least}
use second_capture.SberJazz.World.{BreakerState, Env, World}
use second_capture.SberJazz.Store.{W, is_naive_time, naive_error, age_sec}
use second_capture.SberJazz.Breaker.{
  get_sberjazz_circuit_breaker_state, reset_sberjazz_circuit_breaker,
}
use second_capture.SberJazz.Sessions.{
  ReconcileResult, ConnectorHealth, reconcile_sberjazz_sessions, get_sberjazz_connector_health,
}
use second_capture.SberJazz.Live.Pull.{LivePullResult, pull_sberjazz_live_chunks}

module _ (e : Env) where
  -- `_parse_opened_at`.
  unfoldable pub parse_opened_at : Option String → Option ℕ
  parse_opened_at none = none
  parse_opened_at (some s) = if is_empty s then none else e.from_iso s

  unfoldable pub has_naive_opening : BreakerState → Bool
  has_naive_opening s = elim s.opened_at [
    | none ↦ false
    | some text ↦ not (is_empty text) && is_naive_time e text
  ]

  -- The breaker opened so recently that it is not reset. One without a readable opening time is
  -- old enough.
  unfoldable pub is_young : BreakerState → ℕ → Bool
  is_young s now = elim (parse_opened_at s.opened_at) [
    | none ↦ false
    | some t ↦ ltb (age_sec now t) (at_least 0 e.settings.sberjazz_cb_auto_reset_min_age_sec)
  ]

  unfoldable pub reset_if_healthy : ConnectorHealth → Op (W e) (Unit {0})
  reset_if_healthy h w =
      if h.healthy then (reset_sberjazz_circuit_breaker e >>= λ _. pure tt) w else (ok tt, w)

  -- What follows the reading of the breaker.
  unfoldable pub reset_if_old : BreakerState → Op (W e) (Unit {0})
  reset_if_old s w =
      if not (str_eq s.state "open")
      then (ok tt, w)
      else if has_naive_opening s
      then (err naive_error, w)
      else if is_young s w.clock
      then (ok tt, w)
      else (get_sberjazz_connector_health e >>= λ h. reset_if_healthy h) w

  unfoldable pub maybe_auto_reset_circuit_breaker : Op (W e) (Unit {0})
  maybe_auto_reset_circuit_breaker w =
      if e.settings.sberjazz_cb_auto_reset_enabled
      then (get_sberjazz_circuit_breaker_state e >>= λ s. reset_if_old s) w
      else (ok tt, w)

module _ (e : Env) (ingest : String → ℕ → String → String → Op (W e) Bool)
    (arrange : List String → List String) (uuid : String → String) where
  -- The settings always have a limit of sessions, so that the limit of the job is not used here.
  unfoldable pub maybe_pull_live_chunks : Op (W e) (Unit {0})
  maybe_pull_live_chunks w =
      if e.settings.sberjazz_live_pull_enabled
      then (pull_sberjazz_live_chunks e ingest arrange uuid
              (pos (at_least 1 e.settings.sberjazz_live_pull_sessions_limit))
              (pos (at_least 1 e.settings.sberjazz_live_pull_batch_limit))
            >>= λ _. pure tt)
          w
      else (ok tt, w)

  abbrev pub chosen : Option ℤ → ℤ
  chosen none = e.settings.reconciliation_limit
  chosen (some z) = z

  -- The job after the reset of the breaker, whose exceptions are logged.
  unfoldable pub reconcile_and_pull : Option ℤ → Op (W e) (Option ReconcileResult)
  reconcile_and_pull limit =
      reconcile_sberjazz_sessions e arrange uuid (pos (at_least 1 (chosen limit))) >>= λ result.
      catch maybe_pull_live_chunks (λ _. pure tt) >>= λ _. pure (some result)

  unfoldable pub run : Option ℤ → Op (W e) (Option ReconcileResult)
  run limit w =
      if e.settings.reconciliation_enabled
      then (catch (maybe_auto_reset_circuit_breaker e) (λ _. pure tt) >>= λ _.
            reconcile_and_pull limit)
          w
      else (ok none, w)
