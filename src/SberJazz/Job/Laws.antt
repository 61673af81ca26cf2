-- ===== src/SberJazz/Job/Laws.antt =====
-- When the job closes the breaker, and what its result depends on.
use second_capture.Base.{
  ℕ, ◌≡◌, inl, inr, ◌⊎◌, String, str_eq, Bool, true, false, Bool-cases, Option, some, List, arith,
}
use second_capture.Base.Errors.{Exc, ok, err, Op, Outcome-cases}
use second_capture.Config.{ℤ, pos, at_least}
use second_capture.SberJazz.World.{BreakerState, Env}
use second_capture.SberJazz.RedisLaws.{IsStore}
use second_capture.SberJazz.Limits.{Resolved, resolve_connector}
use second_capture.SberJazz.Store.{W}
use second_capture.SberJazz.Breaker.{
  circuit_breaker_key, load_cb_state_redis, get_sberjazz_circuit_breaker_state,
}
use second_capture.SberJazz.Breaker.Laws.{read_lem, seen, after_read, after_read_same}
use second_capture.SberJazz.Sessions.{
  ReconcileResult, ConnectorHealth, reconcile_sberjazz_sessions, get_sberjazz_connector_health,
  health_of, ping,
}
use second_capture.SberJazz.Job.{
  is_young, reset_if_healthy, reset_if_old, maybe_auto_reset_circuit_breaker, reconcile_and_pull,
  run, chosen,
}

module _ (e : Env) (st : IsStore e.redis) where
  -- Reading the breaker again changes nothing.
  read_twice : (w : W e) → (after_read e (after_read e w)).breaker ≡ (after_read e w).breaker
  unfolding after_read get_sberjazz_circuit_breaker_state load_cb_state_redis
  read_twice w = ground (arith, st.get_lem circuit_breaker_key w.redis)

  health_of-breaker :
      (r : Resolved e) (cb : BreakerState) (w : W e) → (health_of e r cb w).1.breaker ≡ w.breaker
  unfolding health_of ping
  health_of-breaker r cb w = ground arith

  health-breaker :
      (w : W e)
      → (get_sberjazz_connector_health e (after_read e w)).1.breaker ≡ (after_read e w).breaker
  unfolding get_sberjazz_connector_health
  health-breaker w = elim (Outcome-cases (resolve_connector e)) [
    | inl (r, found) ↦
        let v = after_read e w in
        ground (arith, read_lem e v, read_twice w, health_of-breaker r (seen e v) (after_read e v))
    | inr (x, missing) ↦ ground arith
  ]

  -- The job may close the breaker: it is switched on to do so, the breaker is open and not opened
  -- too recently, and the connector is healthy.
  abbrev pub MayReset : W e → Type 0
  MayReset w =
      (e.settings.sberjazz_cb_auto_reset_enabled ≡ true)
      × (str_eq (seen e w).state "open" ≡ true)
      × (is_young e (seen e w) w.clock ≡ false)
      × ((h : ConnectorHealth) × ((get_sberjazz_connector_health e (after_read e w)).0 ≡ ok h)
          × (h.healthy ≡ true))

  reset_if_old_lem :
      (w : W e)
      → let out = reset_if_old e (seen e w) (after_read e w) in
        (out.1.breaker ≡ (after_read e w).breaker)
        ⊎ ((str_eq (seen e w).state "open" ≡ true)
            × (is_young e (seen e w) w.clock ≡ false)
            × ((h : ConnectorHealth) × ((get_sberjazz_connector_health e (after_read e w)).0 ≡ ok h)
                × (h.healthy ≡ true)))
  unfolding reset_if_old reset_if_healthy
  reset_if_old_lem w = elim (Outcome-cases (get_sberjazz_connector_health e (after_read e w)).0) [
    | inr (x, failed) ↦ inl (ground (arith, health-breaker w))
    | inl (h, found) ↦ elim (Bool-cases h.healthy) [
      | inr sick ↦ inl (ground (arith, health-breaker w))
      | inl well ↦ elim (Bool-cases (str_eq (seen e w).state "open")) [
        | inr closed ↦ inl (ground arith)
        | inl opened ↦ elim (Bool-cases (is_young e (seen e w) w.clock)) [
          | inl young ↦ inl (ground (arith, after_read_same e w))
          | inr old ↦ inr (opened, old, (h, found, well))
        ]
      ]
    ]
  ]

  -- With a Redis that answers, whether the automatic reset returns or raises, either the breaker
  -- in memory is the one before it or the one that was read, or all conditions of a reset hold.
  auto_reset_is_careful :
      (w : W e)
      → let out = maybe_auto_reset_circuit_breaker e w in
        (out.1.breaker ≡ w.breaker) ⊎ ((out.1.breaker ≡ (after_read e w).breaker) ⊎ MayReset w)
  unfolding maybe_auto_reset_circuit_breaker
  auto_reset_is_careful w = elim (Bool-cases e.settings.sberjazz_cb_auto_reset_enabled) [
    | inr off ↦ inl (ground arith)
    | inl on ↦ elim (reset_if_old_lem w) [
      | inl same ↦ inr (inl (ground (arith, read_lem e w, same)))
      | inr (opened, old, well) ↦ inr (inr (on, opened, old, well))
    ]
  ]

module _ (e : Env) (ingest : String → ℕ → String → String → Op (W e) Bool)
    (arrange : List String → List String) (uuid : String → String) where
  -- The job, where it is switched on, ends as its reconciliation ends, at the state that the reset
  -- of the breaker leaves: exceptions of the reset and of the live pull are not seen.
  pub run_ends :
      (limit : Option ℤ) (w : W e)
      → e.settings.reconciliation_enabled ≡ true
      → let u = (maybe_auto_reset_circuit_breaker e w).1 in
        let reconciled =
          reconcile_sberjazz_sessions e arrange uuid
            (pos (at_least 1 (chosen e ingest arrange uuid limit)))
            u in
        ((r : ReconcileResult)
          → reconciled.0 ≡ ok r
          → (run e ingest arrange uuid limit w).0 ≡ ok (some r))
        × ((x : Exc) → reconciled.0 ≡ err x → (run e ingest arrange uuid limit w).0 ≡ err x)
  unfolding run reconcile_and_pull
  run_ends limit w on = (λ r found. ground arith, λ x failed. ground arith)
