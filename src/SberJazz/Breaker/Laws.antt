-- ===== src/SberJazz/Breaker/Laws.antt =====
-- What the circuit breaker does on every branch.
use second_capture.Base.{
  ℕ, ◌+◌, ◌≤◌, ◌<◌, ◌≡◌, ap, max, subst, ◌∙◌, ◌↔◌, ◌⊎◌, refl, String, str_eq, eq_iff, true, false,
  Option, none, some, arith,
}
use second_capture.Base.Errors.{ok, err, is_ok}
use second_capture.SberJazz.World.{BreakerState, Env}
use second_capture.SberJazz.Limits.{cb_failure_threshold, cb_open_sec}
use second_capture.SberJazz.Store.{W, is_naive_time, age_sec}
use second_capture.SberJazz.Breaker.{
  half_opened, admit, opened_text, save_cb_state, get_sberjazz_circuit_breaker_state,
  before_connector_call, after_failure, on_connector_failure, opened_time, breaker_in_memory,
  load_cb_state_redis,
}

module _ (e : Env) where
  -- The state that a read of the breaker returns.
  unfoldable pub seen : W e → BreakerState
  seen w = elim (load_cb_state_redis e w).0 [
    | err _ ↦ breaker_in_memory e (load_cb_state_redis e w).1
    | ok none ↦ breaker_in_memory e (load_cb_state_redis e w).1
    | ok (some s) ↦ s
  ]

  -- The world after the read.
  unfoldable pub after_read : W e → W e
  after_read w = (get_sberjazz_circuit_breaker_state e w).1

  pub read_lem : (w : W e) → get_sberjazz_circuit_breaker_state e w ≡ (ok (seen w), after_read w)
  unfolding get_sberjazz_circuit_breaker_state after_read seen
  read_lem w = ground arith

  -- A read takes no time, calls no platform and touches no session.
  pub after_read_same :
      (w : W e)
      → ((after_read w).clock ≡ w.clock)
        × ((after_read w).platform ≡ w.platform)
        × ((after_read w).sessions ≡ w.sessions)
  unfolding get_sberjazz_circuit_breaker_state load_cb_state_redis after_read
  after_read_same w = ground arith

  unfoldable pub saved : BreakerState → W e → W e
  saved s w = (save_cb_state e s w).1

  -- Saving never raises, whatever Redis does, and leaves the state in the global.
  pub save_lem : (s : BreakerState) (w : W e) → save_cb_state e s w ≡ (ok s, saved s w)
  unfolding save_cb_state saved
  save_lem s w = ground arith

  pub saved_same :
      (s : BreakerState) (w : W e)
      → ((saved s w).breaker ≡ some s)
        × ((saved s w).platform ≡ w.platform)
        × ((saved s w).sessions ≡ w.sessions)
        × ((saved s w).clock ≡ w.clock)
  unfolding save_cb_state saved
  saved_same s w = ground arith

  pub before_lem : (w : W e) → before_connector_call e w ≡ admit e (seen w) (after_read w)
  unfolding before_connector_call
  before_lem w = ground (arith, read_lem w)

  -- The breaker `s` is open at the time `now`, and its cooldown is not over, or the time when it
  -- opened has no zone.
  abbrev pub IsBlocked : BreakerState → ℕ → Type 0
  IsBlocked s now =
      (str_eq s.state "open" ≡ true)
      × ((is_naive_time e (opened_text e now s) ≡ true)
          ⊎ (age_sec now (opened_time e now s) < cb_open_sec e.settings))

  admit_blocks :
      (s : BreakerState) (w : W e) → (is_ok (admit e s w).0 ≡ false) ↔ IsBlocked s w.clock
  unfolding admit
  admit_blocks s w = ground (arith, save_lem (half_opened e s w) w)

  pub admit_same :
      (s : BreakerState) (w : W e)
      → ((admit e s w).1.platform ≡ w.platform)
        × ((admit e s w).1.sessions ≡ w.sessions)
        × ((admit e s w).1.clock ≡ w.clock)
  unfolding admit
  admit_same s w = ground (arith, save_lem (half_opened e s w) w, saved_same (half_opened e s w) w)

  -- A call is refused exactly while the breaker is open and its cooldown is not over, or the
  -- time when it opened has no zone, whatever Redis answers; in either case the platform is not called and no session changes.
  pub before_connector_call_blocks :
      (w : W e)
      → ((is_ok (before_connector_call e w).0 ≡ false) ↔ IsBlocked (seen w) w.clock)
        × ((before_connector_call e w).1.platform ≡ w.platform)
        × ((before_connector_call e w).1.sessions ≡ w.sessions)
  before_connector_call_blocks w = rw (before_lem w) (
    subst (λ c. (is_ok (admit e (seen w) (after_read w)).0 ≡ false) ↔ IsBlocked (seen w) c)
        (after_read_same w).0 (admit_blocks (seen w) (after_read w)),
    (admit_same (seen w) (after_read w)).0 ∙ (after_read_same w).1,
    (admit_same (seen w) (after_read w)).1 ∙ (after_read_same w).2,
  )

  pub on_connector_failure_lem :
      (error : Option String) (w : W e)
      → on_connector_failure e error w
        ≡ (ok tt, saved (after_failure e (seen w) error (after_read w)) (after_read w))
  unfolding on_connector_failure
  on_connector_failure_lem error w =
      ground
        (arith, read_lem w, save_lem (after_failure e (seen w) error (after_read w)) (after_read w))

  pub failures_lem : (n : ℕ) → max 1 (n + 1) ≡ n + 1
  failures_lem n = omega arith

  pub after_failure_state :
      (s : BreakerState) (error : Option String) (w : W e)
      → (((after_failure e s error w).state ≡ "open") ↔ (
          (cb_failure_threshold e.settings ≤ s.consecutive_failures + 1) ⊎ (s.state ≡ "half_open")))
        × (((after_failure e s error w).state ≡ "open")
            ⊎ ((after_failure e s error w).state ≡ "closed"))
        × ((after_failure e s error w).state ≡ "open"
            → (after_failure e s error w).opened_at ≡ some (e.iso w.clock))
        × ((after_failure e s error w).state ≡ "closed"
            → (after_failure e s error w).opened_at ≡ none)
  unfolding after_failure
  after_failure_state s error w = ground (
    arith,
    eq_iff s.state "half_open",
    failures_lem s.consecutive_failures,
    eq_iff "closed" "open",
    eq_iff "open" "closed",
  )

  -- A failure, whatever Redis answers, leaves a breaker in memory that counts one failure more
  -- than the one read, that is open exactly if the threshold is reached or the breaker was half
  -- open, and closed if not, and that carries the time of now as its opening time exactly if it is open.
  on_connector_failure_counts :
      (error : Option String) (w : W e)
      → (b : BreakerState) × ((on_connector_failure e error w).1.breaker ≡ some b)
        × (b.consecutive_failures ≡ (seen w).consecutive_failures + 1)
        × (b.last_error ≡ error)
        × ((b.state ≡ "open") ↔ (
            (cb_failure_threshold e.settings ≤ (seen w).consecutive_failures + 1)
            ⊎ ((seen w).state ≡ "half_open")))
        × ((b.state ≡ "open") ⊎ (b.state ≡ "closed"))
        × (b.state ≡ "open" → b.opened_at ≡ some (e.iso w.clock))
        × (b.state ≡ "closed" → b.opened_at ≡ none)
  on_connector_failure_counts error w =
      let shape = after_failure_state (seen w) error (after_read w) in
      (
        after_failure e (seen w) error (after_read w),
        rw (on_connector_failure_lem error w) (saved_same _ _).0,
        unfold after_failure in omega arith,
        unfold after_failure in refl,
        shape.0,
        shape.1,
        (λ h. shape.2 h ∙ ap (λ c. some (e.iso c)) (after_read_same w).0),
        shape.3,
      )
