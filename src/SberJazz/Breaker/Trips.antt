-- ===== src/SberJazz/Breaker/Trips.antt =====
-- The breaker over several calls, with a Redis that answers.
use second_capture.Base.{
  ℕ, zero, suc, ◌+◌, ◌≤◌, ◌<◌, ◌≡◌, ◌∙◌, ap, refl, String, str_eq, eq_iff, eq_refl, false, ◌&&◌,
  ◌==◌, inl, inr, Option, some, arith, if◌then◌else◌,
}
use second_capture.Base.Text.{text_or}
use second_capture.Base.Errors.{is_ok}
use second_capture.SberJazz.World.{BreakerState, Env}
use second_capture.SberJazz.RedisLaws.{IsStore, IsIso}
use second_capture.SberJazz.Payloads.{breaker_payload}
use second_capture.SberJazz.Payloads.RoundTrip.{drop_empty, parse-breaker_payload}
use second_capture.SberJazz.Limits.{session_ttl_sec, cb_failure_threshold, cb_open_sec}
use second_capture.SberJazz.Store.{W, parse_dt, age_sec}
use second_capture.SberJazz.Breaker.{
  circuit_breaker_key, after_failure, save_cb_state, load_cb_state_redis, opened_time,
  on_connector_failure, on_connector_success, get_sberjazz_circuit_breaker_state,
  before_connector_call, default_cb_state, opened_text,
}
use second_capture.SberJazz.Breaker.Laws.{
  read_lem, save_lem, seen, after_read, after_read_same, saved, saved_same,
  on_connector_failure_lem, IsBlocked, before_connector_call_blocks, after_failure_state,
}

-- A breaker state as Redis gives it back.
abbrev pub reread : BreakerState → BreakerState
reread s = record s { opened_at = drop_empty s.opened_at; last_error = drop_empty s.last_error }

module _ (e : Env) (st : IsStore e.redis) where
  -- A saved state is the one that is read next.
  pub seen-saved : (s : BreakerState) (w : W e) → seen e (saved e s w) ≡ reread s
  unfolding saved save_cb_state load_cb_state_redis seen
  seen-saved s w =
      let k : String = circuit_breaker_key in
      let p = breaker_payload s in
      let n : ℕ = session_ttl_sec e.settings in
      ground (
        arith,
        st.set_ok k p n w.redis,
        st.get_lem k (e.redis.set k p n w.redis).1,
        st.view-set k p n w.redis k,
        eq_refl k,
        parse-breaker_payload s,
      )

  -- The errors of calls that fail one after the other.
  unfoldable pub fail_times : ℕ → Option String → W e → W e
  fail_times zero error w = w
  fail_times (suc n) error w = (on_connector_failure e error (fail_times n error w)).1

  pub seen-failure :
      (error : Option String) (w : W e)
      → seen e (on_connector_failure e error w).1
        ≡ reread (after_failure e (seen e w) error (after_read e w))
  seen-failure error w = ap (λ r. seen e r.1) (on_connector_failure_lem e error w) ∙ seen-saved _ _

  pub failures-fail_times :
      (n : ℕ) (error : Option String) (w : W e)
      → (seen e (fail_times n error w)).consecutive_failures ≡ (seen e w).consecutive_failures + n
  unfolding fail_times after_failure
  failures-fail_times zero error w = omega arith
  failures-fail_times (suc n) error w =
      ap (λ (b : BreakerState). b.consecutive_failures) (seen-failure error (fail_times n error w))
      ∙ omega (arith, failures-fail_times n error w)

  pub clock-failure :
      (error : Option String) (w : W e) → (on_connector_failure e error w).1.clock ≡ w.clock
  clock-failure error w =
      ap (λ r. r.1.clock) (on_connector_failure_lem e error w)
      ∙ (saved_same e _ _).3
      ∙ (after_read_same e w).0

  clock-fail_times :
      (n : ℕ) (error : Option String) (w : W e) → (fail_times n error w).clock ≡ w.clock
  unfolding fail_times
  clock-fail_times zero error w = refl
  clock-fail_times (suc n) error w =
      clock-failure error (fail_times n error w) ∙ clock-fail_times n error w

  no_age :
      IsIso e
      → (now : ℕ) (s : BreakerState) → s.opened_at ≡ some (e.iso now)
      → age_sec now (opened_time e now s) < cb_open_sec e.settings
  unfolding age_sec opened_time opened_text parse_dt text_or cb_open_sec
  no_age iso now s h = ground (arith, iso.from_iso-iso now, iso.iso_filled now)

  -- After a failure that reaches the threshold the next call is refused, at the same time.
  failure_blocks :
      IsIso e
      → (error : Option String) (w : W e)
      → cb_failure_threshold e.settings ≤ (seen e w).consecutive_failures + 1
      → IsBlocked e (seen e (on_connector_failure e error w).1) w.clock
  failure_blocks iso error w h =
      let facts = after_failure_state e (seen e w) error (after_read e w) in
      let opened = facts.0.1 (inl h) in
      rw (seen-failure error w) (
        rw opened refl,
        inr (
            no_age iso w.clock _ (
              ap drop_empty (facts.2 opened)
              ∙ rw (iso.iso_filled (after_read e w).clock)
                  (ap (λ c. some (e.iso c)) (after_read_same e w).0))),
      )

  -- From any breaker, as many failures in a row as the threshold, with no time between them, leave
  -- a breaker that counts them all and refuses the next call.
  pub fail_times_trips :
      IsIso e
      → (n : ℕ) (error : Option String) (w : W e) → cb_failure_threshold e.settings ≤ suc n
      → ((seen e (fail_times (suc n) error w)).consecutive_failures
          ≡ (seen e w).consecutive_failures + suc n)
        × (is_ok (before_connector_call e (fail_times (suc n) error w)).0 ≡ false)
  unfolding fail_times
  fail_times_trips iso n error w h =
      let before = fail_times n error w in
      (
        failures-fail_times (suc n) error w,
        (before_connector_call_blocks e (on_connector_failure e error before).1).0.1 (
            rw (clock-failure error before)
              (failure_blocks iso error before (omega (arith, failures-fail_times n error w)))),
      )

  pub seen-after_read : (w : W e) → seen e (after_read e w) ≡ seen e w
  unfolding after_read seen get_sberjazz_circuit_breaker_state load_cb_state_redis
  seen-after_read w = ground (arith, st.get_lem circuit_breaker_key w.redis)

  pub on_connector_success_lem :
      (w : W e)
      → seen e (on_connector_success e w).1 ≡ (
          if str_eq (seen e w).state "closed" && (seen e w).consecutive_failures == 0
          then seen e w
          else reread (default_cb_state e (after_read e w)))
  unfolding on_connector_success
  on_connector_success_lem w = ground (
    arith,
    read_lem e w,
    seen-after_read w,
    save_lem e (default_cb_state e (after_read e w)) (after_read e w),
    seen-saved (default_cb_state e (after_read e w)) (after_read e w),
  )

  -- After a success the breaker is closed and counts no failures, whatever it was before.
  pub on_connector_success_closes :
      (w : W e)
      → ((seen e (on_connector_success e w).1).state ≡ "closed")
        × ((seen e (on_connector_success e w).1).consecutive_failures ≡ 0)
  unfolding default_cb_state
  on_connector_success_closes w =
      rw (on_connector_success_lem w) (ground (arith, eq_iff (seen e w).state "closed"))
