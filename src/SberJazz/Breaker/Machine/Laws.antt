-- ===== src/SberJazz/Breaker/Machine/Laws.antt =====
-- The breaker of the service beside the machine.
use second_capture.Base.{
  ℕ, suc, ◌+◌, ◌-◌, ◌/◌, ◌≡◌, ◌∙◌, ap, sym, subst, refl, inl, inr, String, str_eq, true, false,
  ◌||◌, ltb, leb, Bool-cases, Option, some, List, [], ◌∷◌, arith, if◌then◌else◌,
}
use second_capture.Base.Text.{text_or}
use second_capture.Base.Errors.{ok, is_ok}
use second_capture.SberJazz.World.{BreakerState, Env}
use second_capture.SberJazz.RedisLaws.{IsStore, IsIso}
use second_capture.SberJazz.Payloads.RoundTrip.{drop_empty}
use second_capture.SberJazz.Limits.{cb_failure_threshold, cb_open_sec}
use second_capture.SberJazz.Store.{W, parse_dt, is_naive_time, age_sec}
use second_capture.SberJazz.Breaker.{
  circuit_breaker_key, after_failure, admit, half_opened, load_cb_state_redis, opened_text,
  opened_time, on_connector_success, close_unless_clean, before_connector_call, default_cb_state,
}
use second_capture.SberJazz.Breaker.Laws.{
  admit_same, read_lem, save_lem, seen, after_read, after_read_same, saved, saved_same, before_lem,
  on_connector_failure_lem, failures_lem,
}
use second_capture.SberJazz.Calls.Laws.{on_connector_success_same}
use second_capture.SberJazz.Breaker.Trips.{
  clock-failure, reread, seen-saved, seen-after_read, seen-failure, on_connector_success_closes,
}
use second_capture.SberJazz.Breaker.Machine.{
  Phase, shut, tripped, trying, Event, wait, call, success, failure, failed, is_admitted, asked,
  next_phase, answer, next_time, replay, happens, run, StandsFor,
}

module _ (e : Env) where
  StandsFor-same :
      (ph : Phase) (b c : BreakerState)
      → b.state ≡ c.state
      → b.consecutive_failures ≡ c.consecutive_failures
      → b.opened_at ≡ c.opened_at
      → StandsFor e ph b
      → StandsFor e ph c
  StandsFor-same (shut n) b c s f o (h, k) = (sym s ∙ h, sym f ∙ k)
  StandsFor-same (trying n) b c s f o (h, k) = (sym s ∙ h, sym f ∙ k)
  StandsFor-same (tripped n t) b c s f o (h, k, l) = (sym s ∙ h, sym f ∙ k, sym o ∙ l)

module _ (e : Env) (st : IsStore e.redis) (iso : IsIso e) where
  StandsFor-reread : (ph : Phase) (b : BreakerState) → StandsFor e ph b → StandsFor e ph (reread b)
  StandsFor-reread (shut n) b h = h
  StandsFor-reread (trying n) b h = h
  StandsFor-reread (tripped n t) b (h, k, l) = (h, k, ap drop_empty l ∙ rw (iso.iso_filled t) refl)

  seen-wait :
      (d : ℕ) (w : W e)
      → let v : W e = record w { clock = w.clock + d } in
        ((seen e w).state ≡ (seen e v).state)
        × ((seen e w).consecutive_failures ≡ (seen e v).consecutive_failures)
        × ((seen e w).opened_at ≡ (seen e v).opened_at)
  unfolding seen load_cb_state_redis default_cb_state
  seen-wait d w = ground (arith, st.get_lem circuit_breaker_key w.redis)

  seen-success : (w : W e) → StandsFor e (shut 0) (seen e (on_connector_success e w).1)
  seen-success w = on_connector_success_closes e st w

  abbrev th : ℕ
  th = cb_failure_threshold e.settings

  abbrev cool : ℕ
  cool = cb_open_sec e.settings

  opens :
      (n : ℕ) (b : BreakerState) (error : Option String) (w : W e)
      → b.consecutive_failures ≡ n
      → (leb th (suc n) || str_eq b.state "half_open") ≡ true
      → StandsFor e (tripped (suc n) w.clock) (after_failure e b error w)
  unfolding after_failure
  opens n b error w k h = (
    ground (arith, failures_lem e b.consecutive_failures),
    ground (arith, failures_lem e b.consecutive_failures),
    ground (arith, failures_lem e b.consecutive_failures),
  )

  stays_shut :
      (n : ℕ) (b : BreakerState) (error : Option String) (w : W e)
      → b.consecutive_failures ≡ n
      → (leb th (suc n) || str_eq b.state "half_open") ≡ false
      → StandsFor e (shut (suc n)) (after_failure e b error w)
  unfolding after_failure
  stays_shut n b error w k h = (
    ground (arith, failures_lem e b.consecutive_failures),
    ground (arith, failures_lem e b.consecutive_failures),
  )

  failed_or_shut :
      (n : ℕ) (b : BreakerState) (error : Option String) (w : W e)
      → b.consecutive_failures ≡ n
      → str_eq b.state "half_open" ≡ false
      → StandsFor e
          (if leb th (suc n) then tripped (suc n) w.clock else shut (suc n))
          (after_failure e b error w)
  failed_or_shut n b error w k h = elim (Bool-cases (leb th (suc n))) [
    | inl hit ↦ rw hit (opens n b error w k (ground arith))
    | inr below ↦ rw below (stays_shut n b error w k (ground arith))
  ]

  failed-StandsFor :
      (ph : Phase) (b : BreakerState) (error : Option String) (w : W e)
      → StandsFor e ph b
      → StandsFor e (failed th cool w.clock ph) (after_failure e b error w)
  unfolding failed
  failed-StandsFor (shut n) b error w (h, k) = failed_or_shut n b error w k (rw h refl)
  failed-StandsFor (tripped n t) b error w (h, k, l) = failed_or_shut n b error w k (rw h refl)
  failed-StandsFor (trying n) b error w (h, k) = opens n b error w k (rw h (ground arith))

  admit_idle :
      (b : BreakerState) (w : W e) → str_eq b.state "open" ≡ false → admit e b w ≡ (ok tt, w)
  unfolding admit
  admit_idle b w h = ground arith

  admit_fresh :
      (b : BreakerState) (w : W e)
      → str_eq b.state "open" ≡ true
      → ltb (age_sec w.clock (opened_time e w.clock b)) cool ≡ true
      → (is_ok (admit e b w).0 ≡ false) × ((admit e b w).1 ≡ w)
  unfolding admit
  admit_fresh b w h fresh = (ground arith, ground arith)

  admit_cooled :
      (b : BreakerState) (w : W e)
      → str_eq b.state "open" ≡ true
      → is_naive_time e (opened_text e w.clock b) ≡ false
      → ltb (age_sec w.clock (opened_time e w.clock b)) cool ≡ false
      → admit e b w ≡ (ok tt, saved e (half_opened e b w) w)
  unfolding admit
  admit_cooled b w h zoned old = ground (arith, save_lem e (half_opened e b w) w)

  opened_time_lem :
      (now t : ℕ) (b : BreakerState) → b.opened_at ≡ some (e.iso t) → opened_time e now b ≡ t
  unfolding opened_time opened_text parse_dt text_or
  opened_time_lem now t b h = ground (arith, iso.from_iso-iso t, iso.iso_filled t)

  opened_zoned :
      (now t : ℕ) (b : BreakerState)
      → b.opened_at ≡ some (e.iso t)
      → is_naive_time e (opened_text e now b) ≡ false
  unfolding opened_text is_naive_time text_or
  opened_zoned now t b h = ground (arith, iso.is_naive-iso t, iso.iso_filled t)

  idle_call :
      (w : W e)
      → str_eq (seen e w).state "open" ≡ false
      → before_connector_call e w ≡ (ok tt, after_read e w)
  idle_call w h = before_lem e w ∙ admit_idle (seen e w) (after_read e w) h

  old_age :
      (b : BreakerState) (now t now' : ℕ)
      → opened_time e now b ≡ t
      → now ≡ now'
      → leb cool ((now' - t) / 1000000) ≡ true
      → ltb (age_sec now (opened_time e now b)) cool ≡ false
  unfolding age_sec
  old_age b now t now' at c h = rw (at, c) (ground arith)

  fresh_age :
      (b : BreakerState) (now t now' : ℕ)
      → opened_time e now b ≡ t
      → now ≡ now'
      → leb cool ((now' - t) / 1000000) ≡ false
      → ltb (age_sec now (opened_time e now b)) cool ≡ true
  unfolding age_sec
  fresh_age b now t now' at c h = rw (at, c) (ground arith)

  -- The answer to a call, and the phase after it.
  abbrev Asked : Phase → W e → Type 0
  Asked ph w =
      (is_ok (before_connector_call e w).0 ≡ is_admitted th cool w.clock ph)
      × StandsFor e (asked th cool w.clock ph) (seen e (before_connector_call e w).1)

  half_opened_lem :
      (n : ℕ) (v : W e) (b : BreakerState)
      → b.consecutive_failures ≡ n
      → StandsFor e (trying n) (seen e (saved e (half_opened e b v) v))
  unfolding half_opened
  half_opened_lem n v b k =
      subst (StandsFor e (trying n)) (sym (seen-saved e st (half_opened e b v) v)) (refl, k)

  Asked-StandsFor : (ph : Phase) (w : W e) → StandsFor e ph (seen e w) → Asked ph w
  unfolding asked is_admitted
  Asked-StandsFor (shut n) w (h, k) =
      let same = idle_call w (rw h refl) in
      (
        ap (λ r. is_ok r.0) same,
        subst (λ r. StandsFor e (shut n) (seen e r.1)) (sym same)
            (subst (StandsFor e (shut n)) (sym (seen-after_read e st w)) (h, k)),
      )
  Asked-StandsFor (trying n) w (h, k) =
      let same = idle_call w (rw h refl) in
      (
        ap (λ r. is_ok r.0) same,
        subst (λ r. StandsFor e (trying n) (seen e r.1)) (sym same)
            (subst (StandsFor e (trying n)) (sym (seen-after_read e st w)) (h, k)),
      )
  Asked-StandsFor (tripped n t) w (h, k, l) =
      let v = after_read e w in
      let b = seen e w in
      let clock = (after_read_same e w).0 in
      let opened : str_eq b.state "open" ≡ true = rw h refl in
      let at = opened_time_lem v.clock t b l in
      elim (Bool-cases (leb cool ((w.clock - t) / 1000000))) [
        | inl cooled ↦
            let same =
              before_lem e w
              ∙ admit_cooled b v opened (opened_zoned v.clock t b l)
                  (old_age b v.clock t w.clock at clock cooled) in
            (
              ap (λ r. is_ok r.0) same ∙ sym cooled,
              subst
                  (λ c.
                    StandsFor e (if c then trying n else tripped n t)
                      (seen e (before_connector_call e w).1))
                  (sym cooled)
                  (subst (λ r. StandsFor e (trying n) (seen e r.1)) (sym same)
                    (half_opened_lem n v b k)),
            )
        | inr fresh ↦
            let (refused, kept) =
              admit_fresh b v opened (fresh_age b v.clock t w.clock at clock fresh) in
            (
              ap (λ r. is_ok r.0) (before_lem e w) ∙ refused ∙ sym fresh,
              subst
                  (λ c.
                    StandsFor e (if c then trying n else tripped n t)
                      (seen e (before_connector_call e w).1))
                  (sym fresh)
                  (subst (λ r. StandsFor e (tripped n t) (seen e r))
                    (sym (ap (λ r. r.1) (before_lem e w) ∙ kept))
                    (subst (StandsFor e (tripped n t)) (sym (seen-after_read e st w)) (h, k, l))),
            )
      ]

  clock-success : (w : W e) → (on_connector_success e w).1.clock ≡ w.clock
  unfolding on_connector_success close_unless_clean
  clock-success w =
      let v = after_read e w in
      ground (
        arith,
        read_lem e w,
        after_read_same e w,
        save_lem e (default_cb_state e v) v,
        saved_same e (default_cb_state e v) v,
      )

  success_ok : (w : W e) → is_ok (on_connector_success e w).0 ≡ true
  success_ok w = ap is_ok (on_connector_success_same e w).0

  -- One event at the breaker is one step of the machine.
  abbrev Refines : Event → Phase → W e → Type 0
  Refines ev ph w =
      ((happens e ev w).0 ≡ answer th cool w.clock ph ev)
      × StandsFor e (next_phase th cool w.clock ph ev) (seen e (happens e ev w).1)
      × ((happens e ev w).1.clock ≡ next_time th cool w.clock ev)

  step-Refines : (ev : Event) (ph : Phase) (w : W e) → StandsFor e ph (seen e w) → Refines ev ph w
  step-Refines (wait d) ph w h =
      let v : W e = record w { clock = w.clock + d } in
      let (s, f, o) = seen-wait d w in
      (refl, StandsFor-same e ph (seen e w) (seen e v) s f o h, refl)
  step-Refines call ph w h =
      let (admitted, next) = Asked-StandsFor ph w h in
      (
        admitted,
        next,
        ap (λ r. r.1.clock) (before_lem e w)
            ∙ (admit_same e (seen e w) (after_read e w)).2
            ∙ (after_read_same e w).0,
      )
  step-Refines success ph w h = (success_ok w, seen-success w, clock-success w)
  step-Refines (failure error) ph w h = (
    ap (λ r. is_ok r.0) (on_connector_failure_lem e error w),
    subst (StandsFor e (failed th cool w.clock ph)) (sym (seen-failure e st error w)) (
        StandsFor-reread (failed th cool w.clock ph)
          (after_failure e (seen e w) error (after_read e w))
          (subst
            (λ c.
              StandsFor e (failed th cool c ph) (after_failure e (seen e w) error (after_read e w)))
            (after_read_same e w).0 (failed-StandsFor ph (seen e w) error (after_read e w) h))),
    clock-failure e st error w,
  )

  -- Through any sequence of events, with a Redis that answers and in which nothing expires, the
  -- breaker of the service answers as the machine with its threshold and its cooldown does, and
  -- what it then stores stands for the phase that the machine is in.
  pub run_refines :
      (evs : List Event) (ph : Phase) (w : W e)
      → StandsFor e ph (seen e w)
      → ((run e evs w).0 ≡ (replay th cool evs w.clock ph).0)
        × StandsFor e (replay th cool evs w.clock ph).1 (seen e (run e evs w).1)
  unfolding run replay
  run_refines [] ph w h = (refl, h)
  run_refines (ev ∷ evs) ph w h =
      unfold run replay in
      let (answered, next, time) = step-Refines ev ph w h in
      let v = (happens e ev w).1 in
      let rest = run_refines evs (next_phase th cool w.clock ph ev) v next in
      subst
        (λ c.
          (((happens e ev w).0 ∷ (run e evs v).0) ≡ (
            answer th cool w.clock ph ev
            ∷ (replay th cool evs c (next_phase th cool w.clock ph ev)).0))
          × StandsFor e (replay th cool evs c (next_phase th cool w.clock ph ev)).1
              (seen e (run e evs v).1))
        time (cc (answered, rest.0), rest.1)
