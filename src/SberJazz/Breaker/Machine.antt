-- ===== src/SberJazz/Breaker/Machine.antt =====
-- The breaker as a machine with three phases, and the breaker of the service, in memory and in
-- Redis, as an implementation of it.
pub mod Laws
use second_capture.Base.{
  ℕ, zero, suc, ◌+◌, ◌-◌, ◌*◌, ◌/◌, ◌≤◌, ◌<◌, ◌≡◌, ◌∙◌, ap, sym, subst, refl, ◌⊎◌, inl, inr, max,
  String, str_eq, eq_iff, eq_refl, Bool, true, false, not, ◌&&◌, ◌||◌, ◌==◌, ltb, leb, Bool-cases,
  Option, none, some, List, [], ◌∷◌, arith, if◌then◌else◌,
}
use second_capture.Base.Text.{is_empty, text_or}
use second_capture.Base.Errors.{ok, is_ok, Outcome-cases}
use second_capture.SberJazz.World.{BreakerState, Env}
use second_capture.SberJazz.RedisLaws.{IsStore, IsIso}
use second_capture.SberJazz.Payloads.RoundTrip.{drop_empty}
use second_capture.SberJazz.Limits.{cb_failure_threshold, cb_open_sec}
use second_capture.SberJazz.Store.{W, parse_dt, age_sec}
use second_capture.SberJazz.Breaker.{
  circuit_breaker_key, after_failure, admit, half_opened, load_cb_state_redis, opened_time,
  on_connector_failure, on_connector_success, close_unless_clean, before_connector_call,
  default_cb_state, breaker_in_memory,
}
use second_capture.SberJazz.Breaker.Laws.{
  admit_same, read_lem, save_lem, seen, after_read, after_read_same, saved, saved_same, before_lem,
  on_connector_failure_lem, failures_lem,
}
use second_capture.SberJazz.Calls.Laws.{on_connector_success_same}
use second_capture.SberJazz.Breaker.Trips.{
  clock-failure, reread, seen-saved, seen-after_read, seen-failure, on_connector_success_lem,
  on_connector_success_closes,
}

-- The phases, with the failures in a row and the time of opening in microseconds.
pub data Phase : Type 0 where
  shut : ℕ → Phase
  tripped : ℕ → ℕ → Phase
  trying : ℕ → Phase

-- What happens to the breaker: time passes, a call asks for admission, a call succeeds or fails.
pub data Event : Type 0 where
  wait : ℕ → Event
  call : Event
  success : Event
  failure : Option String → Event

-- The machine, with its threshold and its cooldown in seconds: what the event is answered, and
-- the phase and the time after it.
module _ (threshold cooldown : ℕ) where
  unfoldable pub failed : ℕ → Phase → Phase
  failed now (shut n) = if leb threshold (suc n) then tripped (suc n) now else shut (suc n)
  failed now (tripped n t) = if leb threshold (suc n) then tripped (suc n) now else shut (suc n)
  failed now (trying n) = tripped (suc n) now

  unfoldable pub is_admitted : ℕ → Phase → Bool
  is_admitted now (shut n) = true
  is_admitted now (trying n) = true
  is_admitted now (tripped n t) = leb cooldown ((now - t) / 1000000)

  unfoldable pub asked : ℕ → Phase → Phase
  unfolding is_admitted
  asked now (shut n) = shut n
  asked now (trying n) = trying n
  asked now (tripped n t) = if is_admitted now (tripped n t) then trying n else tripped n t

  abbrev pub next_phase : ℕ → Phase → Event → Phase
  next_phase now ph (wait d) = ph
  next_phase now ph call = asked now ph
  next_phase now ph success = shut 0
  next_phase now ph (failure error) = failed now ph

  abbrev pub answer : ℕ → Phase → Event → Bool
  answer now ph (wait d) = true
  answer now ph call = is_admitted now ph
  answer now ph success = true
  answer now ph (failure error) = true

  abbrev pub next_time : ℕ → Event → ℕ
  next_time now (wait d) = now + d
  next_time now call = now
  next_time now success = now
  next_time now (failure error) = now

  unfoldable pub replay : List Event → ℕ → Phase → List Bool × Phase
  replay [] now ph = ([], ph)
  replay (ev ∷ evs) now ph =
      let (answers, last) = replay evs (next_time now ev) (next_phase now ph ev) in
      (answer now ph ev ∷ answers, last)

-- The same events at the breaker of the service.
module _ (e : Env) where
  abbrev pub happens : Event → W e → Bool × W e
  happens (wait d) w = (true, record w { clock = w.clock + d })
  happens call w = let (r, v) = before_connector_call e w in (is_ok r, v)
  happens success w = let (r, v) = on_connector_success e w in (is_ok r, v)
  happens (failure error) w = let (r, v) = on_connector_failure e error w in (is_ok r, v)

  unfoldable pub run : List Event → W e → List Bool × W e
  run [] w = ([], w)
  run (ev ∷ evs) w =
      let (b, v) = happens ev w in let (answers, last) = run evs v in (b ∷ answers, last)

  -- A stored state stands for a phase.
  abbrev pub StandsFor : Phase → BreakerState → Type 0
  StandsFor (shut n) b = (b.state ≡ "closed") × (b.consecutive_failures ≡ n)
  StandsFor (tripped n t) b =
      (b.state ≡ "open") × (b.consecutive_failures ≡ n) × (b.opened_at ≡ some (e.iso t))
  StandsFor (trying n) b = (b.state ≡ "half_open") × (b.consecutive_failures ≡ n)
