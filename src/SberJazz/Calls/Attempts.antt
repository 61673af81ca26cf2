-- ===== src/SberJazz/Calls/Attempts.antt =====
-- The loop over the attempts: where it stops, and with what.
use second_capture.Base.{
  ℕ, zero, suc, ◌+◌, ◌*◌, ◌≤◌, ◌<◌, ◌≡◌, ◌∙◌, inl, inr, ap, sym, true, false, not, ◌||◌, Option,
  some, arith, leb, Bool-cases,
}
use second_capture.Base.Errors.{Exc, ok, err, Outcome-cases, Op}
use second_capture.SberJazz.World.{Env}
use second_capture.SberJazz.Limits.{Retries}
use second_capture.SberJazz.Store.{W}
use second_capture.SberJazz.Calls.{
  Loop, returned, gave_up, attempt_loop, is_retryable_connector_error,
}

module _ (e : Env) {A : Type 0} (cfg : Retries) (body : ℕ → Op (W e) A) where
  abbrev loop : ℕ → ℕ → Option Exc → W e → Loop A × W e
  loop rounds attempt last w = attempt_loop e rounds cfg body attempt last w

  -- The world at the next attempt, after the sleep.
  abbrev pub slept : ℕ → W e → W e
  slept attempt w = record w { clock = w.clock + cfg.backoff * attempt }

  pub loop_returns :
      (rounds attempt : ℕ) (last : Option Exc) (w : W e) (a : A)
      → (body attempt w).0 ≡ ok a
      → loop (suc rounds) attempt last w ≡ (returned a, (body attempt w).1)
  unfolding attempt_loop
  loop_returns rounds attempt last w a h = ground arith

  pub loop_stops :
      (rounds attempt : ℕ) (last : Option Exc) (w : W e) (x : Exc)
      → (body attempt w).0 ≡ err x
      → (not (is_retryable_connector_error x) || leb cfg.attempts attempt) ≡ true
      → loop (suc rounds) attempt last w ≡ (gave_up (some x), (body attempt w).1)
  unfolding attempt_loop
  loop_stops rounds attempt last w x h stop = ground arith

  pub loop_again :
      (rounds attempt : ℕ) (last : Option Exc) (w : W e) (x : Exc)
      → (body attempt w).0 ≡ err x
      → (not (is_retryable_connector_error x) || leb cfg.attempts attempt) ≡ false
      → loop (suc rounds) attempt last w
        ≡ loop rounds (attempt + 1) (some x) (slept attempt (body attempt w).1)
  unfolding attempt_loop
  loop_again rounds attempt last w x h go = ground arith

  -- A loop that returns has done so in one of its rounds.
  pub loop_returned :
      (rounds attempt : ℕ) (last : Option Exc) (w : W e) (a : A)
      → (loop rounds attempt last w).0 ≡ returned a
      → (k : ℕ) × (v : W e) × (attempt ≤ k)
        × (k < attempt + rounds)
        × ((body k v).0 ≡ ok a)
        × ((body k v).1 ≡ (loop rounds attempt last w).1)
  loop_returned zero attempt last w a h = unfold attempt_loop in cc
  loop_returned (suc rounds) attempt last w a h = elim (Outcome-cases (body attempt w).0) [
    | inl (b, r) ↦ returns b r
    | inr (x, r) ↦
        elim (Bool-cases (not (is_retryable_connector_error x) || leb cfg.attempts attempt)) [
          | inl stop ↦ cc (ap (λ p. p.0) (loop_stops rounds attempt last w x r stop), h)
          | inr go ↦
              let again = loop_again rounds attempt last w x r go in
              let found =
                loop_returned rounds (attempt + 1) (some x) (slept attempt (body attempt w).1) a
                  (ap (λ p. p.0) (sym again) ∙ h) in
              (
                found.0,
                found.1,
                omega arith,
                omega arith,
                found.4,
                found.5 ∙ ap (λ p. p.1) (sym again),
              )
        ]
  ]
    where
      returns :
          (b : A)
          → (body attempt w).0 ≡ ok b
          → (k : ℕ) × (v : W e) × (attempt ≤ k)
            × (k < attempt + suc rounds)
            × ((body k v).0 ≡ ok a)
            × ((body k v).1 ≡ (loop (suc rounds) attempt last w).1)
      returns b r =
          let once = loop_returns rounds attempt last w b r in
          (attempt, w, omega arith, omega arith, cc (r, h, once), ap (λ p. p.1) (sym once))
