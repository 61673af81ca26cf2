-- ===== src/SberJazz/Sessions/Visits.antt =====
-- The visits of a reconciliation: what its loop over the sessions does.
use second_capture.Base.{
  ℕ, suc, ◌+◌, ◌≡◌, ◌≤◌, ◌<◌, ◌-◌, ◌*◌, inl, inr, ◌⊎◌, refl, sym, subst, String, true, false, ◌&&◌,
  List, [], ◌∷◌, length, Bool-cases, arith,
}
use second_capture.Base.Errors.{Exc, Outcome, ok, err, Outcome-cases}
use second_capture.Config.{at_least}
use second_capture.SberJazz.World.{SessionState, Env}
use second_capture.SberJazz.Store.{W, is_naive_time, naive_error}
use second_capture.SberJazz.Calls.{reconnect_sberjazz_meeting}
use second_capture.SberJazz.Sessions.{
  ReconcileResult, time_of, is_stale, stale_threshold_sec, reconcile_one, reconcile_all,
}

module _ (e : Env) (arrange : List String → List String) (uuid : String → String) where
  abbrev time : ℕ → SessionState → ℕ
  time now s = time_of e arrange uuid now s

  -- The world after a reconnection of the session's meeting.
  abbrev reconnected_world : SessionState → W e → W e
  reconnected_world s w = (reconnect_sberjazz_meeting e (uuid s.meeting_id) s.meeting_id w).1

  -- The session is connected, and its last change is at least the threshold ago at `now`.
  abbrev pub IsStale : ℕ → SessionState → W e → Type 0
  IsStale now s w =
      (s.connected ≡ true)
      × (at_least 30 e.settings.sberjazz_reconcile_stale_sec * 1000000 ≤ now - time w.clock s)

  abbrev pub IsPassed : ℕ → SessionState → W e → Type 0
  IsPassed now s w =
      (s.connected ≡ false)
      ⊎ (now - time w.clock s < at_least 30 e.settings.sberjazz_reconcile_stale_sec * 1000000)

  stale_lem :
      (now : ℕ) (s : SessionState) (w : W e)
      → is_stale e arrange uuid now s w ≡ true
      → IsStale now s w
  unfolding is_stale stale_threshold_sec
  stale_lem now s w h = ground arith

  passed_lem :
      (now : ℕ) (s : SessionState) (w : W e)
      → is_stale e arrange uuid now s w ≡ false
      → IsPassed now s w
  unfolding is_stale stale_threshold_sec
  passed_lem now s w h = ground arith

  -- The visits of the sessions in their order: one that is not stale is passed by, and each stale
  -- one is reconnected, which returns or raises. The numbers count the returns and the raises.
  pub data Visits (now : ℕ) : List SessionState → ℕ → ℕ → W e → W e → Type 0 where
    ended : {w : W e} → Visits now [] 0 0 w w
    passed :
        {s : SessionState} {rest : List SessionState} {r f : ℕ} {w w' : W e}
        → IsPassed now s w
        → Visits now rest r f w w'
        → Visits now (s ∷ rest) r f w w'
    back :
        {s t : SessionState} {rest : List SessionState} {r f : ℕ} {w w' : W e}
        → IsStale now s w
        → (reconnect_sberjazz_meeting e (uuid s.meeting_id) s.meeting_id w).0 ≡ ok t
        → Visits now rest r f (reconnected_world s w) w'
        → Visits now (s ∷ rest) (suc r) f w w'
    lost :
        {s : SessionState} {rest : List SessionState} {r f : ℕ} {w w' : W e} {x : Exc}
        → IsStale now s w
        → (reconnect_sberjazz_meeting e (uuid s.meeting_id) s.meeting_id w).0 ≡ err x
        → Visits now rest r f (reconnected_world s w) w'
        → Visits now (s ∷ rest) r (suc f) w w'

  -- The counts of `acc` are those of `before` and of the visits.
  abbrev pub IsAfter :
      ℕ → List SessionState → ReconcileResult → ReconcileResult → W e → W e → Type 0
  IsAfter now states before acc w w' =
      (r f : ℕ) × Visits now states r f w w'
      × (acc.scanned ≡ before.scanned + length states)
      × (acc.stale ≡ before.stale + (r + f))
      × (acc.reconnected ≡ before.reconnected + r)
      × (acc.failed ≡ before.failed + f)

  -- What one round makes of the counts.
  abbrev after_pass : ReconcileResult → ReconcileResult
  after_pass acc = record acc { scanned = acc.scanned + 1 }

  abbrev after_back : ReconcileResult → ReconcileResult
  after_back acc = record acc {
    scanned = acc.scanned + 1;
    stale = acc.stale + 1;
    reconnected = acc.reconnected + 1;
  }

  abbrev after_loss : ReconcileResult → ReconcileResult
  after_loss acc = record acc {
    scanned = acc.scanned + 1;
    stale = acc.stale + 1;
    failed = acc.failed + 1;
  }

  -- One round raises for a time without a zone, passes the session by, or reconnects it.
  reconcile_one_cases :
      (now : ℕ) (s : SessionState) (acc : ReconcileResult) (w : W e)
      → (reconcile_one e arrange uuid now s acc w ≡ (err naive_error, w))
        ⊎ ((is_stale e arrange uuid now s w ≡ false)
            × (reconcile_one e arrange uuid now s acc w ≡ (ok (after_pass acc), w)))
        ⊎ ((t : SessionState) × (is_stale e arrange uuid now s w ≡ true)
            × ((reconnect_sberjazz_meeting e (uuid s.meeting_id) s.meeting_id w).0 ≡ ok t)
            × (reconcile_one e arrange uuid now s acc w
                ≡ (ok (after_back acc), reconnected_world s w)))
        ⊎ ((x : Exc) × (is_stale e arrange uuid now s w ≡ true)
            × ((reconnect_sberjazz_meeting e (uuid s.meeting_id) s.meeting_id w).0 ≡ err x)
            × (reconcile_one e arrange uuid now s acc w
                ≡ (ok (after_loss acc), reconnected_world s w)))
  unfolding reconcile_one
  reconcile_one_cases now s acc w =
      elim (Bool-cases (s.connected && is_naive_time e s.updated_at)) [
        | inl naive ↦ inl (rw naive refl)
        | inr dated ↦ elim (Bool-cases (is_stale e arrange uuid now s w)) [
          | inr fresh ↦ inr (inl (fresh, rw (dated, fresh) refl))
          | inl stale ↦ elim (Outcome-cases again.0) [
            | inl (t, made) ↦ inr (inr (inl (t, stale, made, rw (dated, stale, made) refl)))
            | inr (x, failed) ↦ inr (inr (inr (x, stale, failed, rw (dated, stale, failed) refl)))
          ]
        ]
      ]
    where
      again : Outcome SessionState × W e
      again = reconnect_sberjazz_meeting e (uuid s.meeting_id) s.meeting_id w

  pub reconcile_all-IsAfter :
      (now : ℕ) (states : List SessionState) (before acc : ReconcileResult) (w : W e)
      → (reconcile_all e arrange uuid now states before w).0 ≡ ok acc
      → IsAfter now states before acc w (reconcile_all e arrange uuid now states before w).1
  unfolding reconcile_all
  reconcile_all-IsAfter now [] before acc w h =
      let same : before ≡ acc = ground arith in
      (0, 0, ended, ground arith, ground arith, ground arith, ground arith)
  reconcile_all-IsAfter now (s ∷ rest) before acc w h = elim (reconcile_one_cases now s before w) [
    | inl naive ↦ absurd (ground arith)
    | inr (inl (fresh, out)) ↦
        let a =
          reconcile_all-IsAfter now rest (after_pass before) acc w
            (cc (step (after_pass before) w out, h)) in
        back_to (after_pass before) w out
          (a.0, a.1, passed (passed_lem now s w fresh) a.2, omega (arith, a.3), a.4, a.5, a.6)
    | inr (inr (inl (t, stale, again, out))) ↦
        let a =
          reconcile_all-IsAfter now rest (after_back before) acc u
            (cc (step (after_back before) u out, h)) in
        back_to (after_back before) u out (
          suc a.0,
          a.1,
          back (stale_lem now s w stale) again a.2,
          omega (arith, a.3),
          omega (arith, a.4),
          omega (arith, a.5),
          a.6,
        )
    | inr (inr (inr (x, stale, failed, out))) ↦
        let a =
          reconcile_all-IsAfter now rest (after_loss before) acc u
            (cc (step (after_loss before) u out, h)) in
        back_to (after_loss before) u out (
          a.0,
          suc a.1,
          lost (stale_lem now s w stale) failed a.2,
          omega (arith, a.3),
          omega (arith, a.4),
          a.5,
          omega (arith, a.6),
        )
  ]
    where
      u : W e
      u = reconnected_world s w

      step :
          (b : ReconcileResult) (v : W e)
          → reconcile_one e arrange uuid now s before w ≡ (ok b, v)
          → reconcile_all e arrange uuid now (s ∷ rest) before w
            ≡ reconcile_all e arrange uuid now rest b v
      step b v out = ground arith

      back_to :
          (b : ReconcileResult) (v : W e)
          → reconcile_one e arrange uuid now s before w ≡ (ok b, v)
          → IsAfter now (s ∷ rest) before acc w (reconcile_all e arrange uuid now rest b v).1
          → IsAfter now
              (s ∷ rest)
              before
              acc
              w
              (reconcile_all e arrange uuid now (s ∷ rest) before w).1
      back_to b v out =
          subst (λ (o : Outcome ReconcileResult × W e). IsAfter now (s ∷ rest) before acc w o.1)
            (sym (step b v out))

  pub reconcile_all-raises :
      (now : ℕ) (states : List SessionState) (before : ReconcileResult) (w : W e) (x : Exc)
      → (reconcile_all e arrange uuid now states before w).0 ≡ err x
      → x ≡ naive_error
  unfolding reconcile_all reconcile_one
  reconcile_all-raises now [] before w x h = absurd (ground arith)
  reconcile_all-raises now (s ∷ rest) before w x h = elim (reconcile_one_cases now s before w) [
    | inl naive ↦ ground arith
    | inr (inl (fresh, out)) ↦ ground (arith, reconcile_all-raises now rest (after_pass before) w x)
    | inr (inr (inl (t, stale, again, out))) ↦
        ground (arith, reconcile_all-raises now rest (after_back before) (reconnected_world s w) x)
    | inr (inr (inr (y, stale, failed, out))) ↦
        ground (arith, reconcile_all-raises now rest (after_loss before) (reconnected_world s w) x)
  ]
