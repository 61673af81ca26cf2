-- ===== src/SaluteJazz/Service/Bounds.antt =====
-- How many requests a join or a leave sends to the platform.
use second_capture.Base.{
  ℕ, zero, suc, ◌+◌, ◌*◌, ◌≡◌, ◌≤◌, ◌∙◌, inl, inr, ap, subst, sym, refl, String, not, ◌||◌,
  Bool-cases, Option, none, some, [], leb, arith,
}
use second_capture.Base.Errors.{Exc, Op, Outcome-cases}
use second_capture.SberJazz.World.{SessionState, Connector, Env}
use second_capture.SberJazz.Limits.{Retries, retry_config}
use second_capture.SberJazz.Store.{W}
use second_capture.SberJazz.Breaker.{on_connector_success}
use second_capture.SberJazz.Calls.{
  Call, Loop, attempt_loop, attempt_call, call_resolved, call_with_retries,
  is_retryable_connector_error, invoke, stamped, connected_after,
}
use second_capture.SberJazz.Calls.Laws.{
  Loop-cases, save_state_lem, on_connector_success_same, give_up_lem,
}
use second_capture.SberJazz.Calls.Attempts.{slept, loop_returns, loop_stops, loop_again}
use second_capture.SaluteJazz.{join, leave}
use second_capture.SaluteJazz.Laws.{net_after, net_after-add, request_sends}
use second_capture.SaluteJazz.Service.{
  as_connector, path_of, Setup, service, call_request, Sends, body, found, call_found,
}

module _ (e : Env) where
  -- One attempt calls the platform once.
  attempt_call_platform :
      (call : Call) (c : Connector e.Platform) (name meeting_id : String) (k : ℕ) (w : W e)
      → (attempt_call e call c name meeting_id k w).1.platform
        ≡ (invoke e call c meeting_id w).1.platform
  unfolding attempt_call
  attempt_call_platform call c name meeting_id k w =
      let u = (invoke e call c meeting_id w).1 in
      let v = (on_connector_success e u).1 in
      ground (
        arith,
        on_connector_success_same e u,
        save_state_lem e (stamped e meeting_id name (connected_after call) k none v) v,
      )

module _ (u : Setup) where
  invoke-Sends :
      (call : Call) (meeting_id : String) (w : W (service u))
      → Sends u call meeting_id
          (u.adapter.http_retries + 1)
          w
          (invoke (service u) call (as_connector u.http u.as_chunk u.adapter) meeting_id w).1
  unfolding join leave
  invoke-Sends Call.join meeting_id w =
      let (n, few, e) =
        request_sends u.http u.adapter "POST" (path_of Call.join meeting_id) [] w.platform in
      (n, few, ground (arith, e))
  invoke-Sends Call.leave meeting_id w =
      let (n, few, e) =
        request_sends u.http u.adapter "POST" (path_of Call.leave meeting_id) [] w.platform in
      (n, few, ground (arith, e))

  attempt-Sends :
      (call : Call) (name meeting_id : String) (k : ℕ) (w : W (service u))
      → Sends u call meeting_id
          (u.adapter.http_retries + 1)
          w
          (attempt_call
            (service u)
            call
            (as_connector u.http u.as_chunk u.adapter)
            name
            meeting_id
            k
            w).1
  attempt-Sends call name meeting_id k w =
      let (n, few, e) = invoke-Sends call meeting_id w in
      (
        n,
        few,
        ap (λ p. p.net)
              (attempt_call_platform (service u) call (as_connector u.http u.as_chunk u.adapter)
                name meeting_id k w)
            ∙ e,
      )

  -- Two runs of requests in a row.
  Sends-trans :
      (call : Call) (meeting_id : String) (m n : ℕ) (t v w : W (service u))
      → Sends u call meeting_id m t v
      → Sends u call meeting_id n v w
      → Sends u call meeting_id (m + n) t w
  Sends-trans call meeting_id m n t v w (i, few, e) (j, few', e') = (
    i + j,
    omega arith,
    e'
        ∙ ap (net_after u.http (call_request u call meeting_id) j) e
        ∙ net_after-add u.http (call_request u call meeting_id) i j t.platform.net,
  )

  Sends-weaken :
      (call : Call) (meeting_id : String) (m n : ℕ) (w v : W (service u))
      → m ≤ n
      → Sends u call meeting_id m w v
      → Sends u call meeting_id n w v
  Sends-weaken call meeting_id m n w v le (i, few, e) = (i, omega arith, e)

  -- The world at the next attempt, after the sleep.
  abbrev next : Call → String → String → Retries → ℕ → W (service u) → W (service u)
  next call name meeting_id cfg attempt w =
      slept (service u) cfg (body u call name meeting_id) attempt
        (body u call name meeting_id attempt w).1

  round-Sends :
      (call : Call) (name meeting_id : String) (cfg : Retries) (attempt : ℕ) (last : Option Exc)
      (m rounds : ℕ) (w : W (service u))
      → ((x : Exc)
          → let t = next call name meeting_id cfg attempt w in
            Sends u call meeting_id m t
              (attempt_loop
                (service u)
                rounds
                cfg
                (body u call name meeting_id)
                (attempt + 1)
                (some x)
                t).1)
      → Sends u call meeting_id
          (u.adapter.http_retries + 1 + m)
          w
          (attempt_loop (service u) (suc rounds) cfg (body u call name meeting_id) attempt last w).1
  round-Sends call name meeting_id cfg attempt last m rounds w rest =
      elim (Outcome-cases (b attempt w).0) [
        | inl (s, done) ↦
            subst Goal (sym (loop_returns (service u) cfg b rounds attempt last w s done)) once
        | inr (x, failed) ↦
            elim (Bool-cases (not (is_retryable_connector_error x) || leb cfg.attempts attempt)) [
              | inl stop ↦
                  subst Goal
                    (sym (loop_stops (service u) cfg b rounds attempt last w x failed stop)) once
              | inr go ↦
                  subst Goal (sym (loop_again (service u) cfg b rounds attempt last w x failed go))
                    (Sends-trans call meeting_id hi m w (next call name meeting_id cfg attempt w)
                      (attempt_loop (service u) rounds cfg b (attempt + 1) (some x)
                        (next call name meeting_id cfg attempt w)).1
                      first (rest x))
            ]
      ]
    where
      hi : ℕ
      hi = u.adapter.http_retries + 1

      b : ℕ → Op (W (service u)) SessionState
      b = body u call name meeting_id

      Goal : Loop SessionState × W (service u) → Type 0
      Goal p = Sends u call meeting_id (hi + m) w p.1

      first : Sends u call meeting_id hi w (b attempt w).1
      first = attempt-Sends call name meeting_id attempt w

      once : Sends u call meeting_id (hi + m) w (b attempt w).1
      once = Sends-weaken call meeting_id hi (hi + m) w (b attempt w).1 (omega arith) first

  loop-Sends :
      (call : Call) (name meeting_id : String) (cfg : Retries) (rounds attempt : ℕ)
      (last : Option Exc) (w : W (service u))
      → Sends u call meeting_id
          (rounds * (u.adapter.http_retries + 1))
          w
          (attempt_loop (service u) rounds cfg (body u call name meeting_id) attempt last w).1
  loop-Sends call name meeting_id cfg zero attempt last w =
      unfold attempt_loop in (0, omega arith, refl)
  loop-Sends call name meeting_id cfg (suc rounds) attempt last w =
      let m = rounds * (u.adapter.http_retries + 1) in
      let out =
        (attempt_loop (service u) (suc rounds) cfg (body u call name meeting_id) attempt last
          w).1 in
      Sends-weaken call meeting_id (u.adapter.http_retries + 1 + m)
        (suc rounds * (u.adapter.http_retries + 1)) w out (omega arith)
        (round-Sends call name meeting_id cfg attempt last m rounds w (λ x.
          loop-Sends call name meeting_id cfg rounds (attempt + 1) (some x)
            (next call name meeting_id cfg attempt w)))

  resolved-Sends :
      (call : Call) (meeting_id : String) (w : W (service u))
      → Sends u call meeting_id
          ((retry_config u.settings).attempts * (u.adapter.http_retries + 1))
          w
          (call_resolved (service u) call (found u) meeting_id w).1
  unfolding call_resolved
  resolved-Sends call meeting_id w =
      let cfg = retry_config u.settings in
      let (l, v) =
        attempt_loop (service u) cfg.attempts cfg (body u call "sberjazz" meeting_id) 1 none w in
      let (n, few, sent) = loop-Sends call "sberjazz" meeting_id cfg cfg.attempts 1 none w in
      (
        n,
        few,
        elim (Loop-cases l) [
          | inl (s, ret) ↦ ground (arith, sent)
          | inr (last, gave) ↦
              ground (
                arith,
                sent,
                give_up_lem (service u) call "sberjazz" meeting_id cfg.attempts last v,
              )
        ],
      )

  -- A join or a leave through the adapter ends, and the requests that it has sent to the platform are
  -- all the one of that call, at most as many as the attempts of the service times the
  -- attempts of the adapter.
  pub call_requests_bounded :
      (call : Call) (meeting_id : String) (w : W (service u))
      → u.settings.meeting_connector_provider ≡ "sberjazz"
      → Sends u call meeting_id
          ((retry_config u.settings).attempts * (u.adapter.http_retries + 1))
          w
          (call_with_retries (service u) call meeting_id w).1
  call_requests_bounded call meeting_id w real =
      subst
        (λ p.
          Sends u call meeting_id
            ((retry_config u.settings).attempts * (u.adapter.http_retries + 1)) w p.1)
        (sym (call_found u call meeting_id w real)) (resolved-Sends call meeting_id w)
