-- ===== src/AlertRelay/Forward/Laws.antt =====
-- How the forwarding of a webhook ends.
use second_capture.Base.{
  ℕ, zero, suc, ◌+◌, ◌*◌, ◌≡◌, ◌≤◌, ◌⊎◌, inl, inr, refl, String, Option, none, some, Option-cases,
  length, arith,
}
use second_capture.AlertRelay.{Environ, timeout_sec, retry_count, retry_backoff_ms}
use second_capture.AlertRelay.Forward.{
  Reply, Http, Relay, retry_reason, raised, waited, forward_loop, forward,
}

-- The sum of `k` numbers in a row, from `first` on.
abbrev pub sum_from : ℕ → ℕ → ℕ
sum_from first zero = 0
sum_from first (suc k) = first + sum_from (first + 1) k

add_one : (n : ℕ) → n + 1 ≡ suc n
add_one n = omega arith

later :
    (limit k : ℕ) (o : Option String) → (o ≡ none) ⊎ (k ≡ limit) → (o ≡ none) ⊎ (suc k ≡ suc limit)
later limit k o h = ground arith

module _ (h : Http) (env : Environ) (url : String) (payload : h.Json)
    (channel target : String) where
  -- The reply to the post from a state of the network.
  abbrev pub reply_at : h.Net → Reply
  reply_at s = (h.post url payload (timeout_sec env) s).0

  -- A run that ends after `k` retries of at most `limit`, begun at `attempt`: its last post, from
  -- the state `s`, gives its result, and no retry was open or none was left.
  abbrev pub EndsAt :
      (limit attempt : ℕ) → Relay h.Net → Option String × Relay h.Net → h.Net → ℕ → Type 0
  EndsAt limit attempt r out s k =
      (k ≤ limit)
      × (out.0 ≡ raised (reply_at s))
      × (out.1.net ≡ (h.post url payload (timeout_sec env) s).1)
      × ((retry_reason env (reply_at s) ≡ none) ⊎ (k ≡ limit))
      × (out.1.clock ≡ r.clock + retry_backoff_ms env * sum_from attempt k)
      × (length out.1.metrics ≡ length r.metrics + k)

  abbrev posted : Relay h.Net → Relay h.Net
  posted r = record r { net = (h.post url payload (timeout_sec env) r.net).1 }

  abbrev run : ℕ → ℕ → ℕ → Relay h.Net → Option String × Relay h.Net
  run rounds attempts attempt r =
      forward_loop h env rounds url payload channel target attempts attempt r

  last_round :
      (attempts attempt rounds : ℕ) (r : Relay h.Net)
      → ((retry_reason env (reply_at r.net) ≡ none) ⊎ (attempts ≤ attempt))
      → run (suc rounds) attempts attempt r ≡ (raised (reply_at r.net), posted r)
  unfolding forward_loop
  last_round attempts attempt rounds r stop = ground arith

  next_round :
      (attempts attempt rounds : ℕ) (r : Relay h.Net) (reason : String)
      → retry_reason env (reply_at r.net) ≡ some reason
      → suc attempt ≤ attempts
      → run (suc rounds) attempts attempt r
        ≡ run rounds attempts (attempt + 1) (waited h env channel target reason attempt (posted r))
  unfolding forward_loop
  next_round attempts attempt rounds r reason again left = ground arith

  loop_ends :
      (limit attempts attempt : ℕ) (r : Relay h.Net)
      → attempt + limit ≡ attempts
      → (s : h.Net) × (k : ℕ) × EndsAt limit attempt r (run (suc limit) attempts attempt r) s k
  unfolding waited
  loop_ends zero attempts attempt r e = (
    r.net,
    0,
    rw (last_round attempts attempt 0 r (inr (omega arith)))
        (omega arith, refl, refl, inr refl, omega arith, omega arith),
  )
  loop_ends (suc limit) attempts attempt r e =
      elim (Option-cases (retry_reason env (reply_at r.net))) [
        | inl stop ↦ (
          r.net,
          0,
          rw (last_round attempts attempt (suc limit) r (inl stop))
              (omega arith, refl, refl, inl stop, omega arith, omega arith),
        )
        | inr (reason, again) ↦
            let u = waited h env channel target reason attempt (posted r) in
            let (s, k, ends) = loop_ends limit attempts (attempt + 1) u (omega arith) in
            (
              s,
              suc k,
              rw (next_round attempts attempt (suc limit) r reason again (omega arith)) (
                omega (arith, ends.0),
                ends.1,
                ends.2,
                later limit k (retry_reason env (reply_at s)) ends.3,
                omega (arith, ends.4),
                omega (arith, ends.5),
              ),
            )
      ]

  -- The forwarding ends, whatever the network answers. It ends with a reply to its last post, which
  -- was not worth a retry or came after as many retries as are configured; its result is that
  -- reply's, each retry is counted, and the waits before the retries grow by the backoff.
  pub forward_ends :
      (r : Relay h.Net)
      → (s : h.Net) × (k : ℕ) × EndsAt
          (retry_count env)
          1
          r
          (forward h env url payload channel target r)
          s
          k
  unfolding forward
  forward_ends r =
      rw (add_one (retry_count env))
        (loop_ends (retry_count env) (suc (retry_count env)) 1 r (omega arith))
