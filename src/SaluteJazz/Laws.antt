-- ===== src/SaluteJazz/Laws.antt =====
-- How a request to the meeting platform ends.
use second_capture.Base.{
  ℕ, zero, suc, ◌+◌, ◌*◌, ◌≡◌, ◌≤◌, ◌⊎◌, inl, inr, refl, String, true, false, Bool-cases, List,
  arith,
}
use second_capture.Base.Text.{is_empty}
use second_capture.Base.Errors.{provider, connector_auth_error, Outcome, err}
use second_capture.SberJazz.World.{Field}
use second_capture.AlertRelay.Forward.Laws.{sum_from}
use second_capture.SaluteJazz.{
  Http, Adapter, Document, Reply, response, Body, Request, Line, is_refusal, is_retried, settle,
  request_of, request_loop, request, is_success,
}

pub add_one : (n : ℕ) → n + 1 ≡ suc n
add_one n = omega arith

zero_add : (n : ℕ) → 0 + n ≡ n
zero_add n = omega arith

suc_add : (k n : ℕ) → suc k + n ≡ suc (k + n)
suc_add k n = omega arith

module _ (h : Http) (q : Request) where
  -- The reply to the request from a state of the network.
  abbrev pub reply_at : h.Net → Reply h.Item
  reply_at s = (h.request q s).0

  -- The state of the network after a number of requests, each answered and sent again.
  abbrev pub net_after : ℕ → h.Net → h.Net
  net_after zero s = s
  net_after (suc k) s = net_after k (h.request q s).1

  pub net_after-add : (k n : ℕ) (s : h.Net) → net_after n (net_after k s) ≡ net_after (k + n) s
  net_after-add zero n s = rw (zero_add n) refl
  net_after-add (suc k) n s = rw (suc_add k n) (net_after-add k n (h.request q s).1)

module _ (h : Http) (a : Adapter) (q : Request) where
  -- A run that ends after `k` retries of at most `limit`, begun at `attempt`.
  abbrev pub EndsAt :
      (limit attempt : ℕ) → Line h.Net → Outcome (Document h.Item) × Line h.Net → ℕ → Type 0
  EndsAt limit attempt l out k =
      (k ≤ limit)
      × (out.0 ≡ settle (reply_at h q (net_after h q k l.net)))
      × (out.1.net ≡ net_after h q (suc k) l.net)
      × ((is_retried a.http_retry_statuses (reply_at h q (net_after h q k l.net)) ≡ false)
          ⊎ (k ≡ limit))
      × (out.1.clock ≡ l.clock + a.http_retry_backoff_ms * sum_from attempt k)

  loop_ends :
      (limit attempts attempt : ℕ) (l : Line h.Net)
      → attempt + limit ≡ attempts
      → (k : ℕ) × EndsAt limit attempt l (request_loop h a (suc limit) q attempts attempt l) k
  unfolding request_loop
  loop_ends zero attempts attempt l e =
      (0, (omega arith, ground arith, ground arith, inr refl, ground arith))
  loop_ends (suc limit) attempts attempt l e =
      elim (Bool-cases (is_retried a.http_retry_statuses (reply_at h q l.net))) [
        | inr stop ↦ (0, (omega arith, ground arith, ground arith, inl stop, ground arith))
        | inl again ↦
            let l' : Line h.Net = record {
              net = (h.request q l.net).1;
              clock = l.clock + a.http_retry_backoff_ms * attempt;
            } in
            let (k, ends) = loop_ends limit attempts (attempt + 1) l' (omega arith) in
            (
              suc k,
              (
                omega (arith, ends.0),
                ground (arith, ends.1),
                ground (arith, ends.2),
                ground (arith, ends.3),
                ground (arith, ends.4),
              ),
            )
      ]

  -- The rounds of the loop are one more than the retries, and the number of the first is 1.
  pub request_loop_ends :
      (l : Line h.Net)
      → (k : ℕ) × EndsAt a.http_retries 1 l
          (request_loop h a (a.http_retries + 1) q (a.http_retries + 1) 1 l)
          k
  request_loop_ends l =
      rw (add_one a.http_retries) (loop_ends a.http_retries (suc a.http_retries) 1 l (omega arith))

  -- A reply that refuses the access ends the loop.
  pub refused_loop :
      (rounds attempts : ℕ) (l : Line h.Net) (n : ℕ) (b : Body h.Item)
      → reply_at h q l.net ≡ response n b
      → is_refusal n ≡ true
      → request_loop h a (suc rounds) q attempts 1 l ≡ (
        err (provider connector_auth_error "Ошибка авторизации SberJazz API"),
        record l { net = net_after h q 1 l.net },
      )
  unfolding request_loop is_retried settle is_refusal is_success
  refused_loop rounds attempts l n b r refused = ground arith

module _ (h : Http) (a : Adapter) (verb path : String) (params : List (String × Field)) where
  -- Where the address of the platform is configured, a request ends, whatever the network answers:
  -- after at most the configured number of retries, with the result that the last reply gives,
  -- which was not to be retried or came after all the retries; it was sent once more than it was
  -- retried, and the waits before the retries grow by the backoff.
  pub request_ends :
      (l : Line h.Net)
      → is_empty a.base_url ≡ false
      → (k : ℕ) × EndsAt h a
          (request_of h a verb path params)
          a.http_retries
          1
          l
          (request h a verb path params l)
          k
  unfolding request
  request_ends l set = rw set (request_loop_ends h a (request_of h a verb path params) l)

  -- The number of requests that are sent, with an address or without one.
  pub request_sends :
      (l : Line h.Net)
      → (n : ℕ) × (n ≤ a.http_retries + 1)
        × ((request h a verb path params l).1.net
            ≡ net_after h (request_of h a verb path params) n l.net)
  unfolding request
  request_sends l = elim (Bool-cases (is_empty a.base_url)) [
    | inl unset ↦ (0, omega arith, ground arith)
    | inr set ↦ let (k, ends) = request_ends l set in (suc k, omega (arith, ends.0), ends.2)
  ]
