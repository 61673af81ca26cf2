-- ===== src/AlertRelay/Forward.antt =====
-- One webhook to one address, with retries (`_forward` of src/apps/alert_relay/main.py).
pub mod Laws
use second_capture.Base.{
  ℕ, zero, suc, ◌+◌, ◌*◌, String, ◌<>◌, Bool, true, false, ◌&&◌, ◌||◌, ◌==◌, ltb, leb, Option, none,
  some, is_some, List, [], ◌∷◌, if◌then◌else◌,
}
use second_capture.Base.Text.{show_nat}
use second_capture.Config.{ℤ, pos, negsuc}
use second_capture.AlertRelay.{Environ, timeout_sec, retry_count, retry_backoff_ms, retry_statuses}

-- What `requests.post` gives: a response with its status and with the text that
-- `raise_for_status` raises for it, or an exception with its text.
pub data Reply : Type 0 where
  status : ℕ → String → Reply
  timeout : String → Reply
  connection_error : String → Reply
  crash : String → Reply

-- The HTTP client over the state of the network, and the JSON that it sends.
pub record Http : Type 1 where
  pub Json : Type 0
  pub Net : Type 0
  pub post : String → Json → ℕ → Net → Reply × Net

-- The counters' increments.
pub data Metric : Type 0 where
  retried : (channel target reason : String) → Metric
  forwarded : (channel target : String) → Bool → Metric

-- The process: the network, the counters' increments, the newest first, and the clock in
-- milliseconds. The histogram of latencies, which nothing reads, is left out.
pub record Relay (N : Type 0) : Type 0 where
  pub net : N
  pub metrics : List Metric
  pub clock : ℕ

abbrev pub has_status : ℕ → List ℤ → Bool
has_status n [] = false
has_status n (pos k ∷ rest) = n == k || has_status n rest
has_status n (negsuc k ∷ rest) = has_status n rest

-- The reason for which a reply is worth a retry.
unfoldable pub retry_reason : Environ → Reply → Option String
retry_reason env (status n m) =
    if leb 400 n && has_status n (retry_statuses env) then some ("http_" <> show_nat n) else none
retry_reason env (timeout m) = some "timeout"
retry_reason env (connection_error m) = some "connection_error"
retry_reason env (crash m) = none

-- How a reply ends the loop: the text of the exception, or none. `raise_for_status` raises from
-- 400 to 599.
unfoldable pub raised : Reply → Option String
raised (status n m) = if leb 400 n && ltb n 600 then some m else none
raised (timeout m) = some m
raised (connection_error m) = some m
raised (crash m) = some m

module _ (h : Http) (env : Environ) where
  -- The process after a retry has been counted and waited for.
  unfoldable pub waited : String → String → String → ℕ → Relay h.Net → Relay h.Net
  waited channel target reason attempt r = record r {
    metrics = retried channel target reason ∷ r.metrics;
    clock = r.clock + retry_backoff_ms env * attempt;
  }

  -- `for attempt in range(1, attempts + 1)`; the first argument counts the rounds left.
  unfoldable pub forward_loop :
      ℕ
      → (url : String) → h.Json
      → (channel target : String) → (attempts attempt : ℕ) → Relay h.Net
      → Option String × Relay h.Net
  forward_loop zero url payload channel target attempts attempt r = (none, r)
  forward_loop (suc rounds) url payload channel target attempts attempt r =
      let (reply, s) = h.post url payload (timeout_sec env) r.net in
      let r' = record r { net = s } in
      elim (retry_reason env reply) [
        | none ↦ (raised reply, r')
        | some reason ↦
            let again =
              forward_loop rounds url payload channel target attempts (attempt + 1)
                (waited channel target reason attempt r') in
            if ltb attempt attempts then again else (raised reply, r')
      ]

  unfoldable pub forward :
      (url : String)
      → h.Json
      → (channel target : String) → Relay h.Net
      → Option String × Relay h.Net
  forward url payload channel target r =
      let attempts = retry_count env + 1 in
      forward_loop attempts url payload channel target attempts 1 r
