-- ===== src/Pipeline/Retry.antt =====
-- A task that fails is put back on its queue a bounded number of times, and then on the dead
-- letter queue (src/interview_analytics_agent/queue/retry.py and queue/streams.py).
use second_capture.Base.{
  ℕ, zero, suc, ◌+◌, ◌*◌, ◌≡◌, ◌∙◌, ap, ltb, String, ◌<>◌, Bool, true, false, Option, none, some,
  List, ◌∷◌, from_option, length, arith, if◌then◌else◌,
}

-- A task's payload. Only the requeueing writes `attempts`; the other fields are kept as they are.
pub record Payload : Type 0 where
  pub attempts : Option ℕ
  pub fields : List (String × String)

-- The entries added to the streams, the newest first, and the clock in seconds.
pub record Queues : Type 0 where
  pub added : List (String × Payload)
  pub clock : ℕ

unfoldable pub stream_dlq_name : String → String
stream_dlq_name stream = stream <> ":dlq"

abbrev pub add : String → Payload → Queues → Queues
add stream p q = record q { added = (stream, p) ∷ q.added }

-- The payload with one attempt more.
abbrev pub attempted : Payload → Payload
attempted p = record p { attempts = some (from_option 0 p.attempts + 1) }

-- The result is true if the task is on its queue again, and false if it is on the dead letter
-- queue. A `sleep` of no seconds takes no time.
unfoldable pub requeue_with_backoff : String → Payload → ℕ → ℕ → Queues → Bool × Queues
requeue_with_backoff queue_name p max_attempts backoff_sec q =
    let attempts = from_option 0 p.attempts + 1 in
    if ltb max_attempts attempts
    then (false, add (stream_dlq_name queue_name) (attempted p) q)
    else (true, add queue_name (attempted p) (record q { clock = q.clock + backoff_sec }))

-- A worker whose handling of one task always raises, until the task is no longer on its queue:
-- the number of rounds, and the queues. None where the fuel runs out.
unfoldable pub fail_until_dlq : ℕ → String → Payload → ℕ → ℕ → Queues → Option (ℕ × Queues)
fail_until_dlq zero queue_name p max_attempts backoff_sec q = none
fail_until_dlq (suc fuel) queue_name p max_attempts backoff_sec q =
    let (again, q') = requeue_with_backoff queue_name p max_attempts backoff_sec q in
    let rest = fail_until_dlq fuel queue_name (attempted p) max_attempts backoff_sec q' in
    if again then elim rest [ none ↦ none | some (n, r) ↦ some (suc n, r) ] else some (1, q')

-- One more round.
abbrev and_one : Option (ℕ × Queues) → Option (ℕ × Queues)
and_one none = none
and_one (some (n, r)) = some (suc n, r)

again_lem :
    (left fuel : ℕ) (queue_name : String) (p : Payload) (max_attempts backoff_sec : ℕ) (q : Queues)
    → from_option 0 p.attempts + suc left ≡ max_attempts
    → fail_until_dlq (suc fuel) queue_name p max_attempts backoff_sec q
      ≡ and_one (
          fail_until_dlq fuel queue_name
            (attempted p)
            max_attempts
            backoff_sec
            (record { added = (queue_name, attempted p) ∷ q.added; clock = q.clock + backoff_sec }))
unfolding fail_until_dlq requeue_with_backoff
again_lem left fuel queue_name p max_attempts backoff_sec q h = ground arith

more : (left fuel : ℕ) → suc left + fuel ≡ suc (left + fuel)
more left fuel = omega arith

-- With `left` attempts left, the task fails `left + 1` times.
fail_lem :
    (left fuel : ℕ) (queue_name : String) (p : Payload) (max_attempts backoff_sec : ℕ) (q : Queues)
    → from_option 0 p.attempts + left ≡ max_attempts
    → (r : Queues) × (fail_until_dlq (suc (left + fuel)) queue_name p max_attempts backoff_sec q
        ≡ some (suc left, r))
      × (r.clock ≡ q.clock + left * backoff_sec)
      × ((rest : List (String × Payload)) × (r.added
            ≡ (stream_dlq_name queue_name, record p { attempts = some (max_attempts + 1) }) ∷ rest)
          × (length rest ≡ length q.added + left))
unfolding fail_until_dlq requeue_with_backoff
fail_lem zero fuel queue_name p max_attempts backoff_sec q h =
    let r : Queues = add (stream_dlq_name queue_name) (attempted p) q in
    (r, ground arith, omega arith, (q.added, ground arith, omega arith))
fail_lem (suc left) fuel queue_name p max_attempts backoff_sec q h =
    let r : Queues = record {
      added = (queue_name, attempted p) ∷ q.added;
      clock = q.clock + backoff_sec;
    } in
    let rest =
      fail_lem left fuel queue_name (attempted p) max_attempts backoff_sec r (ground arith) in
    (
      rest.0,
      rw (more left fuel) (
          again_lem left (suc (left + fuel)) queue_name p max_attempts backoff_sec q h
          ∙ ap and_one rest.1),
      omega (arith, rest.2),
      (rest.3.0, rest.3.1, ground (arith, rest.3.2)),
    )

-- A task that was never tried and whose handling always fails is tried exactly once more than
-- `max_attempts`, and then stands on the dead letter queue, with its fields and with the number of
-- its attempts; the queue got one entry for each attempt but the last, and each of them was
-- preceded by the backoff. Fuel for one round more than `max_attempts` is enough.
pub fail_until_dlq_ends :
    (fuel : ℕ) (queue_name : String) (fields : List (String × String))
    (max_attempts backoff_sec : ℕ) (q : Queues)
    → let p : Payload = record { attempts = none; fields = fields } in
      (r : Queues) × (fail_until_dlq
          (suc (max_attempts + fuel))
          queue_name
          p
          max_attempts
          backoff_sec
          q
        ≡ some (suc max_attempts, r))
      × (r.clock ≡ q.clock + max_attempts * backoff_sec)
      × ((rest : List (String × Payload)) × (r.added
            ≡ (
              stream_dlq_name queue_name,
              record { attempts = some (max_attempts + 1); fields = fields },
            )
              ∷ rest)
          × (length rest ≡ length q.added + max_attempts))
fail_until_dlq_ends fuel queue_name fields max_attempts backoff_sec q =
    fail_lem max_attempts fuel queue_name (record { attempts = none; fields = fields }) max_attempts
      backoff_sec q (omega arith)
