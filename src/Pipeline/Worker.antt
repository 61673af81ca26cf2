-- ===== src/Pipeline/Worker.antt =====
-- One round of a worker's loop: the handling of a task that was read, its requeueing where the
-- handling raises, and the acknowledgement (`run_loop` of src/apps/worker_enhancer/main.py, whose
-- frame the other workers share, and src/interview_analytics_agent/queue/streams.py).
use second_capture.Base.{
  ℕ, ◌≡◌, ◌⊎◌, inl, inr, refl, String, str_eq, Bool, true, false, Bool-cases, List, [], ◌∷◌, arith,
  if◌then◌else◌,
}
use second_capture.Base.Text.{contains}
use second_capture.Base.Errors.{other, ok, err, Op, catch, pure, Outcome-cases}
use second_capture.Pipeline.Retry.{
  Payload, Queues, attempted, stream_dlq_name, requeue_with_backoff,
}

-- The streams, and the entries of the group that were read and not acknowledged.
pub record Group : Type 0 where
  pub queues : Queues
  pub pending : List String

unfoldable pub without : String → List String → List String
without entry [] = []
without entry (x ∷ rest) =
    let others = without entry rest in if str_eq x entry then others else x ∷ others

-- Whether Redis takes an `XADD` and an `XACK`, given the state of the streams.
pub record Redis : Type 0 where
  pub takes_add : Queues → Bool
  pub takes_ack : Queues → Bool

module _ (redis : Redis) where
  unfoldable pub ack_task : String → Op Group (Unit {0})
  ack_task entry g =
      if redis.takes_ack g.queues
      then (ok tt, record g { pending = without entry g.pending })
      else (err (other "redis"), g)

  unfoldable pub requeue : String → Payload → ℕ → ℕ → Op Group Bool
  requeue queue_name p max_attempts backoff_sec g =
      let (again, q) = requeue_with_backoff queue_name p max_attempts backoff_sec g.queues in
      if redis.takes_add g.queues
      then (ok again, record g { queues = q })
      else (err (other "redis"), g)

  -- `finally: if should_ack`, where a failure to acknowledge is suppressed.
  unfoldable pub finish : Bool → String → Group → Group
  finish should_ack entry g = if should_ack then (catch (ack_task entry) (λ _. pure tt) g).1 else g

  -- `handle` is the body of the `try`.
  unfoldable pub work_round :
      (Payload → Op Group (Unit {0})) → String → ℕ → ℕ → String → Payload → Group → Group
  work_round handle queue_name max_attempts backoff_sec entry p g =
      let (done, g') = handle p g in
      elim done [
        | ok _ ↦ finish true entry g'
        | err _ ↦
            let (requeued, g'') = requeue queue_name p max_attempts backoff_sec g' in
            elim requeued [ ok _ ↦ finish true entry g'' | err _ ↦ finish false entry g'' ]
      ]

  ack_queues : (entry : String) (g : Group) → (ack_task entry g).1.queues ≡ g.queues
  unfolding ack_task
  ack_queues entry g = ground arith

  finish_queues : (b : Bool) (entry : String) (g : Group) → (finish b entry g).queues ≡ g.queues
  unfolding finish
  finish_queues true entry g = ground (arith, ack_queues entry g)
  finish_queues false entry g = refl

  pub not_finished : (entry : String) (g : Group) → finish false entry g ≡ g
  unfolding finish
  not_finished entry g = refl

  -- The streams are those before with one entry more: the task, with one attempt more, on its
  -- stream or on the dead letter stream.
  abbrev pub IsKept : String → Payload → (before after : Queues) → Type 0
  IsKept queue_name p before after =
      (after.added ≡ (queue_name, attempted p) ∷ before.added)
      ⊎ (after.added ≡ (stream_dlq_name queue_name, attempted p) ∷ before.added)

  requeue-IsKept :
      (queue_name : String) (p : Payload) (max_attempts backoff_sec : ℕ) (q : Queues)
      → IsKept queue_name p q (requeue_with_backoff queue_name p max_attempts backoff_sec q).1
  unfolding requeue_with_backoff
  requeue-IsKept queue_name p max_attempts backoff_sec q = ground arith

  -- A round loses no task, whatever the handler and Redis do, for a handler that leaves the group's
  -- pending entries alone: the handling went through, or the task is on its queue again or on the
  -- dead letter queue, or its entry is pending, so that it is claimed again.
  pub work_round_loses_nothing :
      (handle : Payload → Op Group (Unit {0})) (queue_name : String) (max_attempts backoff_sec : ℕ)
      (entry : String) (p : Payload) (g : Group)
      → contains entry g.pending ≡ true
      → (handle p g).1.pending ≡ g.pending
      → let out = work_round handle queue_name max_attempts backoff_sec entry p g in
        ((handle p g).0 ≡ ok tt)
        ⊎ (IsKept queue_name p (handle p g).1.queues out.queues
            ⊎ (contains entry out.pending ≡ true))
  unfolding work_round requeue
  work_round_loses_nothing handle queue_name max_attempts backoff_sec entry p g read same =
      elim (Outcome-cases (handle p g).0) [
        | inl (u, done) ↦ inl done
        | inr (x, failed) ↦ elim (Bool-cases (redis.takes_add (handle p g).1.queues)) [
          | inr down ↦ inr (inr (ground (arith, not_finished entry (handle p g).1)))
          | inl up ↦
              let kept =
                requeue-IsKept queue_name p max_attempts backoff_sec (handle p g).1.queues in
              let same_queues = finish_queues true entry (record (handle p g).1 {
                queues =
                    (requeue_with_backoff queue_name p max_attempts backoff_sec
                      (handle p g).1.queues).1;
              }) in
              inr (inl (ground (arith, kept, same_queues)))
        ]
      ]
