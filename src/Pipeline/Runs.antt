-- ===== src/Pipeline/Runs.antt =====
-- Any sequence of rounds by any workers of a consumer group, with entries that arrive between them
-- (`run_loop` of the workers).
use second_capture.Base.{
  ℕ, ◌≡◌, refl, sym, subst, ◌⊎◌, inl, inr, String, str_eq, eq_iff, true, false, Bool-cases, List,
  [], ◌∷◌, arith,
}
use second_capture.Base.Text.{contains}
use second_capture.Base.Errors.{other, ok, err, Op, Outcome, Outcome-cases}
use second_capture.Pipeline.Retry.{Payload}
use second_capture.Pipeline.Worker.{
  Group, Redis, without, ack_task, requeue, finish, work_round, not_finished, IsKept,
  work_round_loses_nothing,
}

-- A worker, and the entry that it has read.
pub record Job : Type 0 where
  pub handle : Payload → Op Group (Unit {0})
  pub queue_name : String
  pub max_attempts : ℕ
  pub backoff_sec : ℕ
  pub entry : String

-- A round of a worker, with the group before it.
pub data Event : Type 0 where
  round : Job → Group → Event

contains-without :
    (entry e : String) (l : List String)
    → str_eq entry e ≡ false
    → contains e l ≡ true
    → contains e (without entry l) ≡ true
unfolding contains without
contains-without entry e [] apart h = h
contains-without entry e (x ∷ l) apart h =
    ground (arith, contains-without entry e l apart, eq_iff x entry, eq_iff x e, eq_iff entry e)

-- `task_of` is the task that an entry of the stream holds.
module _ (redis : Redis) (task_of : String → Payload) where
  abbrev pub handled_by : Job → Group → Outcome (Unit {0}) × Group
  handled_by j g = j.handle (task_of j.entry) g

  abbrev pub round_of : Job → Group → Group
  round_of j g =
      work_round redis j.handle j.queue_name j.max_attempts j.backoff_sec j.entry (task_of j.entry)
        g

  -- The round was one of the entry, and its handler went through, or the entry's task, with one
  -- attempt more, came on its stream or on the dead letter stream.
  abbrev pub SettledBy : String → Event → Type 0
  SettledBy e (round j g) =
      (j.entry ≡ e)
      × (((handled_by j g).0 ≡ ok tt)
          ⊎ IsKept redis j.queue_name (task_of j.entry) (handled_by j g).1.queues
              (round_of j g).queues)

  abbrev pub Settled : String → List Event → Type 0
  Settled e [] = ⊥
  Settled e (ev ∷ evs) = SettledBy e ev ⊎ Settled e evs

  -- The runs from a group, with their events, the newest first. A round is that of an entry that
  -- is pending, by a handler that leaves the pending entries alone.
  pub data Run (g : Group) : List Event → Group → Type 0 where
    here : Run g [] g
    arrive :
        {es : List Event} {u : Group}
        → (entry : String) → Run g es u
        → Run g es (record u { pending = entry ∷ u.pending })
    next :
        {es : List Event} {u : Group}
        → (j : Job) → contains j.entry u.pending ≡ true
        → (handled_by j u).1.pending ≡ u.pending
        → Run g es u
        → Run g (round j u ∷ es) (round_of j u)

  ack_up :
      (entry : String) (g : Group)
      → redis.takes_ack g.queues ≡ true
      → ack_task redis entry g ≡ (ok tt, record g { pending = without entry g.pending })
  unfolding ack_task
  ack_up entry g up = ground arith

  ack_down :
      (entry : String) (g : Group)
      → redis.takes_ack g.queues ≡ false
      → ack_task redis entry g ≡ (err (other "redis"), g)
  unfolding ack_task
  ack_down entry g down = ground arith

  acked :
      (entry : String) (g : Group)
      → redis.takes_ack g.queues ≡ true
      → finish redis true entry g ≡ record g { pending = without entry g.pending }
  unfolding finish
  acked entry g up = ground (arith, ack_up entry g up)

  not_acked :
      (entry : String) (g : Group)
      → redis.takes_ack g.queues ≡ false
      → finish redis true entry g ≡ g
  unfolding finish
  not_acked entry g down = ground (arith, ack_down entry g down)

  finish_pending :
      (entry e : String) (g : Group)
      → str_eq entry e ≡ false
      → contains e g.pending ≡ true
      → contains e (finish redis true entry g).pending ≡ true
  finish_pending entry e g apart h = elim (Bool-cases (redis.takes_ack g.queues)) [
    | inl up ↦
        subst (λ v. contains e v.pending ≡ true) (sym (acked entry g up))
          (contains-without entry e g.pending apart h)
    | inr down ↦ subst (λ v. contains e v.pending ≡ true) (sym (not_acked entry g down)) h
  ]

  requeue_pending :
      (j : Job) (g : Group)
      → (requeue redis j.queue_name (task_of j.entry) j.max_attempts j.backoff_sec g).1.pending
        ≡ g.pending
  unfolding requeue
  requeue_pending j g = ground arith

  -- The round of another entry leaves an entry pending.
  other_pending :
      (e : String) (j : Job) (g : Group)
      → (handled_by j g).1.pending ≡ g.pending
      → str_eq j.entry e ≡ false
      → contains e g.pending ≡ true
      → contains e (round_of j g).pending ≡ true
  unfolding work_round
  other_pending e j g same apart h =
      let g' = (handled_by j g).1 in
      let (put, g'') =
        requeue redis j.queue_name (task_of j.entry) j.max_attempts j.backoff_sec g' in
      let still : contains e g''.pending ≡ true = cc (h, same, requeue_pending j g') in
      elim (Outcome-cases (handled_by j g).0) [
        | inl (u, done) ↦ ground (arith, finish_pending j.entry e g' apart (cc (h, same)))
        | inr (x, failed) ↦ elim (Outcome-cases put) [
          | inl (b, up) ↦ ground (arith, finish_pending j.entry e g'' apart still)
          | inr (y, down) ↦ ground (arith, not_finished redis j.entry g'', still)
        ]
      ]

  abbrev Stays : String → Job → Group → Type 0
  Stays e j g = (contains e (round_of j g).pending ≡ true) ⊎ SettledBy e (round j g)

  own-Stays :
      (j : Job) (g : Group)
      → (handled_by j g).1.pending ≡ g.pending
      → contains j.entry g.pending ≡ true
      → Stays j.entry j g
  own-Stays j g same h =
      elim (work_round_loses_nothing redis j.handle j.queue_name j.max_attempts j.backoff_sec
        j.entry (task_of j.entry) g h same) [
          | inl done ↦ inr (refl, inl done)
          | inr (inl again) ↦ inr (refl, inr again)
          | inr (inr still) ↦ inl still
        ]

  round_keeps :
      (e : String) (j : Job) (g : Group)
      → (handled_by j g).1.pending ≡ g.pending
      → contains e g.pending ≡ true
      → Stays e j g
  round_keeps e j g same h = elim (Bool-cases (str_eq j.entry e)) [
    | inl own ↦
        let it : j.entry ≡ e = (eq_iff j.entry e).0 own in
        subst (λ x. Stays x j g) it
          (own-Stays j g same (subst (λ x. contains x g.pending ≡ true) (sym it) h))
    | inr apart ↦ inl (other_pending e j g same apart h)
  ]

  arrived :
      (e entry : String) (l : List String) → contains e l ≡ true → contains e (entry ∷ l) ≡ true
  unfolding contains
  arrived e entry l h = ground arith

  -- Through any run of rounds and arrivals, whatever the handlers and Redis do, an entry that was
  -- pending is pending at the end, so that it is claimed again, or some round of the run was one of
  -- that entry, and in it the handler went through for the entry's task, or this task, with one
  -- attempt more, came on its stream or on the dead letter stream. A round is that of a pending
  -- entry, by a handler that leaves the pending entries alone.
  pub runs_lose_nothing :
      (e : String) (g : Group) {es : List Event} (u : Group)
      → Run g es u
      → contains e g.pending ≡ true
      → (contains e u.pending ≡ true) ⊎ Settled e es
  runs_lose_nothing e g u here h = inl h
  runs_lose_nothing e g u (arrive {u = v} entry r) h = elim (runs_lose_nothing e g v r h) [
    | inl there ↦ inl (arrived e entry v.pending there)
    | inr done ↦ inr done
  ]
  runs_lose_nothing e g u (next {es = es} {u = v} j read same r) h =
      elim (runs_lose_nothing e g v r h) [
        | inl there ↦ elim (round_keeps e j v same there) [
          | inl stays ↦ inl stays
          | inr gone ↦ inr (inl gone)
        ]
        | inr done ↦ inr (inr done)
      ]
