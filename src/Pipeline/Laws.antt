-- ===== src/Pipeline/Laws.antt =====
-- The order of the stages, and what a stage that has finished puts on the queues.
use second_capture.Base.{
  ℕ, ◌+◌, ◌≡◌, ◌≢◌, ◌↔◌, refl, String, false, none, some, [], ◌∷◌, ◌++◌, arith,
}
use second_capture.Pipeline.{
  PipelineStage, stt, enhancer, analytics, delivery, retention, PipelineStatus, queued, done,
  failed, transition, next_stage_after, item_after, stage_order, same_stage, enqueue_stage,
  on_stage_finished, Streams, Task, stage_task, retention_task, q_enhancer, q_analytics, q_delivery,
  q_retention, enqueue_enhancer, enqueue_analytics, enqueue_delivery, enqueue_retention,
}

-- The number of stages that come before one.
abbrev pub place : PipelineStage → ℕ
place stt = 0
place enhancer = 1
place analytics = 2
place delivery = 3
place retention = 4

-- The stage after the current one stands at the next place; only the last stage has none.
next_place :
    (stage : PipelineStage)
    → ((next : PipelineStage)
        → (next_stage_after stage ≡ some next) ↔ (place next ≡ place stage + 1))
      × ((next_stage_after stage ≡ none) ↔ (stage ≡ retention))
unfolding next_stage_after item_after stage_order same_stage
next_place stage = ground arith

-- A stage advances exactly if its status is done and it is not the last: then to the stage at the
-- next place, whose status is queued; a result is not ok exactly if the status is failed.
transition_advances :
    (stage next : PipelineStage) (status : PipelineStatus)
    → (((transition stage status).next_stage ≡ some next)
        ↔ ((status ≡ done) × (place next ≡ place stage + 1)))
      × (((transition stage status).is_ok ≡ false) ↔ (status ≡ failed))
      × ((transition stage status).next_stage ≢ none
          → (transition stage status).status ≡ some queued)
unfolding transition
transition_advances stage next status =
    ground (arith, (next_place stage).0 next, (next_place stage).1)

-- The queue of the stage that follows one, which is that of retention after the last two.
abbrev pub queue_after : PipelineStage → String
queue_after stt = q_enhancer
queue_after enhancer = q_analytics
queue_after analytics = q_delivery
queue_after delivery = q_retention
queue_after retention = q_retention

abbrev pub task_after : PipelineStage → String → Task
task_after stt m = stage_task m
task_after enhancer m = stage_task m
task_after analytics m = stage_task m
task_after delivery m = retention_task "meeting" m "pipeline_done"
task_after retention m = retention_task "meeting" m "pipeline_done"

-- A stage that has finished puts exactly one task on the queues, for the same meeting, on the
-- queue of the stage that follows; after the last stage that is the last stage's own queue.
on_stage_finished_appends :
    (meeting_id : String) (stage : PipelineStage) (s : Streams)
    → on_stage_finished meeting_id stage s
      ≡ s ++ ((queue_after stage, task_after stage meeting_id) ∷ [])
unfolding on_stage_finished transition next_stage_after item_after stage_order same_stage
    enqueue_stage enqueue_retention enqueue_enhancer enqueue_analytics enqueue_delivery
on_stage_finished_appends meeting_id stt s = refl
on_stage_finished_appends meeting_id enhancer s = refl
on_stage_finished_appends meeting_id analytics s = refl
on_stage_finished_appends meeting_id delivery s = refl
on_stage_finished_appends meeting_id retention s = refl
