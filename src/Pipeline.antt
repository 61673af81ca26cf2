-- ===== src/Pipeline.antt =====
-- The processing pipeline: its stages, the queues between them, the requeueing of a task that
-- failed (src/interview_analytics_agent/domain/enums.py, domain/state_machine.py,
-- services/pipeline_service.py, queue/dispatcher.py and queue/retry.py).
pub mod Streams
pub mod Laws
pub mod Retry
pub mod Worker
pub mod Runs
use second_capture.Base.{
  ℕ, zero, suc, ◌+◌, ltb, String, ◌<>◌, str_eq, Bool, true, false, not, Option, none, some, List,
  [], ◌∷◌, ◌++◌, ◌==◌, length, if◌then◌else◌,
}
use second_capture.Base.Text.{is_empty, norm}

pub data PipelineStage : Type 0 where
  stt enhancer analytics delivery retention : PipelineStage

pub data PipelineStatus : Type 0 where
  queued processing done failed : PipelineStatus

pub record TransitionResult : Type 0 where
  pub is_ok : Bool
  pub next_stage : Option PipelineStage
  pub status : Option PipelineStatus
  pub reason : Option String

unfoldable pub stage_order : List PipelineStage
stage_order = stt ∷ enhancer ∷ analytics ∷ delivery ∷ retention ∷ []

unfoldable pub same_stage : PipelineStage → PipelineStage → Bool
same_stage stt stt = true
same_stage enhancer enhancer = true
same_stage analytics analytics = true
same_stage delivery delivery = true
same_stage retention retention = true
same_stage _ _ = false

-- The item after the first one that is the stage; none where there is no such item.
unfoldable pub item_after : PipelineStage → List PipelineStage → Option PipelineStage
item_after current [] = none
item_after current (x ∷ []) = none
item_after current (x ∷ y ∷ rest) =
    let later = item_after current (y ∷ rest) in if same_stage x current then some y else later

unfoldable pub next_stage_after : PipelineStage → Option PipelineStage
next_stage_after current = item_after current stage_order

unfoldable pub transition : PipelineStage → PipelineStatus → TransitionResult
transition stage failed = record {
  is_ok = false;
  next_stage = none;
  status = some failed;
  reason = some "stage_failed";
}
transition stage queued = record {
  is_ok = true;
  next_stage = none;
  status = some queued;
  reason = none;
}
transition stage processing = record {
  is_ok = true;
  next_stage = none;
  status = some processing;
  reason = none;
}
transition stage done = elim (next_stage_after stage) [
  | none ↦ record { is_ok = true; next_stage = none; status = some done; reason = none }
  | some next ↦ record { is_ok = true; next_stage = some next; status = some queued; reason = none }
]

-- A task of a queue: the fields that tell the stages' tasks apart. The event id, the time and the
-- trace context, which no stage decides on, are left out.
pub data Task : Type 0 where
  stt_task : (meeting_id : String) → (chunk_seq : ℕ) → (blob_key : String) → Task
  stage_task : (meeting_id : String) → Task
  retention_task : (entity_type : String) → (entity_id : String) → (reason : String) → Task

-- `XADD`s in the order of the calls, each with the name of its stream.
abbrev pub Streams : Type 0
Streams = List (String × Task)

abbrev pub q_stt : String
q_stt = "q:stt"

abbrev pub q_enhancer : String
q_enhancer = "q:enhancer"

abbrev pub q_analytics : String
q_analytics = "q:analytics"

abbrev pub q_delivery : String
q_delivery = "q:delivery"

abbrev pub q_retention : String
q_retention = "q:retention"

abbrev pub enqueue : String → Task → Streams → Streams
enqueue queue task streams = streams ++ ((queue, task) ∷ [])

unfoldable pub enqueue_enhancer : String → Streams → Streams
enqueue_enhancer meeting_id = enqueue q_enhancer (stage_task meeting_id)

unfoldable pub enqueue_analytics : String → Streams → Streams
enqueue_analytics meeting_id = enqueue q_analytics (stage_task meeting_id)

unfoldable pub enqueue_delivery : String → Streams → Streams
enqueue_delivery meeting_id = enqueue q_delivery (stage_task meeting_id)

unfoldable pub enqueue_retention : String → String → String → Streams → Streams
enqueue_retention entity_type entity_id reason =
    enqueue q_retention (retention_task entity_type entity_id reason)

-- The `if` chain on the next stage; `stt` is next of nothing and has no branch.
unfoldable pub enqueue_stage : PipelineStage → String → Streams → Streams
unfolding enqueue_enhancer enqueue_analytics enqueue_delivery enqueue_retention
enqueue_stage stt meeting_id s = s
enqueue_stage enhancer meeting_id s = enqueue_enhancer meeting_id s
enqueue_stage analytics meeting_id s = enqueue_analytics meeting_id s
enqueue_stage delivery meeting_id s = enqueue_delivery meeting_id s
enqueue_stage retention meeting_id s = enqueue_retention "meeting" meeting_id "pipeline_done" s

unfoldable pub on_stage_finished : String → PipelineStage → Streams → Streams
unfolding transition next_stage_after item_after stage_order same_stage enqueue_stage
    enqueue_retention
on_stage_finished meeting_id stage s = elim (transition stage done).next_stage [
  | none ↦ enqueue_retention "meeting" meeting_id "pipeline_done" s
  | some next ↦ enqueue_stage next meeting_id s
]
