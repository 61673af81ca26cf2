-- ===== src/Tests/Workers.antt =====
-- The theorems on the workers and on their reading of a stream at concrete inputs.
use second_capture.Base.{ℕ, suc, String, List, some, ◌≡◌, ◌⊎◌, refl, true, none, [], ◌∷◌}
use second_capture.Base.Text.{contains}
use second_capture.Base.Errors.{ok, err, other, Op}
use second_capture.Pipeline.Retry.{Payload}
use second_capture.Pipeline.Worker.{Group, Redis}
use second_capture.Pipeline.Runs.{
  Job, round, round_of, Run, here, arrive, next, Settled, runs_lose_nothing,
}
use second_capture.Pipeline.Streams.{
  Broker, response_error, StreamTask, Entry, ensure_group, claim_stale, first_task, parse_entry,
  read_task, IsFirst, claimed, fresh, read_task_returns,
}
use second_capture.Base.Lines.{has_part}

abbrev answering : Redis
answering = record { takes_add = λ q. true; takes_ack = λ q. true }

abbrev raising : Payload → Op Group (Unit {0})
raising p g = (err (other "boom"), g)

abbrev task : Payload
task = record { attempts = none; fields = ("meeting_id", "m") ∷ [] }

abbrev one_read : Group
one_read = record { queues = record { added = []; clock = 0 }; pending = "1-0" ∷ [] }

read_lem : contains "1-0" one_read.pending ≡ true
unfolding contains
read_lem = refl

abbrev job : Job
job = record {
  handle = raising;
  queue_name = "q:enhancer";
  max_attempts = 3;
  backoff_sec = 1;
  entry = "1-0";
}

abbrev tasks : String → Payload
tasks entry = task

-- The round of a task whose handler raises, and an entry that arrives after it.
abbrev two_steps :
    Run answering tasks one_read
      (round job one_read ∷ [])
      (record (round_of answering tasks job one_read) {
        pending = "2-0" ∷ (round_of answering tasks job one_read).pending;
      })
two_steps = arrive "2-0" (next job read_lem refl here)

runs_lose_nothing_example :
    (contains "1-0" ("2-0" ∷ (round_of answering tasks job one_read).pending) ≡ true)
    ⊎ Settled answering tasks "1-0" (round job one_read ∷ [])
runs_lose_nothing_example =
    runs_lose_nothing answering tasks "1-0" one_read
      (record (round_of answering tasks job one_read) {
        pending = "2-0" ∷ (round_of answering tasks job one_read).pending;
      })
      two_steps read_lem

-- A stream with one entry that another consumer left.
abbrev one_stale : Broker
one_stale = record {
  State = ℕ;
  Payload = String;
  create_group = λ stream group s. (response_error "BUSYGROUP exists", suc s);
  claim = λ stream group consumer idle s. (ok (("1-0", some "task") ∷ []), suc s);
  read_new = λ stream group consumer block s. (ok [], suc s);
  ack = λ stream group entry s. (ok 1, s);
  json_loads = λ raw. some raw;
}

abbrev stale_task : StreamTask String
stale_task = record { stream = "q:stt"; entry_id = "1-0"; payload = "task" }

stale_read : (read_task one_stale "q:stt" "g" "c" 5000 60000 0).0 ≡ ok (some stale_task)
unfolding read_task ensure_group claim_stale first_task parse_entry has_part
stale_read = refl

read_task_returns_example :
    ((task : StreamTask String) × (entries : List Entry) × (some stale_task ≡ some task)
      × ((claimed one_stale "q:stt" "g" "c" 5000 60000 0).0 ≡ ok entries)
      × IsFirst one_stale "q:stt" entries (some stale_task))
    ⊎ ((entries : List Entry) × ((claimed one_stale "q:stt" "g" "c" 5000 60000 0).0 ≡ ok [])
        × ((fresh one_stale "q:stt" "g" "c" 5000 60000 0).0 ≡ ok entries)
        × IsFirst one_stale "q:stt" entries (some stale_task))
read_task_returns_example =
    read_task_returns one_stale "q:stt" "g" "c" 5000 60000 0 (some stale_task) stale_read
