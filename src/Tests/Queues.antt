-- ===== src/Tests/Queues.antt =====
-- The theorems on the pipeline, the retries of its tasks, the ingestion of chunks and the alert
-- relay at concrete inputs.
use second_capture.Base.{
  ℕ, zero, suc, ◌+◌, ◌*◌, ◌≡◌, ◌≢◌, ◌≤◌, ◌<◌, ◌↔◌, ◌⊎◌, refl, String, str_eq, Bool, true, false,
  Option, none, some, List, [], ◌∷◌, ◌++◌, length, arith, if◌then◌else◌,
}
use second_capture.Base.Text.{is_empty, norm}
use second_capture.Base.Dict.{lookup}
use second_capture.Base.Errors.{Outcome, ok, err}
use second_capture.Pipeline.Retry.{
  Payload, Queues, stream_dlq_name, fail_until_dlq, fail_until_dlq_ends,
}
use second_capture.Ingest.{
  Chunk, Services, Process, default_ttl_sec, is_inline, is_held, idem_key_of, result,
  ingest_audio_chunk_bytes,
}
use second_capture.Ingest.Laws.{Visit, arrives, passes, after_visits, time_in, ingest_once}
use second_capture.AlertRelay.{Environ, retry_count, channel_name, target_url, shadow_url}
use second_capture.AlertRelay.Forward.{Http, Reply, status, Relay, forward}
use second_capture.AlertRelay.Forward.Laws.{EndsAt, forward_ends}
use second_capture.AlertRelay.Webhook.{raw_body, Wrap, payload_of, targets, webhook}
use second_capture.AlertRelay.Webhook.Laws.{Accounts, webhook-Accounts}

abbrev no_tasks : Queues
no_tasks = record { added = []; clock = 0 }

fail_until_dlq_ends_example :
    let p : Payload = record { attempts = none; fields = ("meeting_id", "m") ∷ [] } in
    (r : Queues) × (fail_until_dlq (suc (3 + 1)) "q:stt" p 3 2 no_tasks ≡ some (suc 3, r))
    × (r.clock ≡ no_tasks.clock + 3 * 2)
    × ((rest : List (String × Payload)) × (r.added
          ≡ (
            stream_dlq_name "q:stt",
            record { attempts = some (3 + 1); fields = ("meeting_id", "m") ∷ [] },
          )
            ∷ rest)
        × (length rest ≡ length no_tasks.added + 3))
fail_until_dlq_ends_example = fail_until_dlq_ends 1 "q:stt" (("meeting_id", "m") ∷ []) 3 2 no_tasks

-- A blob store that fails to write, with a pipeline that returns nothing.
abbrev full_disk : Services
full_disk = record {
  Remote = Unit {0};
  Updates = Unit {0};
  set_nx = λ k ttl s. (ok true, s);
  put_bytes = λ k audio s. (err (second_capture.Base.Errors.other "disk full"), s);
  get_bytes = λ k s. (ok [], s);
  process_chunk_inline = λ c k s. (ok tt, s);
  enqueue = λ q t s. (ok tt, s);
  b64_decode = λ s. some [];
  queue_mode = "inline";
}

abbrev chunk : Chunk
chunk = record {
  meeting_id = "m";
  seq = 7;
  audio = 1 ∷ [];
  source_track = none;
  quality_profile = "balanced";
  capture_levels = [];
}

abbrev fresh_process : Process (Unit {0})
fresh_process = record { remote = tt; local_cache = []; clock = 100 }

inline_lem : is_inline full_disk ≡ true
unfolding is_inline norm
inline_lem = refl

filled_lem : is_empty "k" ≡ false
unfolding is_empty
filled_lem = refl

unseen_lem : is_held 100 (lookup (idem_key_of "ws" "m" "k") fresh_process.local_cache) ≡ false
unfolding lookup
unseen_lem = refl

-- A minute, and a chunk with another key.
abbrev between : List (Visit full_disk)
between = passes 60 ∷ arrives (record chunk { seq = 8 }) (some "j") "f3" "ws" false false ∷ []

soon_lem : time_in full_disk between < default_ttl_sec
soon_lem = omega arith

ingest_once_example :
    let p' =
      (ingest_audio_chunk_bytes full_disk chunk (some "k") "f1" "ws" false false fresh_process).1 in
    let q = after_visits full_disk between p' in
    ingest_audio_chunk_bytes full_disk chunk (some "k") "f2" "ws" false false q
    ≡ (ok (result full_disk chunk "k" true none), q)
ingest_once_example =
    ingest_once full_disk chunk chunk "k" "f1" "f2" "ws" false false false false fresh_process
      between inline_lem filled_lem refl unseen_lem soon_lem

-- A network that answers 503 once and 200 from then on, and settings with two retries.
abbrev flaky : Http
flaky = record { Json = String; Net = ℕ; post = λ url payload limit n. (flaky_reply n, suc n) }
  where
    flaky_reply : ℕ → Reply
    flaky_reply zero = status 503 "503 Server Error"
    flaky_reply (suc n) = status 200 ""

abbrev environ : Environ
environ name = if str_eq name "ALERT_RELAY_CRITICAL_TARGET_URL" then some "http://sink" else none

abbrev idle_relay : Relay ℕ
idle_relay = record { net = 0; metrics = []; clock = 0 }

forward_ends_example :
    (s : ℕ) × (k : ℕ) × EndsAt flaky environ "http://sink" "{}" "critical" "target"
      (retry_count environ)
      1
      idle_relay
      (forward flaky environ "http://sink" "{}" "critical" "target" idle_relay)
      s
      k
forward_ends_example = forward_ends flaky environ "http://sink" "{}" "critical" "target" idle_relay

abbrev wrapping : Wrap String
wrapping = record { wrap_value = λ j. j; wrap_raw = λ s. s }

webhook-Accounts_example :
    Accounts flaky environ
      (payload_of wrapping (raw_body "up"))
      (channel_name "critical")
      (targets
        (target_url environ (channel_name "critical"))
        (shadow_url environ (channel_name "critical")))
      idle_relay
      (webhook flaky environ wrapping "critical" (raw_body "up") idle_relay).0
      (webhook flaky environ wrapping "critical" (raw_body "up") idle_relay).1
webhook-Accounts_example =
    webhook-Accounts flaky environ wrapping "critical" (raw_body "up") idle_relay
