-- ===== src/Lib.antt =====
-- Verification of the interview analytics agent: its connector service with the adapter of the
-- platform, authentication, readiness checks, pipeline, chunk ingestion, file storage, local
-- pipeline, transcript processing, interview reports and alert relay. Paths are from the
-- repository's root, and `agent/` stands for `src/interview_analytics_agent/`.
--
-- How the parts work together. A service starts through `enforce_startup_readiness`. A request to
-- the gateway passes a dependency of `apps/api_gateway/deps.py`, which calls `require_auth` and
-- writes the audit trail, and a meeting is then guarded by its tenant. The connector service joins
-- and leaves meetings on the platform under a lock in Redis, with retries and a circuit breaker.
-- Audio chunks, from the gateway and from the connector, go through the ingestion, which drops
-- duplicates, to the first queue of the pipeline; a task that fails is put on its queue again and
-- at last on the dead letter queue. The local pipeline does the same work in one process: a chunk
-- becomes a segment, the speaker rules and the cleanup go over the segments of its meeting, and
-- from the assembled transcript come structured rows and a report. The alert relay is a service of
-- its own.
--
-- Files and code.
--   Base         Boolean tests, lists, texts (strip, lower, split, lines, words), dictionaries;
--                Base.Errors is `agent/common/errors.py` and the type `Op` of code that changes a
--                state and may raise: the state comes back also where an exception does.
--   Config       the settings of `agent/common/config.py` that the parts read.
--   SberJazz     `agent/services/sberjazz_service.py`. World: `_SESSIONS`, `_CIRCUIT_BREAKER`, the
--                clock, and Redis and the platform as parameters; Payloads: the JSON in Redis;
--                Limits: the bounded settings and `_resolve_connector`; Store: `_save_state` and
--                `get_sberjazz_meeting_state`; Breaker: `_before_connector_call`,
--                `_on_connector_success`, `_on_connector_failure`, and Breaker.Machine the abstract
--                machine of three phases that it is to be; Lock: `_meeting_operation_lock`;
--                Calls: `_join_sberjazz_meeting_impl`, `_leave_sberjazz_meeting_impl`, reconnecting;
--                Sessions: `list_sberjazz_sessions`, `reconcile_sberjazz_sessions` and the health
--                check; Live: `_parse_live_pull_payload` (Chunks), `_pull_live_for_meeting` and
--                `pull_sberjazz_live_chunks` (Pull); Job: `agent/jobs/reconciliation_job.py`.
--   SaluteJazz   `agent/connectors/salutejazz/adapter.py`: `_request` and the operations;
--                Service: the adapter as the connector of SberJazz.
--   Storage      Records: the numbers and names in `agent/storage/records.py`; Blob:
--                `agent/storage/blob.py`; Blob.Laws: where a key leads; Blob.Whole: a put.
--   Auth         Claims and Security: `agent/common/security.py`; Deps: `apps/api_gateway/deps.py`
--                and the writing of `agent/services/security_audit_service.py`; Tenancy:
--                `apps/api_gateway/tenancy.py`.
--   Readiness    `agent/services/readiness_service.py`.
--   Pipeline     `agent/domain/state_machine.py`, `agent/services/pipeline_service.py` and the
--                queues of `agent/queue/dispatcher.py`; Retry: `agent/queue/retry.py`; Streams:
--                `agent/queue/streams.py`; Worker: one round of `run_loop` of
--                `apps/worker_enhancer/main.py`, with the acknowledgement; Runs: any sequence of
--                rounds and of new entries, as a relation.
--   Ingest       `agent/services/chunk_ingest_service.py` and `agent/queue/idempotency.py`.
--   AlertRelay   `apps/alert_relay/main.py`: settings, Forward (`_forward`), Webhook (`webhook`).
--   LocalPipeline  `agent/services/local_pipeline.py`. Labels and Locked: speakers from the audio
--                track; Tail: `_extract_missing_tail`; Table: the segments in
--                `agent/storage/repositories.py`; Chunks: `process_chunk_inline`; Passes: the
--                transcription in high quality, the recovery from a recording, the final pass.
--   Transcript   Speakers: `agent/processing/speaker_rules.py`; Enhance: `enhancer.py` and `pii.py`
--                there; Assembly: `aggregation.py` and `quality.py`; Structured: `structured.py`.
--   Report       `agent/processing/analytics.py`. Json: the reading of what a model answers;
--                Quality: statistics of a transcript; Scores: the scorecard; Build: `build_report`.
--   WordErrors   `agent/processing/wer.py` from the lists of words on; Edits: what it is to count.
--   Tests        concrete runs, and each theorem at a concrete input.
--
-- Times and numbers. A clock is a number: microseconds in SberJazz, milliseconds in AlertRelay,
-- seconds in Ingest and Pipeline; a sleep moves it on, and nothing else does. The `TypeError` of
-- SberJazz that a time without a zone causes is an exception of the model too. Settings are whole
-- numbers, negative ones too, and are used within the bounds that the code puts on them. Scores of
-- a report are in hundredths and the confidence of a row in tenths, since each is a quotient or a
-- constant of so many digits; other floating point numbers are a parameter.
--
-- Loops. `for attempt in range(...)` is recursion on the number of rounds left. `fail_until_dlq`
-- has fuel, with the theorem that one round more than the maximal number of attempts is enough.
--
-- Parameters. Redis, the platform's connector, the order of a set, fresh tokens, ISO time stamps,
-- PyJWT and OIDC discovery, the blob store of the ingestion, the inline pipeline, base64, the HTTP
-- client, the commands of Redis streams, the file system, the speech engine, language models with
-- their JSON answers, the searches of regular expressions, the classes of letters and floating
-- point numbers are arguments. The laws that theorems ask of Redis (a key holds what was last set)
-- and of time stamps (they are read back, are not empty and have a zone) are the records of
-- SberJazz.RedisLaws, those of the ingestion's keys the record KeepsKeys of Ingest.Queued, and
-- those of files the record KeepsFiles of Storage.Blob.Whole; Tests.Memory, Tests.Once and
-- Tests.Files have a Redis, stamps and a file system that meet them.
--
-- Not modelled. Logging, metrics without influence on a result, tracing, the text of messages that
-- nothing reads, prompt texts, HTTP routing, the database beyond the table of segments, the work
-- of the workers' handlers, expiry in Redis, the rendering of reports and CSV files, artifact
-- files by name, the engines for speech and language and their start, ffmpeg and the desktop
-- programs.
pub mod Base
pub mod Config
pub mod SberJazz
pub mod Storage
pub mod Auth
pub mod Readiness
pub mod Pipeline
pub mod Ingest
pub mod AlertRelay
pub mod LocalPipeline
pub mod Report
pub mod SaluteJazz
pub mod Transcript
pub mod WordErrors
pub mod Tests
