-- ===== src/Tests/Adapter.antt =====
-- The theorems on the adapter of the meeting platform, over HTTP and under the connector service,
-- and on the breaker as a machine, at concrete inputs.
use second_capture.Base.{ℕ, ◌+◌, ◌*◌, ◌≡◌, refl, true, false, none, some, List, [], ◌∷◌}
use second_capture.Base.Text.{is_empty}
use second_capture.Base.Errors.{err}
use second_capture.Config.{pos}
use second_capture.SberJazz.World.{Connector}
use second_capture.SberJazz.Limits.{retry_config, cb_failure_threshold, cb_open_sec}
use second_capture.SberJazz.Payloads.{parse_breaker}
use second_capture.SberJazz.Store.{W}
use second_capture.SberJazz.Breaker.{load_cb_state_redis, default_cb_state}
use second_capture.SberJazz.Breaker.Laws.{seen}
use second_capture.SberJazz.Breaker.Machine.{
  shut, Event, call, success, failure, wait, replay, run, StandsFor,
}
use second_capture.SberJazz.Breaker.Machine.Laws.{run_refines}
use second_capture.SberJazz.Calls.{Call, call_with_retries}
use second_capture.SaluteJazz.{
  Reply, response, timeout, empty, Http, Adapter, Line, is_refusal, request_of, request,
}
use second_capture.SaluteJazz.Laws.{EndsAt, net_after, request_ends}
use second_capture.SaluteJazz.Service.{Setup, as_connector, refusal, service, call_request, Sends}
use second_capture.SaluteJazz.Service.Bounds.{call_requests_bounded}
use second_capture.SaluteJazz.Service.Refused.{refused_once}
use second_capture.Tests.Memory.{
  memory, memory_store, stamp, env, env_iso, world, connector_settings, unary,
}

-- The network follows a script of replies, and then answers with no content.
abbrev Script : Type 0
Script = List (Reply ℕ)

abbrev scripted : Http
scripted = record {
  Item = ℕ;
  Net = Script;
  request = λ q s. elim s [ [] ↦ (response 200 empty, []) | r ∷ rest ↦ (r, rest) ];
  show_items = λ xs. "[...]";
}

abbrev adapter : Adapter
adapter = record {
  base_url = "https://jazz.example";
  api_token = "token";
  timeout_sec = pos 10;
  http_retries = 2;
  http_retry_backoff_ms = 300;
  http_retry_statuses = pos 503 ∷ [];
}

abbrev line : Script → Line Script
line s = record { net = s; clock = 0 }

configured : is_empty adapter.base_url ≡ false
unfolding is_empty
configured = refl

request_ends_example :
    let l = line (response 503 empty ∷ timeout ∷ []) in
    (k : ℕ) × EndsAt scripted adapter
      (request_of scripted adapter "GET" "/api/v1/health" [])
      2
      1
      l
      (request scripted adapter "GET" "/api/v1/health" [] l)
      k
request_ends_example =
    request_ends scripted adapter "GET" "/api/v1/health" []
      (line (response 503 empty ∷ timeout ∷ [])) configured

abbrev no_mock : Connector (Line Script)
no_mock = as_connector scripted (λ n. none) adapter

abbrev setup : Setup
setup = record {
  http = scripted;
  adapter = adapter;
  as_chunk = λ n. none;
  redis = memory;
  mock = no_mock;
  iso = stamp;
  from_iso = λ s. some (unary s);
  is_naive = λ s. false;
  settings = connector_settings;
}

abbrev at_start : Script → W (service setup)
at_start s = record { redis = []; platform = line s; sessions = []; breaker = none; clock = 3 }

call_requests_bounded_example :
    Sends setup Call.join "m"
      ((retry_config connector_settings).attempts * (2 + 1))
      (at_start (timeout ∷ []))
      (call_with_retries (service setup) Call.join "m" (at_start (timeout ∷ []))).1
call_requests_bounded_example =
    call_requests_bounded setup Call.join "m" (at_start (timeout ∷ [])) refl

is_refusal_401 : is_refusal 401 ≡ true
unfolding is_refusal
is_refusal_401 = refl

refused_once_example :
    let w = at_start (response 401 empty ∷ []) in
    let out = call_with_retries (service setup) Call.join "m" w in
    (out.0 ≡ err refusal)
    × (out.1.platform.net ≡ net_after scripted (call_request setup Call.join "m") 1 w.platform.net)
refused_once_example =
    refused_once setup Call.join "m" (at_start (response 401 empty ∷ [])) 401 empty refl configured
      refl is_refusal_401

abbrev events : List Event
events = failure (some "late") ∷ failure (some "late") ∷ call ∷ wait 2 ∷ success ∷ call ∷ []

starts_shut : StandsFor env (shut 0) (seen env (world []))
unfolding seen load_cb_state_redis default_cb_state parse_breaker
starts_shut = (refl, refl)

run_refines_example :
    let th = cb_failure_threshold connector_settings in
    let cool = cb_open_sec connector_settings in
    ((run env events (world [])).0 ≡ (replay th cool events (world []).clock (shut 0)).0)
    × StandsFor env
        (replay th cool events (world []).clock (shut 0)).1
        (seen env (run env events (world [])).1)
run_refines_example = run_refines env memory_store env_iso events (shut 0) (world []) starts_shut
