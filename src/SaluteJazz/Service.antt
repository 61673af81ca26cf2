-- ===== src/SaluteJazz/Service.antt =====
-- The connector service over the adapter: how many requests a join or a leave sends to the platform
-- (src/interview_analytics_agent/services/sberjazz_service.py over
-- connectors/salutejazz/adapter.py).
pub mod Bounds
pub mod Refused
use second_capture.Base.{
  ℕ, zero, suc, ◌+◌, ◌*◌, ◌≡◌, ◌≤◌, ◌∙◌, inl, inr, ap, subst, sym, refl, String, str_eq, Bool, true,
  false, not, ◌||◌, Bool-cases, Option, none, some, List, [], map, leb, arith,
}
use second_capture.Base.Text.{norm, is_empty}
use second_capture.Base.Dict.{lookup}
use second_capture.Base.Errors.{
  Exc, provider, connector_auth_error, ok, err, Op, pure, ◌>>=◌, Outcome-cases,
}
use second_capture.Config.{ConnectorSettings, ℤ, pos, negsuc, succ, at_least}
use second_capture.SberJazz.World.{
  SessionState, Field, null, boolean, number, text, RawChunk, Payload, bad_chunks, batch, Connector,
  Redis, Env,
}
use second_capture.SberJazz.Limits.{Retries, Resolved, retry_config, resolve_connector}
use second_capture.SberJazz.Store.{W}
use second_capture.SberJazz.Breaker.{on_connector_success}
use second_capture.SberJazz.Calls.{
  Call, Loop, give_up, gave_up, returned, attempt_loop, attempt_call, call_resolved,
  call_with_retries, is_retryable_connector_error, invoke, stamped, connected_after,
}
use second_capture.SberJazz.Calls.Laws.{
  Loop-cases, save_state_lem, on_connector_success_same, give_up_lem,
}
use second_capture.SberJazz.Calls.Attempts.{slept, loop_returns, loop_stops, loop_again}
use second_capture.SaluteJazz.{
  Http, Adapter, Document, Value, flat, items, nested, Line, Body, response, is_refusal, Request,
  request_of, request, meeting_path, health, join, leave, fetch_live_chunks,
}
use second_capture.SaluteJazz.Laws.{
  add_one, refused_loop, net_after, reply_at, net_after-add, request_sends,
}

module _ (h : Http) (as_chunk : h.Item → Option RawChunk) where
  -- The value of `next_cursor`, of which the service reads `str`.
  abbrev cursor_of : Option (Value h.Item) → Option Field
  cursor_of none = none
  cursor_of (some (flat f)) = some f
  cursor_of (some (items xs)) = some (text (h.show_items xs))
  cursor_of (some (nested s)) = some (text s)

  -- The payload of live chunks, as the service reads it.
  abbrev payload_of : Document h.Item → Payload
  payload_of d =
      let cursor = cursor_of (lookup "next_cursor" d) in
      elim (lookup "chunks" d) [
        | none ↦ batch [] cursor
        | some (items xs) ↦ batch (map as_chunk xs) cursor
        | some (flat null) ↦ batch [] cursor
        | some (flat (boolean b)) ↦ bad_chunks cursor
        | some (flat (number n)) ↦ bad_chunks cursor
        | some (flat (text s)) ↦ bad_chunks cursor
        | some (nested s) ↦ bad_chunks cursor
      ]

  abbrev pub as_connector : Adapter → Connector (Line h.Net)
  as_connector a = record {
    join = λ meeting_id. join h a meeting_id >>= λ _. pure tt;
    leave = leave h a;
    fetch_live_chunks = λ meeting_id cursor limit.
        fetch_live_chunks h a meeting_id cursor (pos limit) >>= λ d. pure (payload_of d);
    health = health h a >>= λ _. pure tt;
  }

abbrev pub refusal : Exc
refusal = provider connector_auth_error "Ошибка авторизации SberJazz API"

-- The path that a call asks for.
abbrev pub path_of : Call → String → String
path_of Call.join meeting_id = meeting_path meeting_id "join"
path_of Call.leave meeting_id = meeting_path meeting_id "leave"

-- The service whose platform is the one that the adapter reaches.
pub record Setup : Type 1 where
  pub http : Http
  pub adapter : Adapter
  pub as_chunk : http.Item → Option RawChunk
  pub redis : Redis
  pub mock : Connector (Line http.Net)
  pub iso : ℕ → String
  pub from_iso : String → Option ℕ
  pub is_naive : String → Bool
  pub settings : ConnectorSettings

module _ (u : Setup) where
  abbrev pub service : Env
  service = record {
    redis = u.redis;
    Platform = Line u.http.Net;
    real = as_connector u.http u.as_chunk u.adapter;
    mock = u.mock;
    iso = u.iso;
    from_iso = u.from_iso;
    is_naive = u.is_naive;
    settings = u.settings;
  }

  -- The request of a join or a leave.
  abbrev pub call_request : Call → String → Request
  call_request call meeting_id = request_of u.http u.adapter "POST" (path_of call meeting_id) []

  -- The platform after at most `limit` requests of a call.
  abbrev pub Sends : Call → String → ℕ → W service → W service → Type 0
  Sends call meeting_id limit w w' =
      (n : ℕ) × (n ≤ limit)
      × (w'.platform.net ≡ net_after u.http (call_request call meeting_id) n w.platform.net)

  abbrev pub body : Call → String → String → ℕ → Op (W service) SessionState
  body call name meeting_id =
      attempt_call service call (as_connector u.http u.as_chunk u.adapter) name meeting_id

  -- The connector that a service of the provider sberjazz finds.
  abbrev pub found : Resolved service
  found = record { provider = "sberjazz"; connector = as_connector u.http u.as_chunk u.adapter }

  resolve_lem :
      u.settings.meeting_connector_provider ≡ "sberjazz" → resolve_connector service ≡ ok found
  unfolding resolve_connector norm
  resolve_lem real = rw real refl

  pub call_found :
      (call : Call) (meeting_id : String) (w : W service)
      → u.settings.meeting_connector_provider ≡ "sberjazz"
      → call_with_retries service call meeting_id w ≡ call_resolved service call found meeting_id w
  unfolding call_with_retries
  call_found call meeting_id w real = ground (arith, resolve_lem real)
