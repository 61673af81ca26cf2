-- ===== src/SaluteJazz.antt =====
-- The adapter of the meeting platform: requests over HTTP with retries, and the connector's
-- methods (src/interview_analytics_agent/connectors/salutejazz/adapter.py). The HTTP client is a
-- parameter. The details of an error, the logging and the forcing of IPv4 are left out.
pub mod Laws
pub mod Service
use Prim.Native.Char.{code}
use second_capture.Base.{
  ℕ, zero, suc, ◌+◌, ◌*◌, String, ◌<>◌, Bool, true, false, ◌&&◌, ◌||◌, not, ◌==◌, ltb, leb, Option,
  none, some, List, [], ◌∷◌, if◌then◌else◌,
}
use second_capture.Base.Text.{is_empty, is_comma, split, strip, show_nat, text_or}
use second_capture.Base.Dict.{lookup}
use second_capture.Base.Errors.{
  Exc, provider, connector_auth_error, connector_bad_request, connector_invalid_response,
  connector_provider_error, connector_rate_limit, connector_timeout, connector_unavailable, Outcome,
  ok, err, Op, pure, ◌>>=◌,
}
use second_capture.Config.{ℤ, at_least}
use second_capture.SberJazz.World.{Field, null, boolean, number, text}
use second_capture.AlertRelay.{numbers}
use second_capture.AlertRelay.Forward.{has_status}

-- A value of a JSON object: a flat one, a list, or an object with the text that `str` gives.
pub data Value (I : Type 0) : Type 0 where
  flat : Field → Value I
  items : List I → Value I
  nested : String → Value I

abbrev pub Document : Type 0 → Type 0
Document I = List (String × Value I)

-- The body of a response: no content, a JSON object, other JSON, or text that is no JSON.
pub data Body (I : Type 0) : Type 0 where
  empty : Body I
  document : Document I → Body I
  other_json : Body I
  not_json : Body I

-- What `requests.request` gives: a response with its status, or an exception.
pub data Reply (I : Type 0) : Type 0 where
  response : ℕ → Body I → Reply I
  timeout : Reply I
  connection_error : Reply I
  request_exception : Reply I

pub record Request : Type 0 where
  pub verb : String
  pub url : String
  pub params : List (String × Field)
  pub headers : List (String × String)
  pub timeout_sec : ℤ

-- The HTTP client over the state of the network. `show_items` is `str` of a list.
pub record Http : Type 1 where
  pub Item : Type 0
  pub Net : Type 0
  pub request : Request → Net → Reply Item × Net
  pub show_items : List Item → String

-- The settings that the adapter reads.
pub record HttpSettings : Type 0 where
  pub sberjazz_api_base : Option String
  pub sberjazz_api_token : Option String
  pub sberjazz_timeout_sec : ℤ
  pub sberjazz_http_retries : ℤ
  pub sberjazz_http_retry_backoff_ms : ℤ
  pub sberjazz_http_retry_statuses : String

-- `SaluteJazzConnector`; the backoff is in milliseconds.
pub record Adapter : Type 0 where
  pub base_url : String
  pub api_token : String
  pub timeout_sec : ℤ
  pub http_retries : ℕ
  pub http_retry_backoff_ms : ℕ
  pub http_retry_statuses : List ℤ

-- `s.rstrip("/")`.
rstrip_slash : String → String
rstrip_slash String.[] = String.[]
rstrip_slash (String.◌∷◌ c s) =
    let r = rstrip_slash s in if is_empty r && (code c == b'/') then String.[] else String.◌∷◌ c r

-- `a or b or ""`.
abbrev first_text : Option String → Option String → String
first_text a b = text_or (text_or "" b) a

unfoldable pub parse_retry_statuses : String → List ℤ
parse_retry_statuses raw = numbers (split is_comma raw)

-- `__init__`, with its three optional arguments.
unfoldable pub make_connector :
    (base_url api_token : Option String) → Option ℤ → HttpSettings → Adapter
unfolding rstrip_slash parse_retry_statuses
make_connector base_url api_token timeout_sec s = record {
  base_url = rstrip_slash (first_text base_url s.sberjazz_api_base);
  api_token = strip (first_text api_token s.sberjazz_api_token);
  timeout_sec = elim timeout_sec [ none ↦ s.sberjazz_timeout_sec | some t ↦ t ];
  http_retries = at_least 0 s.sberjazz_http_retries;
  http_retry_backoff_ms = at_least 0 s.sberjazz_http_retry_backoff_ms;
  http_retry_statuses = parse_retry_statuses s.sberjazz_http_retry_statuses;
}

unfoldable pub is_success : ℕ → Bool
is_success n = leb 200 n && ltb n 300

unfoldable pub is_refusal : ℕ → Bool
is_refusal n = n == 401 || n == 403

-- The error for a status that is not retried, or no longer.
unfoldable pub status_error : ℕ → Exc
status_error n =
    if n == 429
    then provider connector_rate_limit "Превышен лимит запросов SberJazz API"
    else if n == 400 || n == 404 || n == 422
    then provider connector_bad_request "Неверный запрос к SberJazz API"
    else if leb 500 n
    then provider connector_unavailable "SberJazz API временно недоступен"
    else provider connector_provider_error "SberJazz API вернул ошибку"

module _ {I : Type 0} where
  -- What a body with a status of success gives. Content that is JSON but no object counts as {}.
  unfoldable pub read_body : Body I → Outcome (Document I)
  read_body empty = ok []
  read_body (document d) = ok d
  read_body other_json = ok []
  read_body not_json =
      err (provider connector_invalid_response "SberJazz API вернул невалидный JSON")

  -- Whether a reply is tried again where an attempt is left.
  unfoldable pub is_retried : List ℤ → Reply I → Bool
  is_retried statuses (response n b) =
      not (is_success n) && not (is_refusal n) && has_status n statuses
  is_retried statuses timeout = true
  is_retried statuses connection_error = true
  is_retried statuses request_exception = false

  -- How a reply ends the loop.
  unfoldable pub settle : Reply I → Outcome (Document I)
  settle (response n b) =
      if is_success n
      then read_body b
      else if is_refusal n
      then err (provider connector_auth_error "Ошибка авторизации SberJazz API")
      else err (status_error n)
  settle timeout = err (provider connector_timeout "Таймаут обращения к SberJazz API")
  settle connection_error = err (provider connector_unavailable "SberJazz API недоступен")
  settle request_exception =
      err (provider connector_provider_error "Ошибка обращения к SberJazz API")

-- The network, and the clock in milliseconds.
pub record Line (N : Type 0) : Type 0 where
  pub net : N
  pub clock : ℕ

pub record MeetingContext (I : Type 0) : Type 0 where
  pub meeting_id : String
  pub language : String
  pub participants : Option (List I)

abbrev pub not_configured : Exc
not_configured = provider connector_bad_request "SBERJAZZ_API_BASE не настроен"

abbrev pub meeting_path : String → String → String
meeting_path meeting_id action = "/api/v1/meetings/" <> (meeting_id <> ("/" <> action))

module _ (h : Http) (a : Adapter) where
  abbrev bearer_headers : List (String × String)
  bearer_headers =
      if is_empty a.api_token then [] else ("Authorization", "Bearer " <> a.api_token) ∷ []

  unfoldable pub request_of : String → String → List (String × Field) → Request
  request_of verb path params = record {
    verb = verb;
    url = a.base_url <> path;
    params = params;
    headers = ("Content-Type", "application/json") ∷ bearer_headers;
    timeout_sec = a.timeout_sec;
  }

  -- `for attempt in range(1, attempts + 1)`; the first argument counts the rounds left.
  unfoldable pub request_loop :
      ℕ → Request → (attempts attempt : ℕ) → Op (Line h.Net) (Document h.Item)
  request_loop zero q attempts attempt l =
      (err (provider connector_unavailable "Ошибка обращения к SberJazz API"), l)
  request_loop (suc rounds) q attempts attempt l =
      let (reply, s) = h.request q l.net in
      let l' = record l { net = s } in
      let again =
        request_loop rounds q attempts (attempt + 1)
          (record l' { clock = l'.clock + a.http_retry_backoff_ms * attempt }) in
      if is_retried a.http_retry_statuses reply && ltb attempt attempts
      then again
      else (settle reply, l')

  -- `_request`. No method of the adapter gives it a payload.
  unfoldable pub request :
      String → String → List (String × Field) → Op (Line h.Net) (Document h.Item)
  request verb path params l =
      let attempts = a.http_retries + 1 in
      if is_empty a.base_url
      then (err not_configured, l)
      else request_loop attempts (request_of verb path params) attempts 1 l

  unfoldable pub health : Op (Line h.Net) (Document h.Item)
  health = request "GET" "/api/v1/health" []

  unfoldable pub participants_of : Document h.Item → Option (List h.Item)
  participants_of d = elim (lookup "participants" d) [
    | some (items xs) ↦ some xs
    | some (flat f) ↦ none
    | some (nested s) ↦ none
    | none ↦ none
  ]

  -- `str(value or "ru")`.
  unfoldable pub language_of : Option (Value h.Item) → String
  language_of none = "ru"
  language_of (some (flat null)) = "ru"
  language_of (some (flat (boolean b))) = if b then "True" else "ru"
  language_of (some (flat (number n))) = if n == 0 then "ru" else show_nat n
  language_of (some (flat (text s))) = if is_empty s then "ru" else s
  language_of (some (items [])) = "ru"
  language_of (some (items (x ∷ xs))) = h.show_items (x ∷ xs)
  language_of (some (nested s)) = s

  unfoldable pub join : String → Op (Line h.Net) (MeetingContext h.Item)
  join meeting_id = request "POST" (meeting_path meeting_id "join") [] >>= λ data_. pure (record {
    meeting_id = meeting_id;
    language = language_of (lookup "language" data_);
    participants = participants_of data_;
  })

  unfoldable pub leave : String → Op (Line h.Net) (Unit {0})
  leave meeting_id = request "POST" (meeting_path meeting_id "leave") [] >>= λ _. pure tt

  -- The recording, none where the platform answers with an empty object.
  unfoldable pub fetch_recording : String → Op (Line h.Net) (Option (Document h.Item))
  fetch_recording meeting_id =
      request "GET" (meeting_path meeting_id "recording") [] >>= λ d. pure (filled d)
    where
      filled : Document h.Item → Option (Document h.Item)
      filled [] = none
      filled (x ∷ d) = some (x ∷ d)

  abbrev cursor_params : Option String → List (String × Field)
  cursor_params none = []
  cursor_params (some c) = if is_empty c then [] else ("cursor", text c) ∷ []

  unfoldable pub fetch_live_chunks : String → Option String → ℤ → Op (Line h.Net) (Document h.Item)
  fetch_live_chunks meeting_id cursor limit =
      request "GET" (meeting_path meeting_id "live-chunks")
        (("limit", number (at_least 1 limit)) ∷ cursor_params cursor)
