-- ===== src/SberJazz/World.antt =====
-- The state and the environment of the SberJazz connector service
-- (src/interview_analytics_agent/services/sberjazz_service.py): sessions, circuit breaker, and the
-- parameters that stand for Redis, the meeting platform and ISO time stamps.
use second_capture.Base.{ℕ, String, Bool, Option, List}
use second_capture.Base.Errors.{Op}
unfoldable pub use second_capture.Base.Dict.{lookup, insert}
use second_capture.Config.{ConnectorSettings}

pub record SessionState : Type 0 where
  pub meeting_id : String
  pub provider : String
  pub connected : Bool
  pub attempts : ℕ
  pub last_error : Option String
  pub updated_at : String

-- `SberJazzCircuitBreakerState`; its `state` is a text: closed, open or half_open.
pub record BreakerState : Type 0 where
  pub state : String
  pub consecutive_failures : ℕ
  pub opened_at : Option String
  pub last_error : Option String
  pub updated_at : String

-- A value in a flat JSON object.
pub data Field : Type 0 where
  null : Field
  boolean : Bool → Field
  number : ℕ → Field
  text : String → Field

-- What Redis holds under a key: the JSON text of a flat object, kept as the tree that it spells,
-- or another text.
pub data Raw : Type 0 where
  object : List (String × Field) → Raw
  plain : String → Raw

-- The Redis commands that the service sends. Each may raise.
pub record Redis : Type 1 where
  pub State : Type 0
  pub get : String → Op State (Option Raw)
  pub set : String → Raw → ℕ → Op State (Unit {0})
  pub set_nx : String → Raw → ℕ → Op State Bool
  pub delete : String → Op State (Unit {0})
  pub incr : String → Op State ℕ
  pub sadd : String → String → Op State (Unit {0})
  pub smembers : String → Op State (List String)

-- A chunk as the platform sends it: the value of `seq`, of `id` or else `chunk_id`, and of
-- `content_b64`. An item that is no object is `none`.
pub record RawChunk : Type 0 where
  pub seq : Option Field
  pub id : Option Field
  pub chunk_id : Option Field
  pub content_b64 : Option Field

-- The payload of `fetch_live_chunks`, where a false value counts as the empty object: a true value
-- that is no object; an object whose `chunks` is neither absent,
-- null nor a list; or an object with its items and its `next_cursor`.
pub data Payload : Type 0 where
  not_object : Payload
  bad_chunks : Option Field → Payload
  batch : List (Option RawChunk) → Option Field → Payload

-- The connector's methods, over the state of the platform (`MeetingConnector`).
pub record Connector (X : Type 0) : Type 0 where
  pub join : String → Op X (Unit {0})
  pub leave : String → Op X (Unit {0})
  pub fetch_live_chunks : String → Option String → ℕ → Op X Payload
  pub health : Op X (Unit {0})

-- What the service finds around it. `iso` is `datetime.isoformat` of a time in UTC, in
-- microseconds, and `from_iso` is `datetime.fromisoformat`, `none` where it raises; `is_naive` tells
-- whether the text that it reads has no zone.
pub record Env : Type 1 where
  pub redis : Redis
  pub Platform : Type 0
  pub real : Connector Platform
  pub mock : Connector Platform
  pub iso : ℕ → String
  pub from_iso : String → Option ℕ
  pub is_naive : String → Bool
  pub settings : ConnectorSettings

-- The process: `_SESSIONS`, `_CIRCUIT_BREAKER`, the clock, and the two systems behind it.
pub record World (R X : Type 0) : Type 0 where
  pub redis : R
  pub platform : X
  pub sessions : List (String × SessionState)
  pub breaker : Option BreakerState
  pub clock : ℕ

module _ {R X A : Type 0} where
  abbrev pub on_redis : Op R A → Op (World R X) A
  on_redis m w = let (r, s) = m w.redis in (r, record w { redis = s })

  abbrev pub on_platform : Op X A → Op (World R X) A
  on_platform m w = let (r, s) = m w.platform in (r, record w { platform = s })
