-- ===== src/SberJazz/Payloads.antt =====
-- The JSON payloads of sessions and of the circuit breaker: `asdict` when they are written, and
-- the readers `_load_state_redis` and `_load_cb_state_redis`.
pub mod RoundTrip
use second_capture.Base.{
  ℕ, String, Bool, true, false, Option, none, some, List, [], ◌∷◌, ◌==◌, not, if◌then◌else◌,
}
use second_capture.Base.Text.{is_empty, strip, read_nat, show_nat}
use second_capture.Base.Errors.{Exc, other, Outcome, ok, err}
use second_capture.SberJazz.World.{
  SessionState, BreakerState, Field, null, boolean, number, text, Raw, object, plain, lookup,
}

infixl 5 ◌>>=◌
abbrev ◌>>=◌ : {A B : Type 0} → Option A → (A → Option B) → Option B
none >>= f = none
some a >>= f = f a

-- JSON of an optional text.
abbrev optional : Option String → Field
optional none = null
optional (some s) = text s

unfoldable pub session_payload : SessionState → Raw
session_payload s = object (
    ("meeting_id", text s.meeting_id)
    ∷ ("provider", text s.provider)
    ∷ ("connected", boolean s.connected)
    ∷ ("attempts", number s.attempts)
    ∷ ("last_error", optional s.last_error)
    ∷ ("updated_at", text s.updated_at)
    ∷ [])

unfoldable pub breaker_payload : BreakerState → Raw
breaker_payload s = object (
    ("state", text s.state)
    ∷ ("consecutive_failures", number s.consecutive_failures)
    ∷ ("opened_at", optional s.opened_at)
    ∷ ("last_error", optional s.last_error)
    ∷ ("updated_at", text s.updated_at)
    ∷ [])

-- `str(x)`.
unfoldable pub field_text : Field → String
field_text null = "None"
field_text (boolean true) = "True"
field_text (boolean false) = "False"
field_text (number n) = show_nat n
field_text (text s) = s

-- `bool(x)`.
unfoldable pub truthy : Field → Bool
truthy null = false
truthy (boolean b) = b
truthy (number n) = not (n == 0)
truthy (text s) = not (is_empty s)

-- `int(x)`; `none` where it raises.
unfoldable pub field_int : Field → Option ℕ
field_int null = none
field_int (boolean true) = some 1
field_int (boolean false) = some 0
field_int (number n) = some n
field_int (text s) = read_nat (strip s)

-- `str(d[k]) if d.get(k) is not None else None`.
present : Option Field → Option String
unfolding field_text
present none = none
present (some null) = none
present (some f) = some (field_text f)

-- `str(d[k]) if d.get(k) else None`.
truthy_text : Option Field → Option String
unfolding field_text truthy
truthy_text none = none
truthy_text (some f) = if truthy f then some (field_text f) else none

-- The first branch of both readers, and `json.loads`: a text that is no object is a number, which
-- is no `dict`, or raises.
plain_text : {A : Type 0} → String → Outcome (Option A)
plain_text s = elim (is_empty s) [
  | true ↦ ok none
  | false ↦ elim (read_nat s) [ none ↦ err (other "JSONDecodeError") | some _ ↦ ok none ]
]

-- A missing key or a value that cannot be converted raises inside the `try`, which gives `None`.
session_of_fields : List (String × Field) → Option SessionState
unfolding field_text truthy field_int present lookup
session_of_fields d = do
  meeting_id ← lookup "meeting_id" d
  provider ← lookup "provider" d
  connected ← lookup "connected" d
  attempts_field ← lookup "attempts" d
  attempts ← field_int attempts_field
  updated_at ← lookup "updated_at" d
  some (record {
    meeting_id = field_text meeting_id;
    provider = field_text provider;
    connected = truthy connected;
    attempts = attempts;
    last_error = present (lookup "last_error" d);
    updated_at = field_text updated_at;
  })

breaker_of_fields : List (String × Field) → Option BreakerState
unfolding field_text field_int truthy_text lookup
breaker_of_fields d = do
  state ← lookup "state" d
  failures ← lookup "consecutive_failures" d
  consecutive_failures ← field_int failures
  updated_at ← lookup "updated_at" d
  some (record {
    state = field_text state;
    consecutive_failures = consecutive_failures;
    opened_at = truthy_text (lookup "opened_at" d);
    last_error = truthy_text (lookup "last_error" d);
    updated_at = field_text updated_at;
  })

-- What the readers make of the value that Redis returned.
unfoldable pub parse_session : Option Raw → Outcome (Option SessionState)
unfolding session_of_fields plain_text
parse_session none = ok none
parse_session (some (plain s)) = plain_text s
parse_session (some (object d)) = ok (session_of_fields d)

unfoldable pub parse_breaker : Option Raw → Outcome (Option BreakerState)
unfolding breaker_of_fields plain_text
parse_breaker none = ok none
parse_breaker (some (plain s)) = plain_text s
parse_breaker (some (object d)) = ok (breaker_of_fields d)
