-- ===== src/SberJazz/Payloads/RoundTrip.antt =====
-- Reading what was written.
use second_capture.Base.{ℕ, Bool, ◌≡◌, refl, String, Option, none, some, arith, if◌then◌else◌}
use second_capture.Base.Text.{is_empty}
use second_capture.Base.Errors.{ok}
use second_capture.SberJazz.World.{SessionState, BreakerState}
use second_capture.SberJazz.Payloads.{
  session_payload, breaker_payload, parse_session, parse_breaker,
}

session_at :
    (a b : String) (c : Bool) (n : ℕ) (o : Option String) (u : String)
    → let s : SessionState = record {
      meeting_id = a;
      provider = b;
      connected = c;
      attempts = n;
      last_error = o;
      updated_at = u;
    } in
      parse_session (some (session_payload s)) ≡ ok (some s)
unfolding parse_session session_payload
session_at a b c n none u = refl
session_at a b c n (some e) u = refl

-- A session that is written is read back unchanged.
parse-session_payload : (s : SessionState) → parse_session (some (session_payload s)) ≡ ok (some s)
parse-session_payload s =
    session_at s.meeting_id s.provider s.connected s.attempts s.last_error s.updated_at

-- An empty text that stands for no text.
abbrev pub drop_empty : Option String → Option String
drop_empty none = none
drop_empty (some t) = if is_empty t then none else some t

breaker_at :
    (a : String) (n : ℕ) (o l : Option String) (u : String)
    → let s : BreakerState = record {
      state = a;
      consecutive_failures = n;
      opened_at = o;
      last_error = l;
      updated_at = u;
    } in
      parse_breaker (some (breaker_payload s))
      ≡ ok (some (record s { opened_at = drop_empty o; last_error = drop_empty l }))
unfolding parse_breaker breaker_payload
breaker_at a n o l u = ground arith

-- A breaker state is read back with an empty error text, or an empty opening time, as none.
pub parse-breaker_payload :
    (s : BreakerState)
    → parse_breaker (some (breaker_payload s))
      ≡ ok (
          some
            (record s { opened_at = drop_empty s.opened_at; last_error = drop_empty s.last_error }))
parse-breaker_payload s =
    breaker_at s.state s.consecutive_failures s.opened_at s.last_error s.updated_at
