-- ===== src/AlertRelay.antt =====
-- The alert relay: its environment variables and the forwarding of a webhook to the target and
-- the shadow of its channel (src/apps/alert_relay/main.py). The JSON of a body and the HTTP client
-- are parameters.
pub mod Forward
pub mod Webhook
use Prim.Native.Char.{Char, code}
use text.Mathlib.Text.{starts_with}
use second_capture.Base.{
  ℕ, zero, suc, ◌+◌, ◌*◌, ◌-◌, String, ◌<>◌, str_eq, Bool, true, false, not, ◌&&◌, ◌||◌, ◌==◌, leb,
  Option, none, some, List, [], ◌∷◌, if◌then◌else◌,
}
use second_capture.Base.Text.{is_empty, is_comma, strip, norm, split, contains, read_nat, text_or}
use second_capture.Config.{ℤ, pos, negsuc, at_least}

-- `os.environ`.
abbrev pub Environ : Type 0
Environ = String → Option String

-- `os.getenv(name, d)`.
abbrev getenv : Environ → String → String → String
getenv env name d = elim (env name) [ none ↦ d | some s ↦ s ]

-- Digits with single underscores between them, without the underscores.
digits : Bool → String → Option String
digits after_digit String.[] = if after_digit then some String.[] else none
digits after_digit (String.◌∷◌ c s) =
    let skipped = digits false s in
    let kept = digits true s in
    if code c == b'_'
    then if after_digit then skipped else none
    else elim kept [ none ↦ none | some t ↦ some (String.◌∷◌ c t) ]

abbrev negated : ℕ → ℤ
negated zero = pos 0
negated (suc n) = negsuc n

unsigned : String → Option ℕ
unfolding digits
unsigned s = elim (digits false s) [ none ↦ none | some t ↦ read_nat t ]

-- The text without its first character.
unfoldable rest_of : String → String
rest_of String.[] = String.[]
rest_of (String.◌∷◌ c s) = s

-- `int(s)` for ASCII digits; none where it raises.
unfoldable pub read_int : String → Option ℤ
unfolding unsigned rest_of
read_int s =
    let t = strip s in
    if starts_with t "-"
    then elim (unsigned (rest_of t)) [ none ↦ none | some n ↦ some (negated n) ]
    else elim (unsigned (if starts_with t "+" then rest_of t else t)) [
      | none ↦ none
      | some n ↦ some (pos n)
    ]

-- `max(lo, int(os.getenv(name, d)))`, or `fallback` where `int` raises.
abbrev bounded : Environ → String → String → ℕ → ℕ → ℕ
bounded env name d lo fallback = elim (read_int (getenv env name d)) [
  | none ↦ fallback
  | some z ↦ at_least lo z
]

-- The numbers that a list of texts spells.
unfoldable pub numbers : List String → List ℤ
unfolding read_int
numbers [] = []
numbers (s ∷ rest) =
    let others = numbers rest in
    if is_empty (strip s)
    then others
    else elim (read_int (strip s)) [ none ↦ others | some z ↦ z ∷ others ]

module _ (env : Environ) where
  unfoldable pub read_bool : String → Bool → Bool
  read_bool name default =
      let raw = norm (getenv env name "") in
      if is_empty raw then default else contains raw ("1" ∷ "true" ∷ "yes" ∷ "on" ∷ [])

  unfoldable pub timeout_sec : ℕ
  unfolding read_int
  timeout_sec = bounded env "ALERT_RELAY_TIMEOUT_SEC" "5" 1 5

  unfoldable pub retry_count : ℕ
  unfolding read_int
  retry_count = bounded env "ALERT_RELAY_RETRIES" "2" 0 2

  -- `_retry_backoff_sec`, in milliseconds.
  unfoldable pub retry_backoff_ms : ℕ
  unfolding read_int
  retry_backoff_ms = bounded env "ALERT_RELAY_RETRY_BACKOFF_MS" "300" 0 300

  unfoldable pub retry_statuses : List ℤ
  unfolding numbers
  retry_statuses =
      numbers
        (split is_comma (getenv env "ALERT_RELAY_RETRY_STATUSES" "408,409,425,429,500,502,503,504"))

  unfoldable pub fail_on_error : Bool
  fail_on_error = read_bool "ALERT_RELAY_FAIL_ON_ERROR" true

-- `_ALLOWED_CHANNELS`; the name of a channel that is none of them is "default".
unfoldable pub channel_name : String → String
channel_name raw =
    let channel = norm raw in
    if contains channel ("default" ∷ "warning" ∷ "critical" ∷ []) then channel else "default"

-- `_channel_name(channel).upper()`.
unfoldable pub upper_name : String → String
upper_name channel =
    let c = channel_name channel in
    if str_eq c "warning" then "WARNING" else if str_eq c "critical" then "CRITICAL" else "DEFAULT"

module _ (env : Environ) where
  unfoldable pub target_url : String → String
  target_url channel =
      strip (getenv env ("ALERT_RELAY_" <> (upper_name channel <> "_TARGET_URL")) "")

  unfoldable pub shadow_url : String → String
  shadow_url channel =
      strip (getenv env ("ALERT_RELAY_" <> (upper_name channel <> "_SHADOW_URL")) "")
