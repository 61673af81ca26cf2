-- ===== src/AlertRelay/Webhook.antt =====
-- The handler of a webhook (`webhook` and `health` of src/apps/alert_relay/main.py).
pub mod Laws
use second_capture.Base.{
  ℕ, zero, suc, ◌+◌, String, ◌<>◌, str_eq, Bool, true, false, not, ◌&&◌, Option, none, some, List,
  [], ◌∷◌, ◌++◌, length, if◌then◌else◌,
}
use second_capture.Base.Text.{is_empty, truncate}
use second_capture.AlertRelay.{Environ, channel_name, target_url, shadow_url, fail_on_error}
use second_capture.AlertRelay.Forward.{Http, Metric, forwarded, Relay, forward}

-- The body of a request: `request.json()` with whether it is an object, or the text where it is
-- no JSON.
pub data Body (J : Type 0) : Type 0 where
  object : J → Body J
  value : J → Body J
  raw_body : String → Body J

-- The objects `{"value": ...}` and `{"raw_body": ...}`.
pub record Wrap (J : Type 0) : Type 0 where
  pub wrap_value : J → J
  pub wrap_raw : String → J

unfoldable pub payload_of : {J : Type 0} → Wrap J → Body J → J
payload_of w (object j) = j
payload_of w (value j) = w.wrap_value j
payload_of w (raw_body s) = w.wrap_raw s

-- The answer of the handler: a result, or the `HTTPException` 502 with its detail.
pub data Answer : Type 0 where
  answered : (channel : String) → (forwarded errors : ℕ) → Answer
  bad_gateway : (channel : String) → (forwarded : ℕ) → List String → Answer

-- The pairs of a kind and a URL that a webhook goes to; a shadow that is the target is left out.
unfoldable pub targets : String → String → List (String × String)
targets target shadow =
    (if not (is_empty target) then ("target", target) ∷ [] else [])
    ++ (if not (is_empty shadow) && not (str_eq shadow target) then ("shadow", shadow) ∷ [] else [])

module _ (h : Http) (env : Environ) where
  -- One round of the `for` loop over the targets.
  unfoldable pub forward_one :
      h.Json
      → String
      → String
      → String
      → ℕ
      → List String
      → Relay h.Net
      → (ℕ × List String) × Relay h.Net
  forward_one payload ch kind url done errors r =
      let (failure, r') = forward h env url payload ch kind r in
      elim failure [
        | none ↦ ((done + 1, errors), record r' { metrics = forwarded ch kind true ∷ r'.metrics })
        | some e ↦ (
          (done, errors ++ ((kind <> (":" <> (url <> (":" <> truncate 200 e)))) ∷ [])),
          record r' { metrics = forwarded ch kind false ∷ r'.metrics },
        )
      ]

  -- The `for` loop over the targets: the number forwarded, and the errors.
  unfoldable pub forward_all :
      h.Json
      → String
      → List (String × String)
      → ℕ
      → List String
      → Relay h.Net
      → (ℕ × List String) × Relay h.Net
  forward_all payload ch [] done errors r = ((done, errors), r)
  forward_all payload ch ((kind, url) ∷ rest) done errors r =
      let ((done', errors'), r') = forward_one payload ch kind url done errors r in
      forward_all payload ch rest done' errors' r'

  abbrev has_errors : List String → Bool
  has_errors [] = false
  has_errors (_ ∷ _) = true

  -- The end of the handler.
  unfoldable pub conclude : String → ℕ → List String → Answer
  conclude ch done errors =
      if has_errors errors && fail_on_error env
      then bad_gateway ch done errors
      else answered ch done (length errors)

  -- With no targets the loop does nothing, and the answer is the one of the early return.
  unfoldable pub webhook : Wrap h.Json → String → Body h.Json → Relay h.Net → Answer × Relay h.Net
  webhook w channel body r =
      let ch = channel_name channel in
      let payload = payload_of w body in
      let to = targets (target_url env ch) (shadow_url env ch) in
      elim to [
        | [] ↦ (answered ch 0 0, r)
        | t ∷ rest ↦
            let ((done, errors), r') = forward_all payload ch (t ∷ rest) 0 [] r in
            (conclude ch done errors, r')
      ]
