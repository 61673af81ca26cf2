-- ===== src/Base/Errors.antt =====
-- Errors as values (src/interview_analytics_agent/common/errors.py), and stateful code that may
-- raise. What was written before a raise stays written, so the state comes back beside an error.
use mathlib.Core.Path.{◌≡◌, refl, ap}
use mathlib.Core.Logic.{◌⊎◌, inl, inr}
use mathlib.Core.Bool.{Bool, true, false}
use Prim.Native.Nat.{ℕ}
use Prim.Native.String.{String, ◌++◌}

-- `ErrCode`.
pub data ErrCode : Type 0 where
  unknown bad_frame seq_gap checksum_mismatch backpressure : ErrCode
  stt_provider_error llm_provider_error delivery_provider_error db_error : ErrCode
  validation unauthorized forbidden not_found conflict : ErrCode
  connector_provider_error connector_auth_error connector_timeout : ErrCode
  connector_rate_limit connector_unavailable connector_bad_request : ErrCode
  connector_invalid_response redis_error storage_error : ErrCode

unfoldable pub code_text : ErrCode → String
code_text unknown = "unknown"
code_text bad_frame = "bad_frame"
code_text seq_gap = "seq_gap"
code_text checksum_mismatch = "checksum_mismatch"
code_text backpressure = "backpressure"
code_text stt_provider_error = "stt_provider_error"
code_text llm_provider_error = "llm_provider_error"
code_text delivery_provider_error = "delivery_provider_error"
code_text db_error = "db_error"
code_text validation = "validation"
code_text unauthorized = "unauthorized"
code_text forbidden = "forbidden"
code_text not_found = "not_found"
code_text conflict = "conflict"
code_text connector_provider_error = "connector_provider_error"
code_text connector_auth_error = "connector_auth_error"
code_text connector_timeout = "connector_timeout"
code_text connector_rate_limit = "connector_rate_limit"
code_text connector_unavailable = "connector_unavailable"
code_text connector_bad_request = "connector_bad_request"
code_text connector_invalid_response = "connector_invalid_response"
code_text redis_error = "redis_error"
code_text storage_error = "storage_error"

-- A raised exception: `ProviderError` and `UnauthorizedError` of the program, `HTTPException`
-- of the gateway with its status, and any other with its text.
pub data Exc : Type 0 where
  provider : ErrCode → String → Exc
  unauthorized_error : String → Exc
  http : ℕ → ErrCode → String → Exc
  other : String → Exc

-- `str(e)`.
unfoldable pub exc_text : Exc → String
unfolding code_text
exc_text (provider c m) = code_text c ++ ": " ++ m
exc_text (unauthorized_error m) = "unauthorized: " ++ m
exc_text (http n c m) = m
exc_text (other m) = m

pub data Outcome {ℓ} (A : Type ℓ) : Type ℓ where
  ok : A → Outcome A
  err : Exc → Outcome A

abbrev pub is_ok {ℓ} : {A : Type ℓ} → Outcome A → Bool
is_ok (ok _) = true
is_ok (err _) = false

pub Outcome-cases {ℓ} :
    {A : Type ℓ} (r : Outcome A) → ((a : A) × (r ≡ ok a)) ⊎ ((x : Exc) × (r ≡ err x))
Outcome-cases (ok a) = inl (a, refl)
Outcome-cases (err x) = inr (x, refl)

abbrev pub Op : Type 0 → Type 0 → Type 0
Op S A = S → Outcome A × S

module _ {S A : Type 0} where
  abbrev pub pure : A → Op S A
  pure a s = (ok a, s)

  abbrev pub raise : Exc → Op S A
  raise e s = (err e, s)

  abbrev pub gets : (S → A) → Op S A
  gets f s = (ok (f s), s)

  -- `try: m except Exception as e: handler(e)`.
  abbrev pub catch : Op S A → (Exc → Op S A) → Op S A
  catch m handler s = let (r, s') = m s in elim r [ ok a ↦ (ok a, s') | err e ↦ handler e s' ]

abbrev pub modify : {S : Type 0} → (S → S) → Op S (Unit {0})
modify f s = (ok tt, f s)

infixl 5 ◌>>=◌ ◌>>◌
abbrev pub ◌>>=◌ : {S A B : Type 0} → Op S A → (A → Op S B) → Op S B
◌>>=◌ m f s = let (r, s') = m s in elim r [ ok a ↦ f a s' | err e ↦ (err e, s') ]

abbrev pub ◌>>◌ : {S B : Type 0} → Op S (Unit {0}) → Op S B → Op S B
m >> k = m >>= λ _. k

-- What follows a code that has returned, or raised.
module _ {S A B : Type 0} (m : Op S A) (f : A → Op S B) (s s' : S) where
  abbrev after : Outcome A × S → Outcome B × S
  after r = elim r.0 [ ok a ↦ f a r.1 | err x ↦ (err x, r.1) ]

  pub bind_ok : (a : A) → m s ≡ (ok a, s') → (m >>= f) s ≡ f a s'
  bind_ok a e = ap after e

  pub bind_err : (x : Exc) → m s ≡ (err x, s') → (m >>= f) s ≡ (err x, s')
  bind_err x e = ap after e
