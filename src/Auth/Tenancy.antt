-- ===== src/Auth/Tenancy.antt =====
-- Tenant enforcement (src/apps/api_gateway/tenancy.py). The context of a meeting is a dictionary
-- whose values are taken from JSON, as claims are.
pub mod Laws
use second_capture.Base.{
  ℕ, String, str_eq, Bool, true, false, not, ◌&&◌, ◌||◌, Option, none, some, List, [], ◌∷◌,
  if◌then◌else◌,
}
use second_capture.Base.Text.{is_empty, strip}
use second_capture.Base.Dict.{lookup, insert}
use second_capture.Base.Errors.{forbidden, http, Outcome, ok, err}
use second_capture.Config.{AuthSettings}
use second_capture.Auth.Claims.{
  Claim, Claims, null, text, many, scalar, nil, cons, ClaimSet, is_service_jwt_claims,
}
use second_capture.Auth.Security.{
  AuthContext, AuthType, no_auth, user_api_key, service_api_key, jwt,
}

-- `str(value)` of a value that is not None.
abbrev claim_text : Claim → Option String
claim_text null = none
claim_text (text s) = some s
claim_text (many s _) = some s
claim_text (scalar _ s) = some s

-- The first item that is not None, as text.
first_text : Claims → Option String
first_text nil = none
first_text (cons c cs) =
    let rest = first_text cs in elim (claim_text c) [ none ↦ rest | some s ↦ some s ]

unfoldable pub normalize_tenant_id : Option Claim → Option String
unfolding first_text
normalize_tenant_id none = none
normalize_tenant_id (some (many _ items)) = first_text items
normalize_tenant_id (some null) = none
normalize_tenant_id (some (text s)) = some s
normalize_tenant_id (some (scalar _ s)) = some s

key_or_default : String → String
key_or_default raw = let key = strip raw in if is_empty key then "tenant_id" else key

-- `key in out and out[key] not in (None, "", tenant_id)`.
abbrev pub conflicts : String → Option Claim → Bool
conflicts tenant none = false
conflicts tenant (some null) = false
conflicts tenant (some (text t)) = not (is_empty t || str_eq t tenant)
conflicts tenant (some (many _ _)) = true
conflicts tenant (some (scalar _ _)) = true

-- `meeting_context.get(key) == tenant_id`.
abbrev pub is_text : String → Option Claim → Bool
is_text tenant none = false
is_text tenant (some null) = false
is_text tenant (some (text t)) = str_eq t tenant
is_text tenant (some (many _ _)) = false
is_text tenant (some (scalar _ _)) = false

module _ (s : AuthSettings) where
  unfoldable pub tenant_claim_key : String
  unfolding key_or_default
  tenant_claim_key = key_or_default s.tenant_claim_key

  unfoldable pub tenant_context_key : String
  unfolding key_or_default
  tenant_context_key = key_or_default s.tenant_context_key

  claims_or_empty : Option ClaimSet → ClaimSet
  claims_or_empty none = []
  claims_or_empty (some cs) = cs

  tenant_of_type : AuthType → Option ClaimSet → Option String
  unfolding claims_or_empty
  tenant_of_type jwt claims =
      if is_service_jwt_claims s claims
      then none
      else normalize_tenant_id (lookup tenant_claim_key (claims_or_empty claims))
  tenant_of_type no_auth claims = none
  tenant_of_type user_api_key claims = none
  tenant_of_type service_api_key claims = none

  unfoldable pub resolve_tenant_id : AuthContext → Option String
  unfolding tenant_of_type
  resolve_tenant_id ctx =
      if not s.tenant_enforcement_enabled then none else tenant_of_type ctx.auth_type ctx.claims

  -- `tenant_id`, or the refusal where it is none or empty.
  unfoldable pub tenant_or_refuse : AuthContext → Outcome String
  tenant_or_refuse ctx = elim (resolve_tenant_id ctx) [
    | none ↦ err (http 403 forbidden "Tenant claim отсутствует")
    | some t ↦ if is_empty t then err (http 403 forbidden "Tenant claim отсутствует") else ok t
  ]

  unfoldable pub put_tenant : ClaimSet → String → Outcome ClaimSet
  put_tenant context tenant =
      if conflicts tenant (lookup tenant_context_key context)
      then err (http 403 forbidden "Tenant mismatch")
      else ok (insert tenant_context_key (text tenant) context)

  unfoldable pub apply_tenant_to_context : AuthContext → ClaimSet → Outcome ClaimSet
  apply_tenant_to_context ctx context =
      if not s.tenant_enforcement_enabled
      then ok context
      else elim (tenant_or_refuse ctx) [ err x ↦ err x | ok tenant ↦ put_tenant context tenant ]

  unfoldable pub check_tenant : ClaimSet → String → Outcome (Unit {0})
  check_tenant context tenant =
      if is_text tenant (lookup tenant_context_key context)
      then ok tt
      else err (http 403 forbidden "Tenant mismatch")

  unfoldable pub enforce_meeting_access : AuthContext → ClaimSet → Outcome (Unit {0})
  enforce_meeting_access ctx context =
      if not s.tenant_enforcement_enabled
      then ok tt
      else elim (tenant_or_refuse ctx) [ err x ↦ err x | ok tenant ↦ check_tenant context tenant ]
