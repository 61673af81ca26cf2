-- ===== src/Tests/Auth.antt =====
-- The theorems on authentication and tenants at concrete inputs.
use second_capture.Base.{◌≡◌, ◌↔◌, ◌⊎◌, refl, String, true, false, none, some, [], ◌∷◌}
use second_capture.Base.Text.{is_empty, strip, lower, contains, meets}
use second_capture.Base.Dict.{lookup, insert}
use second_capture.Base.Errors.{ok}
use second_capture.Config.{AuthSettings, pos}
use second_capture.Auth.Claims.{
  claim_allows, values_at, text, ClaimSet, parse_csv, is_service_jwt_claims,
  has_any_service_permission,
}
use second_capture.Auth.Security.{
  AuthContext, jwt, service_api_key, JwtLibrary, decoded, auth_mode, require_auth, auth_by_mode,
  api_key_auth,
}
use second_capture.Auth.Security.Laws.{Justified, require_auth-Justified}
use second_capture.Auth.Deps.{
  AuditLog, service_auth_internal, authenticate_request, authorize_service, audited_allow,
}
use second_capture.Auth.Deps.Laws.{IsAudited, service_auth_sound, service_auth-IsAudited}
use second_capture.Auth.Tenancy.{
  tenant_context_key, tenant_claim_key, normalize_tenant_id, put_tenant, check_tenant,
  resolve_tenant_id, tenant_or_refuse, apply_tenant_to_context, enforce_meeting_access,
}
use second_capture.Auth.Tenancy.Laws.{enforce_meeting_access_iff, tenants_are_apart}

abbrev pub key_settings : AuthSettings
key_settings = record {
  app_env = "dev";
  auth_mode = "api_key";
  api_keys = "k1";
  service_api_keys = "s1";
  allow_service_api_key_in_jwt_mode = true;
  auth_require_jwt_in_prod = true;
  oidc_issuer_url = some "https://id.example";
  oidc_jwks_url = none;
  oidc_audience = none;
  oidc_algorithms = "RS256";
  oidc_discovery_timeout_sec = pos 5;
  jwt_shared_secret = none;
  jwt_clock_skew_sec = pos 30;
  jwt_service_claim_key = "token_type";
  jwt_service_claim_values = "service";
  jwt_service_role_claim = "roles";
  jwt_service_allowed_roles = "service";
  jwt_service_permission_claim = "scope";
  jwt_service_required_scopes_admin_read = "read";
  jwt_service_required_scopes_admin_write = "write";
  tenant_enforcement_enabled = true;
  tenant_claim_key = "tenant_id";
  tenant_context_key = "tenant_id";
}

abbrev pub prod_settings : AuthSettings
prod_settings = record key_settings { app_env = "prod"; auth_mode = "jwt" }

abbrev library : JwtLibrary
library = record {
  installed = true;
  decode = λ token key args. decoded [];
  signing_key = λ url token. decoded "key";
  discover = λ issuer timeout. ok (some "https://id.example/jwks");
}

abbrev service : AuthContext
service = record { subject = "service"; auth_type = service_api_key; claims = none }

let_in_lem : require_auth library key_settings none (some "s1") ≡ ok service
unfolding require_auth auth_by_mode api_key_auth auth_mode parse_csv lower strip is_empty contains
let_in_lem = refl

require_auth-Justified_example :
    Justified library key_settings none (some "s1") service service.auth_type
require_auth-Justified_example =
    require_auth-Justified library key_settings none (some "s1") service let_in_lem

abbrev log : AuditLog
log = record { enabled = true; available = true; rows = [] }

service_lem :
    (service_auth_internal library key_settings none none (some "s1") ("read" ∷ []) "read" log).0
    ≡ ok service
unfolding service_auth_internal authenticate_request authorize_service audited_allow require_auth
    auth_by_mode api_key_auth auth_mode parse_csv lower strip is_empty contains
service_lem = refl

service_auth_sound_example :
    (require_auth library key_settings none (some "s1") ≡ ok service)
    × ((service.auth_type ≡ service_api_key)
        ⊎ ((service.auth_type ≡ jwt)
            × (is_service_jwt_claims key_settings service.claims ≡ true)
            × (has_any_service_permission key_settings service.claims ("read" ∷ []) ≡ true)))
service_auth_sound_example =
    service_auth_sound library key_settings none none (some "s1") ("read" ∷ []) "read" log service
      service_lem

service_auth-IsAudited_example :
    IsAudited log
      (service_auth_internal library key_settings none none (some "k1") ("read" ∷ []) "read" log)
service_auth-IsAudited_example =
    service_auth-IsAudited library key_settings log refl refl none none (some "k1") ("read" ∷ [])
      "read"

abbrev member : AuthContext
member = record { subject = "u"; auth_type = jwt; claims = some (("tenant_id", text "t1") ∷ []) }

abbrev created : ClaimSet
created = ("title", text "weekly") ∷ ("tenant_id", text "t1") ∷ []

applied_lem :
    apply_tenant_to_context key_settings member (("title", text "weekly") ∷ []) ≡ ok created
unfolding apply_tenant_to_context tenant_or_refuse resolve_tenant_id is_service_jwt_claims
    claim_allows tenant_claim_key tenant_context_key put_tenant normalize_tenant_id strip is_empty
    lookup insert parse_csv values_at meets
applied_lem = refl

enforce_meeting_access_iff_example :
    (enforce_meeting_access key_settings member created ≡ ok tt) ↔ (
      (t : String) × (resolve_tenant_id key_settings member ≡ some t)
      × (is_empty t ≡ false)
      × (lookup (tenant_context_key key_settings) created ≡ some (text t)))
enforce_meeting_access_iff_example = enforce_meeting_access_iff key_settings refl member created

reached_lem : enforce_meeting_access key_settings member created ≡ ok tt
unfolding enforce_meeting_access check_tenant tenant_or_refuse resolve_tenant_id
    is_service_jwt_claims claim_allows tenant_claim_key tenant_context_key normalize_tenant_id strip
    is_empty lookup parse_csv values_at meets
reached_lem = refl

tenants_are_apart_example :
    resolve_tenant_id key_settings member ≡ resolve_tenant_id key_settings member
tenants_are_apart_example =
    tenants_are_apart key_settings refl member member (("title", text "weekly") ∷ []) created
      applied_lem reached_lem
