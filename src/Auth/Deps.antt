-- ===== src/Auth/Deps.antt =====
-- The gateway's dependencies for authentication and service authorization, with their audit trail
-- (src/apps/api_gateway/deps.py and
-- src/interview_analytics_agent/services/security_audit_service.py).
pub mod Laws
use second_capture.Base.{
  ℕ, String, ◌<>◌, Bool, true, false, not, ◌&&◌, Option, none, some, List, [], ◌∷◌, if◌then◌else◌,
}
use second_capture.Base.Errors.{
  ErrCode, unauthorized, forbidden, Exc, unauthorized_error, http, provider, other, Outcome, ok,
  err, Op, pure, raise, ◌>>=◌, ◌>>◌,
}
use second_capture.Config.{AuthSettings}
use second_capture.Auth.Claims.{parse_csv, is_service_jwt_claims, has_any_service_permission}
use second_capture.Auth.Security.{
  AuthContext, AuthType, no_auth, user_api_key, service_api_key, jwt, JwtLibrary, require_auth,
}

pub record Request : Type 0 where
  pub path : String
  pub method : String
  pub client_host : Option String

pub data Verdict : Type 0 where
  allow deny : Verdict

-- The arguments of `write_security_audit_event`; `auth_type` is none where it is "unknown".
pub record AuditEvent : Type 0 where
  pub outcome : Verdict
  pub endpoint : String
  pub method : String
  pub subject : String
  pub auth_type : Option AuthType
  pub reason : String
  pub status_code : ℕ
  pub error_code : Option ErrCode
  pub client_ip : Option String

-- The audit table, whether it is switched on, and whether the database takes a row.
pub record AuditLog : Type 0 where
  pub enabled : Bool
  pub available : Bool
  pub rows : List AuditEvent

-- The newest row stands first; a failure of the database is logged and goes no further.
unfoldable pub write_security_audit_event : AuditEvent → AuditLog → AuditLog
write_security_audit_event ev db =
    if db.enabled && db.available then record db { rows = ev ∷ db.rows } else db

-- `_request_meta`.
abbrev endpoint_of : Option Request → String
endpoint_of none = "unknown"
endpoint_of (some r) = r.path

abbrev method_of : Option Request → String
method_of none = "UNKNOWN"
method_of (some r) = r.method

abbrev client_of : Option Request → Option String
client_of none = none
client_of (some r) = r.client_host

unfoldable pub allow_event : Option Request → AuthContext → String → AuditEvent
allow_event request ctx reason = record {
  outcome = allow;
  endpoint = endpoint_of request;
  method = method_of request;
  subject = ctx.subject;
  auth_type = some ctx.auth_type;
  reason = reason;
  status_code = 200;
  error_code = none;
  client_ip = client_of request;
}

unfoldable pub deny_event :
    Option Request → ℕ → String → ErrCode → Option AuthType → String → AuditEvent
deny_event request status reason code auth_type subject = record {
  outcome = deny;
  endpoint = endpoint_of request;
  method = method_of request;
  subject = subject;
  auth_type = auth_type;
  reason = reason;
  status_code = status;
  error_code = some code;
  client_ip = client_of request;
}

-- `_audit_allow` and the return of the context.
unfoldable pub audited_allow : Option Request → AuthContext → String → Op AuditLog AuthContext
audited_allow request ctx reason db =
    (ok ctx, write_security_audit_event (allow_event request ctx reason) db)

-- `_audit_deny` and the raise of the `HTTPException`.
unfoldable pub audited_deny :
    {A : Type 0}
    → Option Request
    → ℕ
    → String
    → ErrCode
    → Option AuthType
    → String
    → String
    → Op AuditLog A
audited_deny request status reason code auth_type subject message db = (
  err (http status code message),
  write_security_audit_event (deny_event request status reason code auth_type subject) db,
)

-- Only an `UnauthorizedError` is turned into a 401; another exception goes through.
unfoldable pub on_error : Option Request → Exc → Op AuditLog AuthContext
on_error request (unauthorized_error m) db =
    audited_deny request 401 m unauthorized none "unknown" m db
on_error request (provider c m) db = (err (provider c m), db)
on_error request (http n c m) db = (err (http n c m), db)
on_error request (other m) db = (err (other m), db)

module _ (lib : JwtLibrary) (s : AuthSettings) where
  unfoldable pub authenticate_request :
      Option Request → Option String → Option String → Op AuditLog AuthContext
  authenticate_request request authorization key db = elim (require_auth lib s authorization key) [
    | ok ctx ↦ (ok ctx, db)
    | err x ↦ on_error request x db
  ]

  unfoldable pub auth_dep : Option Request → Option String → Option String → Op AuditLog AuthContext
  auth_dep request authorization key = do
    ctx ← authenticate_request request authorization key
    audited_allow request ctx "auth_ok"

  -- A service JWT is let in if no scope is required or it has one of them.
  unfoldable pub jwt_service :
      Option Request → List String → String → AuthContext → Op AuditLog AuthContext
  jwt_service request required_scopes allow_reason ctx =
      if has_any_service_permission s ctx.claims required_scopes
      then audited_allow request ctx (allow_reason <> ":service_jwt_claims")
      else audited_deny request 403 "missing_service_scope" forbidden (some ctx.auth_type)
          ctx.subject "Недостаточно service scope"

  unfoldable pub not_service : Option Request → AuthContext → Op AuditLog AuthContext
  not_service request ctx =
      audited_deny request 403 "not_service_identity" forbidden (some ctx.auth_type) ctx.subject
        "Требуется service-авторизация"

  -- The branches on the type of the authenticated context.
  unfoldable pub authorize_service :
      AuthType → Option Request → List String → String → AuthContext → Op AuditLog AuthContext
  authorize_service service_api_key request required_scopes allow_reason ctx =
      audited_allow request ctx (allow_reason <> ":service_api_key")
  authorize_service jwt request required_scopes allow_reason ctx =
      if is_service_jwt_claims s ctx.claims
      then jwt_service request required_scopes allow_reason ctx
      else not_service request ctx
  authorize_service no_auth request required_scopes allow_reason ctx = not_service request ctx
  authorize_service user_api_key request required_scopes allow_reason ctx = not_service request ctx

  unfoldable pub service_auth_internal :
      Option Request
      → Option String
      → Option String
      → List String
      → String
      → Op AuditLog AuthContext
  service_auth_internal request authorization key required_scopes allow_reason = do
    ctx ← authenticate_request request authorization key
    authorize_service ctx.auth_type request required_scopes allow_reason ctx

  unfoldable pub service_auth_dep :
      Request → Option String → Option String → Op AuditLog AuthContext
  service_auth_dep request authorization key =
      service_auth_internal (some request) authorization key [] "service_auth"

  unfoldable pub service_auth_read_dep :
      Request → Option String → Option String → Op AuditLog AuthContext
  service_auth_read_dep request authorization key =
      service_auth_internal (some request) authorization key
        (parse_csv s.jwt_service_required_scopes_admin_read) "service_auth_read"

  unfoldable pub service_auth_write_dep :
      Request → Option String → Option String → Op AuditLog AuthContext
  service_auth_write_dep request authorization key =
      service_auth_internal (some request) authorization key
        (parse_csv s.jwt_service_required_scopes_admin_write) "service_auth_write"
