-- ===== src/Auth/Deps/Laws.antt =====
-- The decisions of the gateway on services, and their rows in the audit trail.
use second_capture.Base.{
  ℕ, ◌≡◌, ◌⊎◌, refl, inl, inr, sym, subst, String, ◌<>◌, Bool, true, false, Option, none, some,
  List, ◌∷◌, arith, if◌then◌else◌,
}
use second_capture.Base.Errors.{
  ErrCode, forbidden, unauthorized, Exc, provider, other, unauthorized_error, http, Outcome, ok,
  err, Op, is_ok, Outcome-cases,
}
use second_capture.Config.{AuthSettings}
use second_capture.Auth.Claims.{is_service_jwt_claims, has_any_service_permission}
use second_capture.Auth.Security.{
  AuthContext, AuthType, no_auth, user_api_key, service_api_key, jwt, JwtLibrary, require_auth,
}
use second_capture.Auth.Security.Laws.{is_auth_error, require_auth_error}
use second_capture.Auth.Deps.{
  on_error, Request, allow, deny, AuditEvent, AuditLog, write_security_audit_event, audited_allow,
  audited_deny, allow_event, deny_event, authenticate_request, authorize_service, jwt_service,
  not_service, service_auth_internal,
}

-- What a decision has written to a log that takes rows: one row for what was decided, with the
-- status that the client sees, and none for an exception that is no decision.
abbrev pub IsAudited : AuditLog → Outcome AuthContext × AuditLog → Type 0
IsAudited db (ok ctx, db') =
    (ev : AuditEvent) × (db'.rows ≡ ev ∷ db.rows)
    × (ev.outcome ≡ allow)
    × (ev.status_code ≡ 200)
    × (ev.subject ≡ ctx.subject)
    × (ev.auth_type ≡ some ctx.auth_type)
IsAudited db (err (http status code m), db') =
    (ev : AuditEvent) × (db'.rows ≡ ev ∷ db.rows)
    × (ev.outcome ≡ deny)
    × (ev.status_code ≡ status)
    × (ev.error_code ≡ some code)
IsAudited db (err _, db') = db'.rows ≡ db.rows

module _ (lib : JwtLibrary) (s : AuthSettings) where
  authorize_sound :
      (t : AuthType) (request : Option Request) (scopes : List String) (reason : String)
      (c : AuthContext) (db : AuditLog) (ctx : AuthContext)
      → c.auth_type ≡ t
      → (authorize_service lib s t request scopes reason c db).0 ≡ ok ctx
      → (c ≡ ctx)
        × ((ctx.auth_type ≡ service_api_key)
            ⊎ ((ctx.auth_type ≡ jwt)
                × (is_service_jwt_claims s ctx.claims ≡ true)
                × (has_any_service_permission s ctx.claims scopes ≡ true)))
  unfolding authorize_service jwt_service not_service audited_deny audited_allow
  authorize_sound t request scopes reason c db ctx kind h = ground arith

  on_error_err :
      (request : Option Request) (x : Exc) (db : AuditLog) → is_ok (on_error request x db).0 ≡ false
  unfolding on_error audited_deny
  on_error_err request x db = ground arith

  when_authenticated :
      (request : Option Request) (authorization key : Option String) (scopes : List String)
      (reason : String) (db : AuditLog) (c : AuthContext)
      → require_auth lib s authorization key ≡ ok c
      → service_auth_internal lib s request authorization key scopes reason db
        ≡ authorize_service lib s c.auth_type request scopes reason c db
  unfolding service_auth_internal authenticate_request
  when_authenticated request authorization key scopes reason db c auth = ground arith

  when_refused :
      (request : Option Request) (authorization key : Option String) (scopes : List String)
      (reason : String) (db : AuditLog) (x : Exc)
      → require_auth lib s authorization key ≡ err x
      → service_auth_internal lib s request authorization key scopes reason db
        ≡ on_error request x db
  unfolding service_auth_internal authenticate_request
  when_refused request authorization key scopes reason db x refused =
      ground (arith, on_error_err request x db)

  -- A service is let in only as a service key, or as a JWT with service claims that has one of
  -- the required scopes; the context is the one that `require_auth` gave.
  pub service_auth_sound :
      (request : Option Request) (authorization key : Option String) (scopes : List String)
      (reason : String) (db : AuditLog) (ctx : AuthContext)
      → (service_auth_internal lib s request authorization key scopes reason db).0 ≡ ok ctx
      → (require_auth lib s authorization key ≡ ok ctx)
        × ((ctx.auth_type ≡ service_api_key)
            ⊎ ((ctx.auth_type ≡ jwt)
                × (is_service_jwt_claims s ctx.claims ≡ true)
                × (has_any_service_permission s ctx.claims scopes ≡ true)))
  service_auth_sound request authorization key scopes reason db ctx h =
      elim (Outcome-cases (require_auth lib s authorization key)) [
        | inl (c, auth) ↦ ground (
          arith,
          when_authenticated request authorization key scopes reason db c,
          authorize_sound c.auth_type request scopes reason c db ctx refl,
        )
        | inr (x, refused) ↦ ground (
          arith,
          when_refused request authorization key scopes reason db x,
          on_error_err request x db,
        )
      ]

  module _ (db : AuditLog) (on : db.enabled ≡ true) (up : db.available ≡ true) where
    write_row : (ev : AuditEvent) → (write_security_audit_event ev db).rows ≡ ev ∷ db.rows
    unfolding write_security_audit_event
    write_row ev = ground arith

    IsAudited-allow :
        (request : Option Request) (ctx : AuthContext) (reason : String)
        → IsAudited db (audited_allow request ctx reason db)
    unfolding audited_allow allow_event
    IsAudited-allow request ctx reason =
        (allow_event request ctx reason, write_row _, refl, refl, refl, refl)

    IsAudited-deny :
        (request : Option Request) (n : ℕ) (reason : String) (code : ErrCode) (t : Option AuthType)
        (subject m : String)
        → IsAudited db (audited_deny request n reason code t subject m db)
    unfolding audited_deny deny_event
    IsAudited-deny request n reason code t subject m =
        (deny_event request n reason code t subject, write_row _, refl, refl, refl)

    IsAudited-if :
        (b : Bool) (m n : Op AuditLog AuthContext)
        → IsAudited db (m db)
        → IsAudited db (n db)
        → IsAudited db ((if b then m else n) db)
    IsAudited-if true m n hm hn = hm
    IsAudited-if false m n hm hn = hn

    not_service-IsAudited :
        (request : Option Request) (c : AuthContext) → IsAudited db (not_service lib s request c db)
    unfolding not_service
    not_service-IsAudited request c =
        IsAudited-deny request 403 "not_service_identity" forbidden (some c.auth_type) c.subject
          "Требуется service-авторизация"

    jwt_service-IsAudited :
        (request : Option Request) (scopes : List String) (reason : String) (c : AuthContext)
        → IsAudited db (jwt_service lib s request scopes reason c db)
    unfolding jwt_service
    jwt_service-IsAudited request scopes reason c =
        IsAudited-if (has_any_service_permission s c.claims scopes)
          (audited_allow request c (reason <> ":service_jwt_claims"))
          (audited_deny request 403 "missing_service_scope" forbidden (some c.auth_type) c.subject
            "Недостаточно service scope")
          (IsAudited-allow request c (reason <> ":service_jwt_claims"))
          (IsAudited-deny request 403 "missing_service_scope" forbidden (some c.auth_type) c.subject
            "Недостаточно service scope")

    authorize-IsAudited :
        (t : AuthType) (request : Option Request) (scopes : List String) (reason : String)
        (c : AuthContext)
        → IsAudited db (authorize_service lib s t request scopes reason c db)
    unfolding authorize_service
    authorize-IsAudited service_api_key request scopes reason c =
        IsAudited-allow request c (reason <> ":service_api_key")
    authorize-IsAudited jwt request scopes reason c =
        IsAudited-if (is_service_jwt_claims s c.claims) (jwt_service lib s request scopes reason c)
          (not_service lib s request c) (jwt_service-IsAudited request scopes reason c)
          (not_service-IsAudited request c)
    authorize-IsAudited no_auth request scopes reason c = not_service-IsAudited request c
    authorize-IsAudited user_api_key request scopes reason c = not_service-IsAudited request c

    -- Whatever `require_auth` raises: an unauthorized request leaves a row, another exception none.
    IsAudited-error :
        (request : Option Request) (x : Exc)
        → is_auth_error x ≡ true
        → IsAudited db (on_error request x db)
    unfolding on_error
    IsAudited-error request (unauthorized_error m) h =
        IsAudited-deny request 401 m unauthorized none "unknown" m
    IsAudited-error request (other m) h = refl
    IsAudited-error request (provider c m) h = cc
    IsAudited-error request (http n c m) h = cc

    -- With a log that takes rows, every request for a service leaves exactly one row if it is let
    -- in or refused: an allow with status 200 and the context's subject and type, or a deny with
    -- the status and the code that the client is sent. An exception that is neither leaves none.
    pub service_auth-IsAudited :
        (request : Option Request) (authorization key : Option String) (scopes : List String)
        (reason : String)
        → IsAudited db (service_auth_internal lib s request authorization key scopes reason db)
    service_auth-IsAudited request authorization key scopes reason =
        elim (Outcome-cases (require_auth lib s authorization key)) [
          | inl (c, auth) ↦
              subst (IsAudited db)
                (sym (when_authenticated request authorization key scopes reason db c auth))
                (authorize-IsAudited c.auth_type request scopes reason c)
          | inr (x, refused) ↦
              subst (IsAudited db)
                (sym (when_refused request authorization key scopes reason db x refused))
                (IsAudited-error request x (require_auth_error lib s authorization key x refused))
        ]
