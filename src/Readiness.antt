-- ===== src/Readiness.antt =====
-- The readiness checks at the start of a service
-- (src/interview_analytics_agent/services/readiness_service.py).
pub mod Laws
use Prim.Native.Char.{code}
use text.Mathlib.Text.{starts_with}
use second_capture.Base.{
  ℕ, String, str_eq, Bool, true, false, not, ◌&&◌, ◌||◌, Option, none, some, List, [], ◌∷◌, ◌++◌,
  ◌==◌, all, if◌then◌else◌,
}
use second_capture.Base.Text.{is_empty, strip, norm}
use second_capture.Base.Errors.{Exc, other, Outcome, ok, err}
use second_capture.Config.{AuthSettings, ConnectorSettings}
use second_capture.Auth.Security.{is_prod_env}

pub data Severity : Type 0 where
  error warning : Severity

pub data Code : Type 0 where
  auth_api_keys_empty service_api_keys_empty : Code
  sberjazz_api_base_empty sberjazz_api_token_empty : Code
  auth_none_in_prod tenant_requires_jwt tenant_claim_key_missing : Code
  auth_mode_must_be_jwt_in_prod jwt_service_key_fallback_enabled : Code
  oidc_not_configured jwt_shared_secret_set storage_not_shared_fs : Code
  cors_wildcard_in_prod mock_connector_in_prod sberjazz_api_base_not_https : Code
  sberjazz_requires_jwt_auth_mode : Code
  sberjazz_startup_probe_failed sberjazz_startup_probe_error : Code

-- `ReadinessIssue`; the message, a text fixed by the code, is left out.
pub record Issue : Type 0 where
  pub severity : Severity
  pub code : Code

pub record ReadinessState : Type 0 where
  pub ready : Bool
  pub issues : List Issue

-- The settings that the checks read.
pub record Settings : Type 0 where
  pub auth : AuthSettings
  pub connector : ConnectorSettings
  pub storage_require_shared_in_prod : Bool
  pub storage_mode : String
  pub cors_allowed_origins : String
  pub readiness_fail_fast_in_prod : Bool

abbrev pub blank : Option String → Bool
blank none = true
blank (some s) = is_empty (strip s)

abbrev or_empty : Option String → String
or_empty none = ""
or_empty (some s) = s

unfoldable pub has_star : String → Bool
has_star String.[] = false
has_star (String.◌∷◌ c s) = code c == b'*' || has_star s

abbrev pub is_error : Issue → Bool
is_error i = elim i.severity [ error ↦ true | warning ↦ false ]

abbrev pub is_ready : List Issue → Bool
is_ready = all (λ i. not (is_error i))

abbrev pub issue_if : Bool → Severity → Code → List Issue
issue_if b severity code = if b then record { severity = severity; code = code } ∷ [] else []

module _ (s : Settings) where
  unfoldable pub is_prod : Bool
  is_prod = is_prod_env s.auth.app_env

  -- `(s.auth_mode or "").strip().lower()`.
  unfoldable pub mode_is : String → Bool
  mode_is m = str_eq (norm s.auth.auth_mode) m

  unfoldable pub provider_is : String → Bool
  provider_is p = str_eq (norm s.connector.meeting_connector_provider) p

  unfoldable pub starts_http : Bool
  starts_http = starts_with (norm (or_empty s.connector.sberjazz_api_base)) "http://"

  -- The checks in every environment.
  unfoldable pub common_issues : List Issue
  common_issues =
      issue_if (mode_is "api_key" && is_empty (strip s.auth.api_keys)) error auth_api_keys_empty
      ++ (issue_if (is_empty (strip s.auth.service_api_keys)) warning service_api_keys_empty
          ++ (issue_if (provider_is "sberjazz" && blank s.connector.sberjazz_api_base) error
                sberjazz_api_base_empty
              ++ issue_if (provider_is "sberjazz" && blank s.connector.sberjazz_api_token)
                  (if is_prod then error else warning) sberjazz_api_token_empty))

  -- The checks on authentication in production.
  unfoldable pub prod_auth_issues : List Issue
  prod_auth_issues =
      let tenants = s.auth.tenant_enforcement_enabled in
      let jwt = mode_is "jwt" in
      issue_if (mode_is "none") error auth_none_in_prod
      ++ (issue_if (tenants && not jwt) error tenant_requires_jwt
          ++ (issue_if (tenants && is_empty (strip s.auth.tenant_claim_key)) error
                tenant_claim_key_missing
              ++ (issue_if (s.auth.auth_require_jwt_in_prod && not jwt) error
                    auth_mode_must_be_jwt_in_prod
                  ++ (issue_if (jwt && s.auth.allow_service_api_key_in_jwt_mode) warning
                        jwt_service_key_fallback_enabled
                      ++ (issue_if
                            (jwt && (blank s.auth.oidc_issuer_url && blank s.auth.oidc_jwks_url))
                            error oidc_not_configured
                          ++ issue_if (jwt && not (blank s.auth.jwt_shared_secret)) warning
                              jwt_shared_secret_set)))))

  -- The other checks in production.
  unfoldable pub prod_other_issues : List Issue
  prod_other_issues =
      let real = provider_is "sberjazz" in
      issue_if (s.storage_require_shared_in_prod && not (str_eq (norm s.storage_mode) "shared_fs"))
        error storage_not_shared_fs
      ++ (issue_if (has_star s.cors_allowed_origins) error cors_wildcard_in_prod
          ++ (issue_if (provider_is "sberjazz_mock") warning mock_connector_in_prod
              ++ (issue_if (real && (starts_http && s.connector.sberjazz_require_https_in_prod))
                    error sberjazz_api_base_not_https
                  ++ issue_if (real && not (mode_is "jwt")) error sberjazz_requires_jwt_auth_mode)))

  unfoldable pub all_issues : List Issue
  all_issues = common_issues ++ (if is_prod then prod_auth_issues ++ prod_other_issues else [])

  unfoldable pub evaluate_readiness : ReadinessState
  evaluate_readiness = record { ready = is_ready all_issues; issues = all_issues }

  -- The result of the connector's health check: its `healthy` field, or an exception.
  unfoldable pub probe_issues : Outcome Bool → List Issue
  probe_issues probe =
      let severity =
        if s.connector.sberjazz_startup_probe_fail_fast_in_prod then error else warning in
      if is_prod && (provider_is "sberjazz" && s.connector.sberjazz_startup_probe_enabled)
      then elim probe [
        | ok healthy ↦ issue_if (not healthy) severity sberjazz_startup_probe_failed
        | err _ ↦ issue_if true severity sberjazz_startup_probe_error
      ]
      else []

  -- A `RuntimeError` in production where the checks fail and the service is to stop.
  unfoldable pub enforce_startup_readiness : Outcome Bool → Outcome ReadinessState
  enforce_startup_readiness probe =
      let issues = all_issues ++ probe_issues probe in
      if is_prod && s.readiness_fail_fast_in_prod && not (is_ready issues)
      then err (other "startup readiness failed")
      else ok (record { ready = is_ready issues; issues = issues })
