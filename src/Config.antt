-- ===== src/Config.antt =====
-- The settings that the modelled parts read
-- (src/interview_analytics_agent/common/config.py), grouped by the part that reads them.
use second_capture.Base.{ℕ, suc, max, String, Bool, Option}

-- Integers of the settings: `negsuc n` is -(n + 1).
pub data ℤ : Type 0 where
  pos : ℕ → ℤ
  negsuc : ℕ → ℤ

-- `max(lo, int(z))` for a bound `lo` that is not negative.
abbrev pub at_least : ℕ → ℤ → ℕ
at_least lo (pos n) = max lo n
at_least lo (negsuc _) = lo

-- `int(z) + 1`.
abbrev pub succ : ℤ → ℤ
succ (pos n) = pos (suc n)
succ (negsuc n) = pred_neg n
  where
    pred_neg : ℕ → ℤ
    pred_neg ℕ.zero = pos 0
    pred_neg (ℕ.suc k) = negsuc k

pub record ConnectorSettings : Type 0 where
  pub meeting_connector_provider : String
  pub sberjazz_api_base : Option String
  pub sberjazz_api_token : Option String
  pub sberjazz_retries : ℤ
  pub sberjazz_retry_backoff_ms : ℤ
  pub sberjazz_cb_failure_threshold : ℤ
  pub sberjazz_cb_open_sec : ℤ
  pub sberjazz_op_lock_ttl_sec : ℤ
  pub sberjazz_cb_auto_reset_enabled : Bool
  pub sberjazz_cb_auto_reset_min_age_sec : ℤ
  pub sberjazz_session_ttl_sec : ℤ
  pub sberjazz_reconcile_stale_sec : ℤ
  pub sberjazz_live_pull_enabled : Bool
  pub sberjazz_live_pull_batch_limit : ℤ
  pub sberjazz_live_pull_sessions_limit : ℤ
  pub sberjazz_live_pull_retries : ℤ
  pub sberjazz_live_pull_retry_backoff_ms : ℤ
  pub sberjazz_live_pull_fail_reconnect_threshold : ℤ
  pub sberjazz_join_idempotent_ttl_sec : ℤ
  pub sberjazz_require_https_in_prod : Bool
  pub sberjazz_startup_probe_enabled : Bool
  pub sberjazz_startup_probe_fail_fast_in_prod : Bool
  pub reconciliation_enabled : Bool
  pub reconciliation_limit : ℤ

pub record AuthSettings : Type 0 where
  pub app_env : String
  pub auth_mode : String
  pub api_keys : String
  pub service_api_keys : String
  pub allow_service_api_key_in_jwt_mode : Bool
  pub auth_require_jwt_in_prod : Bool
  pub oidc_issuer_url : Option String
  pub oidc_jwks_url : Option String
  pub oidc_audience : Option String
  pub oidc_algorithms : String
  pub oidc_discovery_timeout_sec : ℤ
  pub jwt_shared_secret : Option String
  pub jwt_clock_skew_sec : ℤ
  pub jwt_service_claim_key : String
  pub jwt_service_claim_values : String
  pub jwt_service_role_claim : String
  pub jwt_service_allowed_roles : String
  pub jwt_service_permission_claim : String
  pub jwt_service_required_scopes_admin_read : String
  pub jwt_service_required_scopes_admin_write : String
  pub tenant_enforcement_enabled : Bool
  pub tenant_claim_key : String
  pub tenant_context_key : String
