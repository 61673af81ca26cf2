-- ===== src/SberJazz/Limits.antt =====
-- The settings of the connector service within their bounds, and the choice of the connector.
-- Times are in microseconds where the clock is read, and in seconds where Redis is given them.
use second_capture.Base.{ℕ, ◌*◌, String, str_eq, ◌<>◌, if◌then◌else◌}
use second_capture.Base.Text.{is_empty, norm}
use second_capture.Base.Errors.{provider, connector_provider_error, Outcome, ok, err}
use second_capture.Config.{ConnectorSettings, succ, at_least}
use second_capture.SberJazz.World.{Env, Connector}

-- A number of attempts, and the backoff between them in microseconds.
abbrev pub Retries : Type 0
Retries = record { attempts : ℕ; backoff : ℕ }

module _ (s : ConnectorSettings) where
  unfoldable pub retry_config : Retries
  retry_config = record {
    attempts = at_least 1 (succ s.sberjazz_retries);
    backoff = at_least 0 s.sberjazz_retry_backoff_ms * 1000;
  }

  unfoldable pub live_pull_retry_config : Retries
  live_pull_retry_config = record {
    attempts = at_least 1 (succ s.sberjazz_live_pull_retries);
    backoff = at_least 0 s.sberjazz_live_pull_retry_backoff_ms * 1000;
  }

  unfoldable pub session_ttl_sec : ℕ
  session_ttl_sec = at_least 60 s.sberjazz_session_ttl_sec

  unfoldable pub op_lock_ttl_sec : ℕ
  op_lock_ttl_sec = at_least 10 s.sberjazz_op_lock_ttl_sec

  unfoldable pub live_pull_fail_reconnect_threshold : ℕ
  live_pull_fail_reconnect_threshold = at_least 1 s.sberjazz_live_pull_fail_reconnect_threshold

  unfoldable pub join_idempotent_ttl_sec : ℕ
  join_idempotent_ttl_sec = at_least 0 s.sberjazz_join_idempotent_ttl_sec

  unfoldable pub cb_failure_threshold : ℕ
  cb_failure_threshold = at_least 1 s.sberjazz_cb_failure_threshold

  unfoldable pub cb_open_sec : ℕ
  cb_open_sec = at_least 5 s.sberjazz_cb_open_sec

abbrev pub Resolved : Env → Type 0
Resolved e = record { provider : String; connector : Connector e.Platform }

-- The connector that the settings name, or an error.
unfoldable pub resolve_connector : (e : Env) → Outcome (Resolved e)
resolve_connector e =
    let raw = e.settings.meeting_connector_provider in
    let name = norm (if is_empty raw then "sberjazz_mock" else raw) in
    if str_eq name "sberjazz"
    then ok (record { provider = name; connector = e.real })
    else if str_eq name "sberjazz_mock"
    then ok (record { provider = name; connector = e.mock })
    else err (provider connector_provider_error ("Неизвестный provider: " <> name))
