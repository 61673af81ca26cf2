-- ===== src/Tests/Ready.antt =====
-- The theorems on the readiness checks at concrete inputs.
use second_capture.Base.{◌≡◌, ◌↔◌, refl, true}
use second_capture.Base.Text.{norm}
use second_capture.Auth.Security.{is_prod_env}
use second_capture.Readiness.{Settings, is_prod, evaluate_readiness}
use second_capture.Readiness.Laws.{IsSecure, prod_ready_iff}
use second_capture.Tests.Memory.{connector_settings}
use second_capture.Tests.Auth.{prod_settings}

abbrev secure : Settings
secure = record {
  auth = prod_settings;
  connector = connector_settings;
  storage_require_shared_in_prod = true;
  storage_mode = "shared_fs";
  cors_allowed_origins = "https://app.example";
  readiness_fail_fast_in_prod = true;
}

is_prod_lem : is_prod secure ≡ true
unfolding is_prod is_prod_env norm
is_prod_lem = refl

prod_ready_iff_example : ((evaluate_readiness secure).ready ≡ true) ↔ IsSecure secure
prod_ready_iff_example = prod_ready_iff secure is_prod_lem
