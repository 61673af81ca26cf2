-- ===== src/Readiness/Laws.antt =====
-- What a production service that starts can rely on.
use second_capture.Base.{
  ◌≡◌, ◌↔◌, str_eq, ◌⊎◌, refl, Bool, true, false, not, ◌&&◌, List, [], ◌∷◌, ◌++◌, all, arith,
}
use second_capture.Base.Text.{is_empty, strip, norm}
use second_capture.Base.Errors.{Outcome, ok}
use second_capture.Readiness.{
  error, warning, Code, Issue, ReadinessState, Settings, is_error, is_ready, blank, issue_if,
  has_star, starts_http, is_prod, mode_is, provider_is, common_issues, prod_auth_issues,
  prod_other_issues, all_issues, evaluate_readiness, probe_issues, enforce_startup_readiness,
}

all-append :
    {A : Type 0} (p : A → Bool) (xs ys : List A) → all p (xs ++ ys) ≡ (all p xs && all p ys)
all-append p [] ys = refl
all-append p (x ∷ xs) ys = ground (arith, all-append p xs ys)

ready-append : (xs ys : List Issue) → is_ready (xs ++ ys) ≡ (is_ready xs && is_ready ys)
ready-append xs ys = all-append (λ i. not (is_error i)) xs ys

ready_error : (b : Bool) (c : Code) → is_ready (issue_if b error c) ≡ not b
ready_error true c = refl
ready_error false c = refl

ready_warning : (b : Bool) (c : Code) → is_ready (issue_if b warning c) ≡ true
ready_warning true c = refl
ready_warning false c = refl

ruleset readiness = (ready-append, ready_error, ready_warning)

module _ (s : Settings) where
  ready_prod_auth : is_ready (prod_auth_issues s) ≡ (
      not (mode_is s "none")
      && (not (s.auth.tenant_enforcement_enabled && not (mode_is s "jwt"))
          && (not (s.auth.tenant_enforcement_enabled && is_empty (strip s.auth.tenant_claim_key))
              && (not (s.auth.auth_require_jwt_in_prod && not (mode_is s "jwt"))
                  && (true
                      && (not (
                            mode_is s "jwt"
                            && (blank s.auth.oidc_issuer_url && blank s.auth.oidc_jwks_url))
                          && true))))))
  unfolding prod_auth_issues
  ready_prod_auth = simp readiness

  ready_prod_other : is_ready (prod_other_issues s) ≡ (
      not (s.storage_require_shared_in_prod && not (str_eq (norm s.storage_mode) "shared_fs"))
      && (not (has_star s.cors_allowed_origins)
          && (true
              && (not (
                    provider_is s "sberjazz"
                    && (starts_http s && s.connector.sberjazz_require_https_in_prod))
                  && not (provider_is s "sberjazz" && not (mode_is s "jwt"))))))
  unfolding prod_other_issues
  ready_prod_other = simp readiness

-- What production asks of the settings.
pub record IsSecure (s : Settings) : Type 0 where
  pub not_anonymous : mode_is s "none" ≡ false
  pub keys_given : mode_is s "api_key" ≡ true → is_empty (strip s.auth.api_keys) ≡ false
  pub tenants_by_jwt : s.auth.tenant_enforcement_enabled ≡ true → mode_is s "jwt" ≡ true
  pub tenant_claim :
      s.auth.tenant_enforcement_enabled ≡ true → is_empty (strip s.auth.tenant_claim_key) ≡ false
  pub jwt_required : s.auth.auth_require_jwt_in_prod ≡ true → mode_is s "jwt" ≡ true
  pub oidc_given :
      mode_is s "jwt" ≡ true
      → (blank s.auth.oidc_issuer_url ≡ false) ⊎ (blank s.auth.oidc_jwks_url ≡ false)
  pub storage_shared :
      s.storage_require_shared_in_prod ≡ true → str_eq (norm s.storage_mode) "shared_fs" ≡ true
  pub no_wildcard : has_star s.cors_allowed_origins ≡ false
  pub connector_given :
      provider_is s "sberjazz" ≡ true
      → (blank s.connector.sberjazz_api_base ≡ false)
        × (blank s.connector.sberjazz_api_token ≡ false)
        × (mode_is s "jwt" ≡ true)
  pub https :
      provider_is s "sberjazz" ≡ true
      → s.connector.sberjazz_require_https_in_prod ≡ true
      → starts_http s ≡ false

module _ (s : Settings) where
  ready_common :
      is_prod s ≡ true
      → is_ready (common_issues s) ≡ (
          not (mode_is s "api_key" && is_empty (strip s.auth.api_keys))
          && (true
              && (not (provider_is s "sberjazz" && blank s.connector.sberjazz_api_base)
                  && not (provider_is s "sberjazz" && blank s.connector.sberjazz_api_token))))
  unfolding common_issues
  ready_common prod = simp (readiness, prod)

  ready_all :
      is_prod s ≡ true
      → is_ready (all_issues s) ≡ (
          is_ready (common_issues s)
          && (is_ready (prod_auth_issues s) && is_ready (prod_other_issues s)))
  unfolding all_issues
  ready_all prod = rw prod (simp readiness)

  -- In production the checks pass exactly if the settings are secure.
  pub prod_ready_iff : is_prod s ≡ true → ((evaluate_readiness s).ready ≡ true) ↔ IsSecure s
  unfolding evaluate_readiness
  prod_ready_iff prod = (
    (λ h. ground (arith, ready_all prod, ready_common prod, ready_prod_auth s, ready_prod_other s)),
    (λ h. ground (arith, ready_all prod, ready_common prod, ready_prod_auth s, ready_prod_other s)),
  )

  started :
      (probe : Outcome Bool) (st : ReadinessState)
      → is_prod s ≡ true
      → s.readiness_fail_fast_in_prod ≡ true
      → enforce_startup_readiness s probe ≡ ok st
      → ((evaluate_readiness s).ready ≡ true)
        × (st.ready ≡ true)
        × (is_ready (probe_issues s probe) ≡ true)
  unfolding enforce_startup_readiness evaluate_readiness
  started probe st prod fast h = ground (arith, ready-append (all_issues s) (probe_issues s probe))

  probed :
      (probe : Outcome Bool)
      → is_prod s ≡ true
      → provider_is s "sberjazz" ≡ true
      → s.connector.sberjazz_startup_probe_enabled ≡ true
      → s.connector.sberjazz_startup_probe_fail_fast_in_prod ≡ true
      → is_ready (probe_issues s probe) ≡ true
      → probe ≡ ok true
  unfolding probe_issues
  probed probe prod real enabled strict h = ground arith

  -- A production service with fail-fast starts only with secure settings, and, where the real
  -- connector is to be probed and a failed probe is an error, only if the probe found it healthy.
  started-IsSecure :
      (probe : Outcome Bool) (st : ReadinessState)
      → is_prod s ≡ true
      → s.readiness_fail_fast_in_prod ≡ true
      → enforce_startup_readiness s probe ≡ ok st
      → IsSecure s
        × (st.ready ≡ true)
        × (provider_is s "sberjazz" ≡ true
            → s.connector.sberjazz_startup_probe_enabled ≡ true
            → s.connector.sberjazz_startup_probe_fail_fast_in_prod ≡ true
            → probe ≡ ok true)
  started-IsSecure probe st prod fast h =
      let r = started probe st prod fast h in
      (
        (prod_ready_iff prod).0 r.0,
        r.1,
        λ real enabled strict. probed probe prod real enabled strict r.2,
      )

  -- Outside production, or without fail-fast, every service starts, and its state is ready exactly
  -- if no issue is an error.
  lenient_start :
      (probe : Outcome Bool)
      → (is_prod s && s.readiness_fail_fast_in_prod) ≡ false
      → (st : ReadinessState) × (enforce_startup_readiness s probe ≡ ok st)
        × (st.ready ≡ is_ready st.issues)
  unfolding enforce_startup_readiness
  lenient_start probe h = (
    record {
      ready = is_ready (all_issues s ++ probe_issues s probe);
      issues = all_issues s ++ probe_issues s probe;
    },
    rw h refl,
    refl,
  )
