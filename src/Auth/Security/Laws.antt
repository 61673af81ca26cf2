-- ===== src/Auth/Security/Laws.antt =====
-- Who is let in by `require_auth`, and why.
use second_capture.Base.{
  ◌≡◌, ◌⊎◌, ◌↔◌, eq_iff, subst, sym, Option-cases, inl, inr, String, str_eq, Bool, true, false,
  Option, none, some, ◌++◌, arith,
}
use second_capture.Base.Text.{is_empty}
use second_capture.Base.Errors.{
  Exc, provider, unauthorized_error, http, other, ok, err, is_ok, Outcome-cases,
}
use second_capture.Config.{AuthSettings}
use second_capture.Auth.Claims.{ClaimSet}
use second_capture.Auth.Security.{
  AuthContext, AuthType, no_auth, user_api_key, service_api_key, jwt, JwtLibrary, is_prod_env,
  extract_bearer, verify_jwt, has_key, user_keys, service_keys, auth_mode, api_key_auth,
  key_fallback, bearer_auth, jwt_auth, require_auth, auth_by_mode, Decoded, checked, jwks_url,
  discover_jwks_url, decode_with_jwks,
}

-- The reason for which a request with this `Authorization` and this key may have the context.
abbrev pub Justified :
    JwtLibrary → AuthSettings → Option String → Option String → AuthContext → AuthType → Type 0
Justified lib s authorization key ctx no_auth =
    (auth_mode s ≡ "none") × (is_prod_env s.app_env ≡ false)
Justified lib s authorization key ctx user_api_key =
    (auth_mode s ≡ "api_key")
    × (has_key key (user_keys s ++ service_keys s) ≡ true)
    × (has_key key (service_keys s) ≡ false)
Justified lib s authorization key ctx service_api_key =
    (has_key key (service_keys s) ≡ true)
    × ((auth_mode s ≡ "api_key")
        ⊎ ((auth_mode s ≡ "jwt")
            × (is_prod_env s.app_env ≡ false)
            × (s.allow_service_api_key_in_jwt_mode ≡ true)))
Justified lib s authorization key ctx jwt =
    (auth_mode s ≡ "jwt")
    × ((token : String) × (claims : ClaimSet) × (extract_bearer authorization ≡ some token)
        × (verify_jwt lib s token ≡ ok claims)
        × (ctx.claims ≡ some claims))

-- An exception of `require_auth`: no `HTTPException` and no `ProviderError`.
abbrev pub is_auth_error : Exc → Bool
is_auth_error (provider _ _) = false
is_auth_error (unauthorized_error _) = true
is_auth_error (http _ _ _) = false
is_auth_error (other _) = true

module _ (lib : JwtLibrary) (s : AuthSettings) where
  checked_error :
      {A : Type 0} (d : Decoded A) (x : Exc) → checked lib s d ≡ err x → is_auth_error x ≡ true
  unfolding checked
  checked_error d x h = ground arith

  jwks_error : (x : Exc) → jwks_url lib s ≡ err x → is_auth_error x ≡ true
  unfolding jwks_url discover_jwks_url
  jwks_error x h = ground arith

  decode_error :
      (token url : String) (x : Exc)
      → decode_with_jwks lib s token url ≡ err x
      → is_auth_error x ≡ true
  unfolding decode_with_jwks checked
  decode_error token url x h = ground arith

  verify_error :
      (token : String) (x : Exc) → verify_jwt lib s token ≡ err x → is_auth_error x ≡ true
  unfolding verify_jwt checked
  verify_error token x h = elim (Outcome-cases (jwks_url lib s)) [
    | inl (url, found) ↦ ground (arith, decode_error token url x)
    | inr (y, missing) ↦ ground (arith, jwks_error x)
  ]

  pub require_auth_error :
      (authorization key : Option String) (x : Exc)
      → require_auth lib s authorization key ≡ err x
      → is_auth_error x ≡ true
  unfolding require_auth auth_by_mode jwt_auth api_key_auth key_fallback bearer_auth
  require_auth_error authorization key x h = elim (Option-cases (extract_bearer authorization)) [
    | inl missing ↦ ground arith
    | inr (token, found) ↦ ground (arith, verify_error token x)
  ]

  Justified-api_key :
      (authorization key : Option String) (ctx : AuthContext)
      → auth_mode s ≡ "api_key"
      → api_key_auth s key ≡ ok ctx
      → Justified lib s authorization key ctx ctx.auth_type
  unfolding api_key_auth
  Justified-api_key authorization key ctx mode h = ground arith

  Justified-fallback :
      (authorization key : Option String) (ctx : AuthContext)
      → auth_mode s ≡ "jwt"
      → key_fallback s key ≡ ok ctx
      → Justified lib s authorization key ctx ctx.auth_type
  unfolding key_fallback
  Justified-fallback authorization key ctx mode h = ground arith

  bearer_context :
      (token : String) (claims : ClaimSet) (ctx : AuthContext)
      → verify_jwt lib s token ≡ ok claims
      → bearer_auth lib s token ≡ ok ctx
      → (ctx.auth_type ≡ jwt) × (ctx.claims ≡ some claims)
  unfolding bearer_auth
  bearer_context token claims ctx verified h = ground arith

  Justified-bearer :
      (authorization key : Option String) (token : String) (ctx : AuthContext)
      → auth_mode s ≡ "jwt"
      → extract_bearer authorization ≡ some token
      → bearer_auth lib s token ≡ ok ctx
      → Justified lib s authorization key ctx ctx.auth_type
  unfolding bearer_auth
  Justified-bearer authorization key token ctx mode found h =
      elim (Outcome-cases (verify_jwt lib s token)) [
        | inl (claims, verified) ↦
            let kept = bearer_context token claims ctx verified h in
            subst (λ t. Justified lib s authorization key ctx t) (sym kept.0)
              (mode, (token, claims, found, verified, kept.1))
        | inr (x, refused) ↦ ground arith
      ]

  -- Whoever is let in has a reason: anonymous only with the mode none outside production, by a key
  -- only with a key of the settings (in the mode jwt a service key, outside production, where the
  -- fallback is allowed), by a JWT only with a Bearer token that verified, whose claims are kept.
  pub require_auth-Justified :
      (authorization key : Option String) (ctx : AuthContext)
      → require_auth lib s authorization key ≡ ok ctx
      → Justified lib s authorization key ctx ctx.auth_type
  unfolding require_auth auth_by_mode jwt_auth
  require_auth-Justified authorization key ctx h =
      elim (Option-cases (extract_bearer authorization)) [
        | inl missing ↦ ground (
          arith,
          modes,
          Justified-api_key authorization key ctx,
          Justified-fallback authorization key ctx,
        )
        | inr (token, found) ↦ ground (
          arith,
          modes,
          Justified-api_key authorization key ctx,
          Justified-fallback authorization key ctx,
          Justified-bearer authorization key token ctx,
        )
      ]
    where
      modes :
          ((str_eq (auth_mode s) "none" ≡ true) ↔ (auth_mode s ≡ "none"))
          × ((str_eq (auth_mode s) "api_key" ≡ true) ↔ (auth_mode s ≡ "api_key"))
          × ((str_eq (auth_mode s) "jwt" ≡ true) ↔ (auth_mode s ≡ "jwt"))
      modes = (eq_iff _ _, eq_iff _ _, eq_iff _ _)

  -- In the mode api_key a request is let in exactly if its key is one of the configured keys.
  api_key_mode_iff :
      (authorization key : Option String)
      → auth_mode s ≡ "api_key"
      → is_ok (require_auth lib s authorization key) ≡ has_key key (user_keys s ++ service_keys s)
  unfolding require_auth api_key_auth auth_by_mode
  api_key_mode_iff authorization key h = rw h (ground arith)

  -- In production, in the mode jwt, no key lets anyone in: without a Bearer token, or with an
  -- empty one, every request is refused.
  prod_jwt_refuses_keys :
      (authorization key : Option String)
      → auth_mode s ≡ "jwt"
      → is_prod_env s.app_env ≡ true
      → (extract_bearer authorization ≡ none) ⊎ (extract_bearer authorization ≡ some "")
      → is_ok (require_auth lib s authorization key) ≡ false
  unfolding require_auth jwt_auth key_fallback is_empty auth_by_mode
  prod_jwt_refuses_keys authorization key mode prod none_given = rw mode (ground arith)
