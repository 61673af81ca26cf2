-- ===== src/Auth/Security.antt =====
-- `require_auth` and the verification of a JWT
-- (src/interview_analytics_agent/common/security.py). PyJWT and the HTTP client are parameters.
pub mod Laws
use second_capture.Base.{
  ℕ, max, String, ◌<>◌, str_eq, Bool, true, false, not, ◌&&◌, ◌||◌, Option, none, some, List, [],
  ◌∷◌, ◌++◌, ◌==◌, if◌then◌else◌,
}
use second_capture.Base.Text.{is_empty, norm, strip, lower, truncate, text_or, is_comma, contains}
use second_capture.Base.Errors.{Exc, unauthorized_error, other, Outcome, ok, err}
use second_capture.Base.Dict.{lookup}
use second_capture.Config.{ℤ, pos, negsuc, AuthSettings}
use second_capture.Auth.Claims.{Claim, null, text, many, scalar, nil, cons, ClaimSet, parse_csv}

-- `auth_type` of `AuthContext`.
pub data AuthType : Type 0 where
  no_auth user_api_key service_api_key jwt : AuthType

pub record AuthContext : Type 0 where
  pub subject : String
  pub auth_type : AuthType
  pub claims : Option ClaimSet

-- The keyword arguments of `jwt.decode`.
pub record DecodeArgs : Type 0 where
  pub algorithms : List String
  pub verify_aud : Bool
  pub audience : Option String
  pub issuer : Option String
  pub leeway : ℤ

-- What a call of PyJWT gives: a value, a `PyJWTError`, or another exception.
pub data Decoded (A : Type 0) : Type 0 where
  decoded : A → Decoded A
  jwt_error : String → Decoded A
  crash : String → Decoded A

-- PyJWT and OIDC discovery. `discover` is the JSON of the discovery document's `jwks_uri`.
pub record JwtLibrary : Type 0 where
  pub installed : Bool
  pub decode : String → String → DecodeArgs → Decoded ClaimSet
  pub signing_key : String → String → Decoded String
  pub discover : String → ℤ → Outcome (Option String)

-- `s or ""` for an optional setting, without its spaces.
abbrev trimmed : Option String → String
trimmed none = ""
trimmed (some s) = strip s

-- `bool(s)` and the value, for an optional setting.
abbrev set_text : Option String → Option String
set_text none = none
set_text (some s) = if is_empty s then none else some s

abbrev has_text : Option String → Bool
has_text none = false
has_text (some s) = not (is_empty s)

-- `int(z or d)`.
abbrev int_or : ℕ → ℤ → ℤ
int_or d (pos n) = if n == 0 then pos d else pos n
int_or d (negsuc n) = negsuc n

unfoldable pub is_prod_env : String → Bool
is_prod_env app_env = let env = norm app_env in str_eq env "prod" || str_eq env "production"

jwt_algorithms : String → List String
jwt_algorithms raw = elim (parse_csv raw) [ [] ↦ "RS256" ∷ [] | a ∷ rest ↦ a ∷ rest ]

-- The text from its eighth character on, if the first seven are "bearer " in any case.
unfoldable pub drop_chars : ℕ → String → String
drop_chars ℕ.zero s = s
drop_chars (ℕ.suc n) String.[] = String.[]
drop_chars (ℕ.suc n) (String.◌∷◌ c s) = drop_chars n s

unfoldable pub extract_bearer : Option String → Option String
extract_bearer none = none
extract_bearer (some a) =
    if is_empty a
    then none
    else if str_eq (truncate 7 (lower a)) "bearer "
    then some (strip (drop_chars 7 a))
    else none

-- `x_api_key and x_api_key in keys`.
abbrev pub has_key : Option String → List String → Bool
has_key none keys = false
has_key (some k) keys = not (is_empty k) && contains k keys

module _ (s : AuthSettings) where
  abbrev pub user_keys : List String
  user_keys = parse_csv s.api_keys

  abbrev pub service_keys : List String
  service_keys = parse_csv s.service_api_keys

  abbrev pub service_context : AuthContext
  service_context = record { subject = "service"; auth_type = service_api_key; claims = none }

  -- `mode == "api_key"`.
  unfoldable pub api_key_auth : Option String → Outcome AuthContext
  api_key_auth key =
      if not (has_key key (user_keys ++ service_keys))
      then err (unauthorized_error "Неверный API ключ")
      else if has_key key service_keys
      then ok service_context
      else ok (record { subject = "user"; auth_type = user_api_key; claims = none })

  -- `mode == "jwt"` with no Bearer token.
  unfoldable pub key_fallback : Option String → Outcome AuthContext
  key_fallback key =
      let prod = is_prod_env s.app_env in
      let valid = has_key key service_keys in
      if s.allow_service_api_key_in_jwt_mode && not prod && valid
      then ok service_context
      else if prod && valid
      then err (
          unauthorized_error
            "В APP_ENV=prod требуется Bearer JWT; fallback service API key отключён")
      else if prod
      then err (unauthorized_error "Требуется Bearer JWT")
      else err (unauthorized_error "Требуется Bearer JWT или service API key")

  -- `(settings.auth_mode or "api_key").lower().strip()`.
  unfoldable pub auth_mode : String
  auth_mode = strip (lower (if is_empty s.auth_mode then "api_key" else s.auth_mode))

module _ (lib : JwtLibrary) (s : AuthSettings) where
  pub decode_args : DecodeArgs
  decode_args = record {
    algorithms = jwt_algorithms s.oidc_algorithms;
    verify_aud = has_text s.oidc_audience;
    audience = set_text s.oidc_audience;
    issuer = set_text s.oidc_issuer_url;
    leeway = int_or 30 s.jwt_clock_skew_sec;
  }

  -- `except jwt.PyJWTError`.
  unfoldable pub checked : {A : Type 0} → Decoded A → Outcome A
  checked (decoded a) = ok a
  checked (jwt_error m) = err (unauthorized_error "JWT не прошёл проверку")
  checked (crash m) = err (other m)

  unfoldable pub discover_jwks_url : String → Outcome String
  discover_jwks_url issuer = elim (lib.discover issuer (int_or 5 s.oidc_discovery_timeout_sec)) [
    | err _ ↦ err (unauthorized_error "Не удалось получить OIDC discovery")
    | ok none ↦ err (unauthorized_error "OIDC discovery не содержит jwks_uri")
    | ok (some url) ↦
        if is_empty url
        then err (unauthorized_error "OIDC discovery не содержит jwks_uri")
        else ok url
  ]

  unfoldable pub jwks_url : Outcome String
  jwks_url =
      let url = trimmed s.oidc_jwks_url in
      if not (is_empty url) then ok url else elim (set_text s.oidc_issuer_url) [
        | none ↦
            err (unauthorized_error "JWT/OIDC не настроен: укажи OIDC_JWKS_URL или OIDC_ISSUER_URL")
        | some issuer ↦ discover_jwks_url issuer
      ]

  unfoldable pub decode_with_jwks : String → String → Outcome ClaimSet
  decode_with_jwks token url = elim (checked (lib.signing_key url token)) [
    | err x ↦ err x
    | ok key ↦ checked (lib.decode token key decode_args)
  ]

  unfoldable pub verify_jwt : String → Outcome ClaimSet
  verify_jwt token =
      if not lib.installed
      then err (unauthorized_error "JWT библиотека не установлена (PyJWT)")
      else let secret = trimmed s.jwt_shared_secret in
        if not (is_empty secret)
        then checked (lib.decode token secret decode_args)
        else elim jwks_url [ err x ↦ err x | ok url ↦ decode_with_jwks token url ]

  -- A claim that is true, as text.
  abbrev true_text : Option Claim → Option String
  true_text none = none
  true_text (some null) = none
  true_text (some (text t)) = if is_empty t then none else some t
  true_text (some (many t nil)) = none
  true_text (some (many t (cons _ _))) = some t
  true_text (some (scalar b t)) = if b then some t else none

  -- `str(claims.get("sub") or claims.get("client_id") or "jwt_subject")`.
  pub subject_of : ClaimSet → String
  subject_of claims = elim (true_text (lookup "sub" claims)) [
    | some t ↦ t
    | none ↦ elim (true_text (lookup "client_id" claims)) [ some t ↦ t | none ↦ "jwt_subject" ]
  ]

  unfoldable pub bearer_auth : String → Outcome AuthContext
  bearer_auth token = elim (verify_jwt token) [
    | err x ↦ err x
    | ok claims ↦ ok (record { subject = subject_of claims; auth_type = jwt; claims = some claims })
  ]

  unfoldable pub jwt_auth : Option String → Option String → Outcome AuthContext
  jwt_auth authorization key = elim (extract_bearer authorization) [
    | none ↦ key_fallback s key
    | some token ↦ if is_empty token then key_fallback s key else bearer_auth token
  ]

  -- The branches on the mode.
  unfoldable pub auth_by_mode : String → Option String → Option String → Outcome AuthContext
  auth_by_mode mode authorization key =
      if str_eq mode "none"
      then if is_prod_env s.app_env
        then err (unauthorized_error "AUTH_MODE=none запрещён в APP_ENV=prod")
        else ok (record { subject = "anonymous"; auth_type = no_auth; claims = none })
      else if str_eq mode "api_key"
      then api_key_auth s key
      else if not (str_eq mode "jwt")
      then err (unauthorized_error "Неизвестный режим авторизации")
      else jwt_auth authorization key

  unfoldable pub require_auth : Option String → Option String → Outcome AuthContext
  require_auth authorization key = auth_by_mode (auth_mode s) authorization key
