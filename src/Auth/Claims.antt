-- ===== src/Auth/Claims.antt =====
-- Claims of a JWT, and the tests on them
-- (src/interview_analytics_agent/common/security.py).
use second_capture.Base.{
  String, Bool, true, false, not, ◌&&◌, ◌||◌, Option, none, some, List, [], ◌∷◌, ◌++◌,
  if◌then◌else◌,
}
use second_capture.Base.Text.{is_empty, is_comma, is_space, strip, split, meets}
use second_capture.Base.Dict.{lookup}
use second_capture.Config.{AuthSettings}

-- A value of a claim. A list carries its `str`, and a value of another type its truth and `str`.
mutual
  pub data Claim : Type 0 where
    null : Claim
    text : String → Claim
    many : String → Claims → Claim
    scalar : Bool → String → Claim

  pub data Claims : Type 0 where
    nil : Claims
    cons : Claim → Claims → Claims

abbrev pub ClaimSet : Type 0
ClaimSet = List (String × Claim)

-- The texts that are not empty.
filled : List String → List String
filled [] = []
filled (s ∷ rest) = let others = filled rest in if is_empty s then others else s ∷ others

strip_all : List String → List String
strip_all [] = []
strip_all (s ∷ rest) = strip s ∷ strip_all rest

-- `_parse_csv`, `_parse_api_keys` and `_parse_scopes`: the stripped pieces that are not empty.
unfoldable pub parse_csv : String → List String
unfolding filled strip_all is_comma split
parse_csv raw = filled (strip_all (split is_comma raw))

-- `re.split(r"[,\s]+", value.strip())` without the empty pieces.
words : String → List String
unfolding filled is_comma is_space split strip
words s = filled (split (λ c. is_comma c || is_space c) (strip s))

-- `_claim_values`; sets are lists, of which only the members are read.
unfoldable mutual
  unfolding words

  pub claim_values : Claim → List String
  claim_values null = []
  claim_values (text s) = words s
  claim_values (many _ items) = values_of items
  claim_values (scalar _ s) = s ∷ []

  pub values_of : Claims → List String
  values_of nil = []
  values_of (cons c cs) = claim_values c ++ values_of cs

-- `_claim_values(claims.get(key))`.
unfoldable pub values_at : String → ClaimSet → List String
unfolding claim_values
values_at key claims = elim (lookup key claims) [ none ↦ [] | some c ↦ claim_values c ]

has_items : {A : Type 0} → List A → Bool
has_items [] = false
has_items (_ ∷ _) = true

-- One of the two rules of `is_service_jwt_claims`: a claim that has an allowed value.
unfoldable pub claim_allows : String → String → ClaimSet → Bool
unfolding has_items strip parse_csv values_at meets
claim_allows claim_key allowed claims =
    let key = strip claim_key in
    let values = parse_csv allowed in
    not (is_empty key) && has_items values && meets (values_at key claims) values

unfoldable pub is_service_jwt_claims : AuthSettings → Option ClaimSet → Bool
is_service_jwt_claims s none = false
is_service_jwt_claims s (some []) = false
is_service_jwt_claims s (some (c ∷ cs)) =
    claim_allows s.jwt_service_claim_key s.jwt_service_claim_values (c ∷ cs)
    || claim_allows s.jwt_service_role_claim s.jwt_service_allowed_roles (c ∷ cs)

unfoldable pub has_any_service_permission : AuthSettings → Option ClaimSet → List String → Bool
has_any_service_permission s claims [] = true
has_any_service_permission s none (r ∷ rs) = false
has_any_service_permission s (some []) (r ∷ rs) = false
has_any_service_permission s (some (c ∷ cs)) (r ∷ rs) =
    let key = strip s.jwt_service_permission_claim in
    not (is_empty key) && meets (values_at key (c ∷ cs)) (r ∷ rs)
