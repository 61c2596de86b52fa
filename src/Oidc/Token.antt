-- ===== src/Oidc/Token.antt =====
-- src/github-oidc.js: `decodeJwtParts`, `verifyJwtSignature` and `verifyGitHubActionsOidc`.
use Prim.Native.String.{◌++◌ as text_append}
use auth_broker_tee.Base.{
  ℕ, String, Bool, true, false, Option, none, some, not, if◌then◌else◌, Result, ok, err, ◌>>=◌,
  ◌>>◌, guard, or_throw,
}
use auth_broker_tee.Json.{Json, undefined, null, str, arr, Items, nil, cons, get, same, truthy}
use auth_broker_tee.Oidc.{Expected, Cache, Response, cut, extract_bearer, fetch_jwks}
use auth_broker_tee.Json.Texts.{is_nullish}
use auth_broker_tee.Oidc.Claims.{validate_claims}

-- What the module takes from Node: the JSON value that a part of a token encodes, and whether a key
-- verifies the signature that a part encodes.
pub record Platform : Type 0 where
  pub parse_part : String → Result Json
  pub verify : Json → String → String → Result Bool

pub record Token : Type 0 where
  pub header : Json
  pub payload : Json
  pub signature : String
  pub signed_data : String

unfoldable pub is_whole : Option (String × String) → Bool
is_whole none = true
is_whole (some parts) = false

-- `jwt.split(".")`, of three parts
unfoldable pub three_parts : String → Result (String × String × String)
unfolding cut is_whole
three_parts jwt = do
  first ← or_throw (cut b'.' jwt) "Invalid JWT: expected 3 parts"
  second ← or_throw (cut b'.' first.1) "Invalid JWT: expected 3 parts"
  guard (is_whole (cut b'.' second.1)) "Invalid JWT: expected 3 parts"
  ok (first.0, second.0, second.1)

-- `decodeJwtParts`
unfoldable pub decode_jwt_parts : Platform → String → Result Token
unfolding three_parts
decode_jwt_parts platform jwt = do
  parts ← three_parts jwt
  header ← platform.parse_part parts.0
  payload ← platform.parse_part parts.1
  ok (record {
    header = header;
    payload = payload;
    signature = parts.2;
    signed_data = text_append parts.0 (text_append "." parts.1);
  })

unfoldable pub find_jwk : Json → Items → Result Json
unfolding get same is_nullish
find_jwk kid nil = err "No GitHub OIDC JWKS key found for kid"
find_jwk kid (cons key keys) =
    let rest = find_jwk kid keys in
    if is_nullish key
    then err "Cannot read properties of null"
    else if same (get "kid" key) kid
    then ok key
    else rest

unfoldable pub find_in : Json → Json → Result Json
unfolding find_jwk
find_in kid (arr keys) = find_jwk kid keys
find_in kid undefined = err "No GitHub OIDC JWKS key found for kid"
find_in kid null = err "No GitHub OIDC JWKS key found for kid"
find_in kid _ = err "jwks.keys.find is not a function"

-- The key that signed the token, among those that were fetched, which must verify its signature.
unfoldable pub check_signature : Platform → Token → Json → Result Json
unfolding is_nullish find_in get truthy
check_signature platform token jwks = do
  guard (not (is_nullish jwks)) "Cannot read properties of null"
  key ← find_in (get "kid" token.header) (get "keys" jwks)
  guard (truthy key) "No GitHub OIDC JWKS key found for kid"
  valid ← platform.verify key token.signed_data token.signature
  guard valid "GitHub OIDC JWT signature verification failed"
  ok token.payload

-- What is known before the keys are fetched.
unfoldable pub decoded : Platform → Json → Result Token
unfolding extract_bearer decode_jwt_parts is_nullish get same
decoded platform auth_header = do
  jwt ← or_throw (extract_bearer auth_header) "Missing GitHub Actions OIDC bearer token"
  token ← decode_jwt_parts platform jwt
  guard (not (is_nullish token.header)) "Cannot read properties of null"
  guard (same (get "alg" token.header) (str "RS256")) "Unexpected GitHub OIDC JWT algorithm"
  ok token

-- What is checked when the keys are there.
unfoldable pub admitted_payload : Platform → Token → Expected → ℕ → Result Json → Result Json
unfolding check_signature validate_claims
admitted_payload platform token expected now fetched = do
  jwks ← fetched
  payload ← check_signature platform token jwks
  validate_claims expected payload now >> ok payload

unfoldable pub verify_decoded :
    Platform → Result Token → Expected → Result Response → ℕ → ℕ → Cache → Result Json × Cache
unfolding fetch_jwks admitted_payload
verify_decoded platform (err message) expected answer fetched_at now cache = (err message, cache)
verify_decoded platform (ok token) expected answer fetched_at now cache =
    let fetched = fetch_jwks answer fetched_at cache in
    (admitted_payload platform token expected now fetched.0, fetched.1)

-- `verifyGitHubActionsOidc`: the keys are fetched at one time, and the claims checked at another.
unfoldable pub verify_github_actions_oidc :
    Platform → Json → Expected → Result Response → ℕ → ℕ → Cache → Result Json × Cache
unfolding decoded verify_decoded
verify_github_actions_oidc platform auth_header expected answer fetched_at now cache =
    verify_decoded platform (decoded platform auth_header) expected answer fetched_at now cache
