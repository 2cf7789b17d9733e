-- ===== src/Security/Access.antt =====
-- security/jwt_tokens.py, security/current_user.py and security/rbac.py: from a bearer token to an
-- account with a role. PyJWT is a parameter: `encode` signs a payload, `decode` is given the instant
-- and answers a payload or how it failed. Instants are in seconds.
pub mod Revocation
pub mod Roles
mod Tests
use caps_dash.Prelude.{
  ℕ, ◌+◌, ◌*◌, String, String_key, ℕ_key, ◌==◌, Bool, true, false, not, ◌&&◌, Option, none, some,
  List, ltb, leb, if◌then◌else◌, Result, ok, err, ◌>>=◌,
}
use caps_dash.Services.Auth.{User, UserRole, resident, security, admin}
use caps_dash.Services.Users.{get_by_username}

-- How `jwt.decode` fails: ExpiredSignatureError, or another PyJWTError.
pub data JwtFailure : Type 0 where
  expired_signature invalid : JwtFailure

-- The claims that the code writes and reads; those that `get` may miss are optional.
pub record Payload : Type 0 where
  pub sub : String
  pub role : Option String
  pub tv : Option ℕ
  pub jti : Option String
  pub typ : String
  pub iat : ℕ
  pub exp : ℕ

pub data TokenType : Type 0 where
  access refresh : TokenType

abbrev pub token_type_text : TokenType → String
token_type_text access = "access"
token_type_text refresh = "refresh"

pub record TokenClaims : Type 0 where
  pub subject : String
  pub token_type : TokenType
  pub token_version : ℕ
  pub role : String
  pub jti : String
  pub expires_at : ℕ

pub data AuthError : Type 0 where
  token_expired token_invalid token_type_mismatch inactive_user session_revoked : AuthError
  auth_required : AuthError
  -- ForbiddenError
  forbidden : AuthError

pub record CurrentUser : Type 0 where
  pub id : ℕ
  pub username : String
  pub role : String
  pub display_name : String

-- the members of `UserRole` are texts
abbrev pub role_text : UserRole → String
role_text resident = "resident"
role_text security = "security"
role_text admin = "admin"

abbrev pub get_or {ℓ} : {A : Type ℓ} → Option A → A → A
get_or none default = default
get_or (some a) default = a

-- the payload of `encode_access`, and of `encode_refresh`
unfoldable pub access_payload : ℕ → User → ℕ → Payload
access_payload ttl_min user now = record {
  sub = user.username;
  role = some (role_text user.role);
  tv = some user.token_version;
  jti = none;
  typ = "access";
  iat = now;
  exp = now + ttl_min * 60;
}

unfoldable pub refresh_payload : ℕ → User → String → ℕ → Payload
refresh_payload ttl_days user token_id now = record {
  sub = user.username;
  role = none;
  tv = some user.token_version;
  jti = some token_id;
  typ = "refresh";
  iat = now;
  exp = now + ttl_days * 86400;
}

-- What `decode_token` makes of a verified payload.
unfoldable pub claims_of : TokenType → Payload → Result AuthError TokenClaims
claims_of expected p =
    if not (p.typ == token_type_text expected)
    then err token_type_mismatch
    else ok (record {
      subject = p.sub;
      token_type = expected;
      token_version = get_or p.tv 0;
      role = get_or p.role "";
      jti = get_or p.jti "";
      expires_at = p.exp;
    })

-- ROLE_RANK and `rank_of`
unfoldable pub rank_of : String → ℕ
rank_of role =
    if role == "resident"
    then 1
    else if role == "security"
    then 2
    else if role == "admin"
    then 3
    else 0

unfoldable pub has_at_least : String → UserRole → Bool
has_at_least role minimum = leb (rank_of (role_text minimum)) (rank_of role)

unfoldable pub assert_role : CurrentUser → UserRole → Result AuthError (Unit {0})
assert_role user minimum = if not (has_at_least user.role minimum) then err forbidden else ok tt

-- the account behind verified claims
unfoldable pub account_of : Option User → TokenClaims → Result AuthError CurrentUser
account_of none claims = err inactive_user
account_of (some user) claims =
    if not user.is_active
    then err inactive_user
    else if not (user.token_version == claims.token_version)
    then err session_revoked
    else ok (record {
      id = user.id;
      username = user.username;
      role = role_text user.role;
      display_name = user.display_name;
    })

-- `decode_token` on what PyJWT answered
unfoldable pub decoded : TokenType → Result JwtFailure Payload → Result AuthError TokenClaims
decoded expected (err expired_signature) = err token_expired
decoded expected (err invalid) = err token_invalid
decoded expected (ok payload) = claims_of expected payload

module _ (decode : ℕ → String → Result JwtFailure Payload) where
  unfoldable pub decode_token : String → TokenType → ℕ → Result AuthError TokenClaims
  decode_token token expected now = decoded expected (decode now token)

  unfoldable pub resolve_user_from_token : List User → String → ℕ → Result AuthError CurrentUser
  resolve_user_from_token users token now = decode_token token access now >>= λ claims.
      account_of (get_by_username users claims.subject) claims

  -- `get_current_user` and `get_optional_user`, on the credentials of the request
  pub get_current_user : List User → Option String → ℕ → Result AuthError CurrentUser
  get_current_user users none now = err auth_required
  get_current_user users (some token) now = resolve_user_from_token users token now

  unfoldable pub get_optional_user : List User → Option String → ℕ → Option CurrentUser
  get_optional_user users none now = none
  get_optional_user users (some token) now = elim (resolve_user_from_token users token now) [
    | err failure ↦ none
    | ok user ↦ some user
  ]

  -- `require_role(minimum)`, as a route depends on it
  pub require_role : UserRole → List User → Option String → ℕ → Result AuthError CurrentUser
  require_role minimum users credentials now = do
    user ← get_current_user users credentials now
    checked ← assert_role user minimum
    ok user
