-- ===== src/Security/Access/Roles.antt =====
-- Which tokens open which routes (security/jwt_tokens.py, security/current_user.py,
-- security/rbac.py).
use caps_dash.Prelude.{
  ◌≤◌, nat_eq_iff, lt→ltb, leb, ℕ, ◌+◌, ◌*◌, String, String_key, ℕ_key, true, some, List, ltb,
  if◌then◌else◌, Result, ok, err, ◌≡◌, ◌<◌, arith, refl, Bool-cases, inl, inr,
}
use caps_dash.Services.Auth.{User, UserRole, resident, security, admin}
use caps_dash.Services.Users.{get_by_username}
use caps_dash.Security.Access.{
  JwtFailure, Payload, token_expired, token_type_mismatch, forbidden, refresh_payload,
  access_payload, claims_of, decode_token, resolve_user_from_token, role_text, require_role,
  get_current_user, assert_role, has_at_least, rank_of, decoded,
}
use caps_dash.Security.Access.Revocation.{Signs, resolve-access_payload}

abbrev pub rank : UserRole → ℕ
rank resident = 1
rank security = 2
rank admin = 3

pub has_at_least-role_text :
    (role minimum : UserRole)
    → has_at_least (role_text role) minimum ≡ leb (rank minimum) (rank role)
unfolding has_at_least rank_of
has_at_least-role_text resident resident = refl
has_at_least-role_text resident security = refl
has_at_least-role_text resident admin = refl
has_at_least-role_text security resident = refl
has_at_least-role_text security security = refl
has_at_least-role_text security admin = refl
has_at_least-role_text admin resident = refl
has_at_least-role_text admin security = refl
has_at_least-role_text admin admin = refl

-- A refresh token never serves as a bearer credential: from its issue on, while it is valid every route answers that
-- it is of the wrong type, and after its expiry that it has expired, whoever it was issued to.
pub require_role-refresh_payload :
    (decode : ℕ → String → Result JwtFailure Payload) (minimum : UserRole) (users : List User)
    (u : User) (token jti : String) (ttl issued t : ℕ)
    → Signs decode token (refresh_payload ttl u jti issued)
    → issued ≤ t
    → require_role decode minimum users (some token) t
      ≡ err (if ltb t (issued + ttl * 86400) then token_type_mismatch else token_expired)
unfolding require_role get_current_user resolve_user_from_token decode_token decoded claims_of
    refresh_payload
require_role-refresh_payload decode minimum users u token jti ttl issued t signs since =
    elim (Bool-cases (ltb t (issued + ttl * 86400))) [
      | inl valid ↦ rw (signs t since) (rw valid refl)
      | inr over ↦ rw (signs t since) (rw over refl)
    ]

-- A route that asks for a role admits the bearer of a token that is valid, from its issue to before its
-- expiry, exactly by the role
-- which the active account has now, not by the one the token was issued with: at least as high, or
-- the answer is forbidden.
pub require_role-access_payload :
    (decode : ℕ → String → Result JwtFailure Payload) (minimum : UserRole) (users : List User)
    (u v : User) (token : String) (ttl issued t : ℕ)
    → Signs decode token (access_payload ttl u issued)
    → issued ≤ t
    → t < issued + ttl * 60
    → get_by_username users u.username ≡ some v
    → v.is_active ≡ true
    → v.token_version ≡ u.token_version
    → require_role decode minimum users (some token) t ≡ (
        if leb (rank minimum) (rank v.role)
        then ok (record {
          id = v.id;
          username = v.username;
          role = role_text v.role;
          display_name = v.display_name;
        })
        else err forbidden)
unfolding require_role get_current_user assert_role
require_role-access_payload decode minimum users u v token ttl issued t signs since valid found
      active version =
    rw (resolve-access_payload decode users u v token ttl issued t signs since found) (
      rw (lt→ltb t (issued + ttl * 60) valid) (
        rw active (
          rw ((nat_eq_iff v.token_version u.token_version).1 version)
            (rw (has_at_least-role_text v.role minimum) (ground arith)))))
