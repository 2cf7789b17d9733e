-- ===== src/Security/Access/Tests.antt =====
-- Runs of the token checks, at concrete inputs.
use caps_dash.Prelude.{
  ℕ, String, ◌≡◌, some, none, [], ◌∷◌, ltb, if◌then◌else◌, Result, ok, err, refl, true, arith,
}
use caps_dash.Services.Auth.{resident, User, Db, admin, security, get_by_id, logout_everywhere}
use caps_dash.Services.Users.{get_by_username}
use caps_dash.Security.Access.{
  resident, invalid, JwtFailure, expired_signature, Payload, access_payload,
  resolve_user_from_token, require_role, session_revoked, forbidden,
}
use caps_dash.Security.Access.Revocation.{Signs, everywhere, Kills-resolve_user_from_token}
use caps_dash.Security.Access.Roles.{require_role-access_payload}

abbrev guard : User
guard = record {
  id = 4;
  username = "guard";
  password_hash = "h";
  display_name = "Guard";
  role = security;
  is_active = true;
  token_version = 2;
  last_login_at = none;
}

abbrev site : Db
site = record { users = guard ∷ []; sessions = []; audits = 0 }

-- the account before it was promoted and its password changed
abbrev former : User
former = record guard { role = resident; password_hash = "g"; token_version = 1 }

-- a decoder that knows one token, and refuses it before its issue as PyJWT does
abbrev knows : Payload → ℕ → String → Result JwtFailure Payload
knows p t token =
    if ltb t p.iat then err invalid else if ltb t p.exp then ok p else err expired_signature

issued_at_100 : Signs (knows (access_payload 15 former 100)) "token" (access_payload 15 former 100)
unfolding access_payload
issued_at_100 t h = ground arith

Kills-resolve_user_from_token_example :
    resolve_user_from_token
      (knows (access_payload 15 former 100))
      (logout_everywhere site guard 200).users
      "token"
      300
    ≡ err session_revoked
unfolding get_by_id get_by_username
Kills-resolve_user_from_token_example =
    Kills-resolve_user_from_token (knows (access_payload 15 former 100)) (λ p. p) (λ h p. true) site
      (logout_everywhere site guard 200) guard former "token" 15 100 300 (everywhere 200 refl) refl
      refl refl refl (omega arith) issued_at_100 (omega arith)

require_role-access_payload_example :
    require_role (knows (access_payload 15 guard 100)) admin (guard ∷ []) (some "token") 300
    ≡ err forbidden
unfolding get_by_username
require_role-access_payload_example =
    require_role-access_payload (knows (access_payload 15 guard 100)) admin (guard ∷ []) guard guard
      "token" 15 100 300 (λ t h. ground arith) (omega arith) (omega arith) refl refl refl
