-- ===== src/Realtime/Handshake/Admission.antt =====
-- Who is let into the live view (realtime/ws_auth.py).
use caps_dash.Prelude.{
  ◌≤◌, ◌≤◌, ◌≤◌, ◌≤◌, ◌≤◌, ◌≤◌, ◌≤◌, ◌≤◌, ◌≤◌, ◌≤◌, ◌≤◌, ◌≤◌, ◌≤◌, ◌≤◌, ◌≤◌, >>=-ok, Option-cases,
  nat_eq_iff, ℕ, String, String_key, true, Option, none, some, List, Result, ok, err, ◌≡◌, ◌≤◌,
  arith, ap, refl, inl, inr,
}
use caps_dash.Services.Auth.{User, UserRole, security}
use caps_dash.Services.Users.{get_by_username}
use caps_dash.Security.Access.{
  JwtFailure, Payload, AuthError, CurrentUser, account_of, decode_token, resolve_user_from_token,
  role_text, access, TokenClaims, assert_role, has_at_least,
}
use caps_dash.Security.Access.Roles.{has_at_least-role_text, rank}
use caps_dash.Realtime.Handshake.{
  answer, Value, extract_token, resolve_viewer, authenticate_connection, AuthenticatedViewer,
}

-- what admits: an account that is active, whose version is that of the claims
account_of-ok :
    (found : Option User) (claims : TokenClaims) (user : CurrentUser)
    → account_of found claims ≡ ok user
    → (v : User) × (found ≡ some v)
      × (v.is_active ≡ true)
      × (v.token_version ≡ claims.token_version)
      × (user.role ≡ role_text v.role)
unfolding account_of
account_of-ok none claims user h = absurd (ground arith)
account_of-ok (some v) claims user h = (
  v,
  refl,
  ground arith,
  ground (arith, nat_eq_iff v.token_version claims.token_version),
  ground arith,
)

assert_role-ok :
    (user : CurrentUser) (role minimum : UserRole) {checked : Unit {0}}
    → user.role ≡ role_text role
    → assert_role user minimum ≡ ok checked
    → rank minimum ≤ rank role
unfolding assert_role
assert_role-ok user role minimum same h =
    ground (arith, has_at_least-role_text role minimum, ap (λ text. has_at_least text minimum) same)

answer-ok :
    (r : Result AuthError AuthenticatedViewer) (viewer : AuthenticatedViewer)
    → answer r ≡ ok viewer
    → r ≡ ok viewer
unfolding answer
answer-ok (err failure) viewer h = absurd (ground arith)
answer-ok (ok v) viewer h = ground arith

-- What stands behind an admitted viewer: the claims of both decodings, and the account.
pub record Admitted (decode : ℕ → String → Result JwtFailure Payload) (users : List User)
    (token : String) (now later : ℕ) (viewer : AuthenticatedViewer) : Type 0 where
  pub claims : TokenClaims
  pub again : TokenClaims
  pub account : User
  pub decoded_now : decode_token decode token access now ≡ ok claims
  pub decoded_later : decode_token decode token access later ≡ ok again
  pub named : get_by_username users again.subject ≡ some account
  pub active : account.is_active ≡ true
  pub version : account.token_version ≡ again.token_version
  pub role : viewer.user.role ≡ role_text account.role
  pub ranked : rank security ≤ rank account.role
  pub until : viewer.expires_at ≡ claims.expires_at

module _ (loads : String → Option Value) (decode : ℕ → String → Result JwtFailure Payload)
    (users : List User) (now later : ℕ) (viewer : AuthenticatedViewer) where
  resolve_viewer-ok :
      (token : String)
      → resolve_viewer loads decode users token now later ≡ ok viewer
      → Admitted decode users token now later viewer
  unfolding resolve_viewer resolve_user_from_token
  resolve_viewer-ok token h =
      let (claims, first, rest) = >>=-ok (decode_token decode token access now) _ h in
      let (user, resolved, rest') =
        >>=-ok (resolve_user_from_token decode users token later) _ rest in
      let (checked, allowed, last) = >>=-ok (assert_role user security) _ rest' in
      let (again, second, account) = >>=-ok (decode_token decode token access later) _ resolved in
      let (v, named, active, version, role) =
        account_of-ok (get_by_username users again.subject) again user account in
      record {
        claims = claims;
        again = again;
        account = v;
        decoded_now = first;
        decoded_later = second;
        named = named;
        active = active;
        version = version;
        role = ground arith;
        ranked = assert_role-ok user v.role security role allowed;
        until = ground arith;
      }

  -- A viewer is admitted only with a message that carries a token, which decodes both times to claims
  -- of an access token, and for which there is an active account of the claims' version that has at
  -- least the security role at the instant of the admission. The connection is to end at the expiry of the
  -- token.
  pub authenticate_connection-ok :
      (message : Option String)
      → authenticate_connection loads decode users message now later ≡ ok viewer
      → (raw token : String) × (message ≡ some raw)
        × (extract_token loads decode raw ≡ some token)
        × Admitted decode users token now later viewer
  unfolding authenticate_connection
  authenticate_connection-ok none h = absurd (ground arith)
  authenticate_connection-ok (some raw) h = elim (Option-cases (extract_token loads decode raw)) [
    | inl missing ↦ absurd (ground arith)
    | inr (token, found) ↦ (
      raw,
      token,
      refl,
      found,
      resolve_viewer-ok token
          (answer-ok (resolve_viewer loads decode users token now later) viewer (ground arith)),
    )
  ]
