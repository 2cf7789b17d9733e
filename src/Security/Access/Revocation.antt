-- ===== src/Security/Access/Revocation.antt =====
-- What ends an access token (security/current_user.py, services/user_service.py,
-- services/auth_service.py).
use caps_dash.Prelude.{
  ◌≤◌, ◌∙◌, ap, true, false, Option, Bool, inr, inl, Bool-cases, ℕ, ◌+◌, ◌*◌, String, String_key,
  ℕ_key, ◌==◌, some, List, [], ◌∷◌, ltb, if◌then◌else◌, Result, ok, err, ◌≡◌, arith, eq_iff, refl,
}
use caps_dash.Services.Auth.{UserRole, logout_everywhere, Db, User, get_by_id, set_user}
use caps_dash.Services.Users.{
  edited, end_sessions, apply_new_password, update_user, reset_password, change_own_password,
  get_by_username,
}
use caps_dash.Security.Access.{
  UserRole, AuthError, decoded, JwtFailure, expired_signature, Payload, token_expired,
  inactive_user, session_revoked, access_payload, claims_of, account_of, decode_token,
  resolve_user_from_token, role_text,
}

-- PyJWT verifies the token with this payload from its issue on, until its expiry; before its issue it
-- answers as it likes.
abbrev pub Signs : (ℕ → String → Result JwtFailure Payload) → String → Payload → Type 0
Signs decode token p =
    (t : ℕ) → p.iat ≤ t → decode t token ≡ (if ltb t p.exp then ok p else err expired_signature)

-- the row of the user who is found by name and by id, once it is written
pub get_by_username-set_user :
    (users : List User) (u u' : User)
    → get_by_id users u.id ≡ some u
    → get_by_username users u.username ≡ some u
    → u'.id ≡ u.id
    → u'.username ≡ u.username
    → get_by_username (set_user u' users) u.username ≡ some u'
unfolding get_by_id get_by_username set_user
get_by_username-set_user [] u u' h n i e = absurd (ground arith)
get_by_username-set_user (v ∷ users) u u' h n i e = ground (
  arith,
  get_by_username-set_user users u u',
  eq_iff v.username u.username,
  eq_iff u'.username u.username,
)

module _ (decode : ℕ → String → Result JwtFailure Payload) where
  pub resolve-access_payload :
      (users : List User) (u v : User) (token : String) (ttl issued t : ℕ)
      → Signs decode token (access_payload ttl u issued)
      → issued ≤ t
      → get_by_username users u.username ≡ some v
      → resolve_user_from_token decode users token t ≡ (
          if ltb t (issued + ttl * 60)
          then (if v.is_active
              then (if v.token_version == u.token_version
                  then ok (record {
                    id = v.id;
                    username = v.username;
                    role = role_text v.role;
                    display_name = v.display_name;
                  })
                  else err session_revoked)
              else err inactive_user)
          else err token_expired)
  unfolding resolve_user_from_token decode_token decoded claims_of account_of access_payload
  resolve-access_payload users u v token ttl issued t signs since found =
      elim (Bool-cases (ltb t (issued + ttl * 60))) [
        | inl valid ↦ rw (signs t since) (rw valid (rw found (ground arith)))
        | inr over ↦ rw (signs t since) (rw over refl)
      ]

-- The operations that end the tokens of an account: the user before, and the database after.
pub data Kills (hash : String → String) (verify : String → String → Bool) (db : Db) (u : User)
    : Db → Type 0 where
  everywhere :
      (now : ℕ) {after : Db} → after ≡ logout_everywhere db u now → Kills hash verify db u after
  password :
      (current new : String) (now : ℕ) {after : Db}
      → change_own_password hash verify db u current new now ≡ (after, ok tt)
      → Kills hash verify db u after
  reset :
      (new : String) (now : ℕ) {after : Db} (changed : User)
      → reset_password hash verify db u.id new now ≡ (after, ok changed)
      → Kills hash verify db u after
  disabled :
      (name : Option String) (role : Option UserRole) (now : ℕ) {after : Db} (changed : User)
      → update_user db u.id name role (some false) now ≡ (after, ok changed)
      → Kills hash verify db u after

-- what the caller is told
abbrev pub refusal :
    {hash : String → String} {verify : String → String → Bool} {db : Db} {u : User} {after : Db}
    → Kills hash verify db u after
    → AuthError
refusal (everywhere now e) = session_revoked
refusal (password current new now e) = session_revoked
refusal (reset new now changed e) = session_revoked
refusal (disabled name role now changed e) = inactive_user

-- What the row of the user has become: a version further, and inactive if it was disabled.
abbrev Row : AuthError → User → User → Type 0
Row e u v =
    (v.id ≡ u.id)
    × (v.username ≡ u.username)
    × (v.token_version ≡ u.token_version + 1)
    × ((if v.is_active then session_revoked else inactive_user) ≡ e)

module _ (hash : String → String) (verify : String → String → Bool) (db : Db) (u : User) where
  Kills-set_user :
      {after : Db}
      → (k : Kills hash verify db u after) → u.is_active ≡ true
      → get_by_id db.users u.id ≡ some u
      → (v : User) × (after.users ≡ set_user v db.users) × Row (refusal k) u v
  unfolding logout_everywhere change_own_password reset_password update_user apply_new_password
      end_sessions edited
  Kills-set_user (everywhere now e) active known =
      (record u { token_version = u.token_version + 1 }, ap (λ d. d.users) e, ground arith)
  Kills-set_user (password current new now e) active known = (
    record u { token_version = u.token_version + 1; password_hash = hash new },
    ground arith,
    ground arith,
  )
  Kills-set_user (reset new now changed e) active known = (
    record u { token_version = u.token_version + 1; password_hash = hash new },
    ground arith,
    ground arith,
  )
  Kills-set_user (disabled name role now changed e) active known =
      (edited u name role (some false), ground arith, ground arith)

-- The kill switch: signing out everywhere, a changed or reset password and a disabled account each
-- end every access token that the account was given before, under whatever role and display name and
-- whatever password it had then, with a token version up to the present one. From its issue on the
-- bearer, whose active account the database finds by its id and by its name, is told the session was
-- revoked (inactive, if the account was disabled), or that the token expired once it has.
pub Kills-resolve_user_from_token :
    (decode : ℕ → String → Result JwtFailure Payload) (hash : String → String)
    (verify : String → String → Bool) (db after : Db) (u given : User) (token : String)
    (ttl issued t : ℕ) (k : Kills hash verify db u after)
    → u.is_active ≡ true
    → get_by_id db.users u.id ≡ some u
    → get_by_username db.users u.username ≡ some u
    → given.username ≡ u.username
    → given.token_version ≤ u.token_version
    → Signs decode token (access_payload ttl given issued)
    → issued ≤ t
    → resolve_user_from_token decode after.users token t
      ≡ err (if ltb t (issued + ttl * 60) then refusal k else token_expired)
Kills-resolve_user_from_token decode hash verify db after u given token ttl issued t k active known
      named same older signs since =
    let (v, written, (id_kept, name_kept, version, told)) =
      Kills-set_user hash verify db u k active known in
    let found : get_by_username after.users u.username ≡ some v =
      ap (λ us. get_by_username us u.username) written
      ∙ get_by_username-set_user db.users u v known named id_kept name_kept in
    let named_so : get_by_username after.users given.username ≡ some v = rw same found in
    resolve-access_payload decode after.users given v token ttl issued t signs since named_so
    ∙ ground (arith, version, told, older)
