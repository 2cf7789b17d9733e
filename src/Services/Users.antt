-- ===== src/Services/Users.antt =====
-- services/user_service.py: user administration. The password hasher is another module; `hash` and
-- `verify` are what the code calls of it. Names are taken
-- as they are once they are stripped, and user names once they are in lower case.
pub mod LastAdmin
pub mod Passwords
mod Tests
use caps_dash.Prelude.{
  ℕ, ◌+◌, String, String_key, ℕ_key, ◌==◌, Bool, true, false, not, ◌&&◌, ◌||◌, Option, none, some,
  List, [], ◌∷◌, ◌++◌, ltb, if◌then◌else◌, count, Result, ok, err,
}
use Prim.Native.String
use caps_dash.Services.Auth.{
  User, UserRole, resident, security, admin, is_admin, Db, AuthFailure, not_found, username_taken,
  last_admin, password_too_short, invalid_credentials, get_by_id, set_user, revoke_all_sessions,
  count_active_admins,
}

abbrev pub min_password_length : ℕ
min_password_length = 10

-- `len(password)` counts characters
abbrev pub text_length : String → ℕ
text_length String.[] = 0
text_length (String.◌∷◌ c s) = text_length s + 1

-- `_validate_password`
pub valid_password : String → Bool
valid_password password = not (ltb (text_length password) min_password_length)

-- `user_repository.get_by_username`
unfoldable pub get_by_username : List User → String → Option User
get_by_username [] name = none
get_by_username (u ∷ us) name = if u.username == name then some u else get_by_username us name

-- `name is not None` for the optional arguments of `update_user`
abbrev pub given {ℓ} : {A : Type ℓ} → Option A → A → A
given none old = old
given (some new) old = new

abbrev demotes : Option UserRole → Bool
demotes none = false
demotes (some role) = not (is_admin role)

abbrev pub deactivates : Option Bool → Bool
deactivates none = false
deactivates (some active) = not active

-- the guard of `update_user`
pub is_last_admin : List User → User → Option UserRole → Option Bool → Bool
is_last_admin users user role is_active =
    is_admin user.role
    && (demotes role || deactivates is_active)
    && (count_active_admins users user.id == 0)

-- `revoke_all_sessions` and the new `token_version`: what a new password ends
unfoldable pub end_sessions : Db → User → ℕ → Db
end_sessions db user now = record db {
  sessions = revoke_all_sessions user.id now db.sessions;
  users = set_user (record user { token_version = user.token_version + 1 }) db.users;
}

-- the fields that `update_user` writes
unfoldable pub edited : User → Option String → Option UserRole → Option Bool → User
edited user display_name role is_active = record user {
  display_name = given display_name user.display_name;
  role = given role user.role;
  is_active = given is_active user.is_active;
  token_version = if deactivates is_active then user.token_version + 1 else user.token_version;
}

unfoldable pub update_user :
    Db → ℕ → Option String → Option UserRole → Option Bool → ℕ → Db × Result AuthFailure User
update_user db user_id display_name role is_active now = elim (get_by_id db.users user_id) [
  | none ↦ (db, err not_found)
  | some user ↦
      if is_last_admin db.users user role is_active
      then (db, err last_admin)
      else let user' = edited user display_name role is_active in
        (
          record db {
            users = set_user user' db.users;
            sessions =
                if deactivates is_active
                then revoke_all_sessions user.id now db.sessions
                else db.sessions;
            audits = db.audits + 1;
          },
          ok user',
        )
]

module _ (hash : String → String) (verify : String → String → Bool) where
  -- `create_user`; `id` is the one that the database assigns
  pub create_user : Db → ℕ → String → String → String → UserRole → Db × Result AuthFailure User
  create_user db id username password display_name role =
      if not (valid_password password)
      then (db, err password_too_short)
      else elim (get_by_username db.users username) [
        | some _ ↦ (db, err username_taken)
        | none ↦
            let user : User = record {
              id = id;
              username = username;
              password_hash = hash password;
              display_name = display_name;
              role = role;
              is_active = true;
              token_version = 0;
              last_login_at = none;
            } in
            (record db { users = db.users ++ user ∷ []; audits = db.audits + 1 }, ok user)
      ]

  -- `_apply_new_password`
  unfoldable pub apply_new_password : Db → User → String → ℕ → Db
  apply_new_password db user new_password now =
      let db' = end_sessions db (record user { password_hash = hash new_password }) now in
      record db' { audits = db'.audits + 1 }

  unfoldable pub change_own_password :
      Db → User → String → String → ℕ → Db × Result AuthFailure (Unit {0})
  change_own_password db user current_password new_password now =
      if not (verify user.password_hash current_password)
      then (db, err invalid_credentials)
      else if not (valid_password new_password)
      then (db, err password_too_short)
      else (apply_new_password db user new_password now, ok tt)

  unfoldable pub reset_password : Db → ℕ → String → ℕ → Db × Result AuthFailure User
  reset_password db user_id new_password now = elim (get_by_id db.users user_id) [
    | none ↦ (db, err not_found)
    | some user ↦ if not (valid_password new_password) then (db, err password_too_short) else (
      apply_new_password db user new_password now,
      ok (record user {
        password_hash = hash new_password;
        token_version = user.token_version + 1;
      }),
    )
  ]
