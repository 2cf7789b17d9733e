-- ===== src/Services/Auth.antt =====
-- services/auth_service.py: the rotation of refresh tokens and logout, over the users and refresh sessions of the
-- database, with the queries of repositories/user_repository.py. Instants are numbers; passwords,
-- hashes and token identifiers are texts. The claims of a decoded token and the identifiers of a
-- fresh one are arguments; the decoding is in Services/Refresh.antt. Audit rows are counted, not stored.
pub mod Store
pub mod Rotation
use caps_dash.Prelude.{
  ℕ, ◌+◌, String, String_key, ℕ_key, ◌==◌, Bool, true, false, not, ◌&&◌, ◌||◌, Option, none, some,
  List, [], ◌∷◌, ◌++◌, ltb, leb, if◌then◌else◌, count, Result, ok, err, length,
}

pub data UserRole : Type 0 where
  resident security admin : UserRole

abbrev pub is_admin : UserRole → Bool
is_admin admin = true
is_admin _ = false

pub record User : Type 0 where
  pub id : ℕ
  pub username : String
  pub password_hash : String
  pub display_name : String
  pub role : UserRole
  pub is_active : Bool
  pub token_version : ℕ
  pub last_login_at : Option ℕ

pub record RefreshSession : Type 0 where
  pub user_id : ℕ
  pub jti : String
  pub expires_at : ℕ
  pub last_used_at : Option ℕ
  pub revoked_at : Option ℕ
  pub rotated_at : Option ℕ

pub record Db : Type 0 where
  pub users : List User
  pub sessions : List RefreshSession
  pub audits : ℕ

pub data AuthFailure : Type 0 where
  token_invalid session_reused inactive_user session_revoked invalid_credentials : AuthFailure
  -- the AttributeError of a session without a user, which the foreign key rules out
  missing_user : AuthFailure
  not_found username_taken last_admin password_too_short : AuthFailure

-- The claims of a decoded refresh token.
pub record Claims : Type 0 where
  pub jti : String
  pub token_version : ℕ

-- What `_issue_pair` gets back from the encoder of refresh tokens.
pub record Fresh : Type 0 where
  pub jti : String
  pub expires_at : ℕ

abbrev pub is_none {ℓ} : {A : Type ℓ} → Option A → Bool
is_none none = true
is_none (some a) = false

-- `RefreshSession.is_usable`
unfoldable pub is_usable : RefreshSession → ℕ → Bool
is_usable s now = is_none s.revoked_at && is_none s.rotated_at && ltb now s.expires_at

-- `user_repository.get_session_by_jti`; `jti` is unique
unfoldable pub get_session_by_jti : List RefreshSession → String → Option RefreshSession
get_session_by_jti [] jti = none
get_session_by_jti (s ∷ ss) jti = if s.jti == jti then some s else get_session_by_jti ss jti

-- `user_repository.get_by_id`, and the `user` relationship of a session
unfoldable pub get_by_id : List User → ℕ → Option User
get_by_id [] id = none
get_by_id (u ∷ us) id = if u.id == id then some u else get_by_id us id

-- a write to the row of a user, and to the row of a session
unfoldable pub set_user : User → List User → List User
set_user u [] = []
set_user u (v ∷ vs) = if v.id == u.id then u ∷ vs else v ∷ set_user u vs

unfoldable pub set_session : RefreshSession → List RefreshSession → List RefreshSession
set_session s [] = []
set_session s (t ∷ ts) = if t.jti == s.jti then s ∷ ts else t ∷ set_session s ts

-- `user_repository.revoke_all_sessions`: the rows, and how many were closed
unfoldable pub revoke_one : ℕ → ℕ → RefreshSession → RefreshSession
revoke_one user_id now s =
    if (s.user_id == user_id) && is_none s.revoked_at then record s { revoked_at = some now } else s

unfoldable pub revoke_all_sessions : ℕ → ℕ → List RefreshSession → List RefreshSession
unfolding revoke_one
revoke_all_sessions user_id now [] = []
revoke_all_sessions user_id now (s ∷ ss) =
    revoke_one user_id now s ∷ revoke_all_sessions user_id now ss

-- `user_repository.count_active_admins(excluding_id=…)`
unfoldable pub count_active_admins : List User → ℕ → ℕ
count_active_admins users excluding_id =
    count (λ u. is_admin u.role && u.is_active && not (u.id == excluding_id)) users

-- `_issue_pair`: the session row that it adds
unfoldable pub issue_pair : Db → User → Fresh → Db
issue_pair db user fresh = record db {
  sessions =
      db.sessions
      ++ record {
        user_id = user.id;
        jti = fresh.jti;
        expires_at = fresh.expires_at;
        last_used_at = none;
        revoked_at = none;
        rotated_at = none;
      }
        ∷ [];
}

-- what `refresh` does once the token has been decoded; what was committed before a raise stays
unfoldable pub rotate : Db → Claims → ℕ → Fresh → Db × Result AuthFailure User
rotate db claims now fresh = elim (get_session_by_jti db.sessions claims.jti) [
  | none ↦ (db, err token_invalid)
  | some stored ↦
      if not (is_usable stored now)
      then (
        record db {
          sessions = revoke_all_sessions stored.user_id now db.sessions;
          audits = db.audits + 1;
        },
        err session_reused,
      )
      else elim (get_by_id db.users stored.user_id) [
        | none ↦ (db, err missing_user)
        | some user ↦
            if not user.is_active
            then (db, err inactive_user)
            else if not (user.token_version == claims.token_version)
            then (db, err session_revoked)
            else (
              issue_pair
                  (record db {
                    sessions =
                        set_session
                          (record stored { rotated_at = some now; last_used_at = some now })
                          db.sessions;
                  })
                  user fresh,
              ok user,
            )
      ]
]

-- `logout` with a cookie that decodes
unfoldable pub logout : Db → Claims → ℕ → Db
logout db claims now = elim (get_session_by_jti db.sessions claims.jti) [
  | none ↦ db
  | some stored ↦
      if is_none stored.revoked_at
      then record db {
        sessions = set_session (record stored { revoked_at = some now }) db.sessions;
        audits = db.audits + 1;
      }
      else db
]

-- `logout_everywhere`
unfoldable pub logout_everywhere : Db → User → ℕ → Db
logout_everywhere db user now = record db {
  sessions = revoke_all_sessions user.id now db.sessions;
  users = set_user (record user { token_version = user.token_version + 1 }) db.users;
  audits = db.audits + 1;
}
