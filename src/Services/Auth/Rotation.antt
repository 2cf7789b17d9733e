-- ===== src/Services/Auth/Rotation.antt =====
-- A decoded token and the rotation of its session in services/auth_service.py.
use caps_dash.Prelude.{
  ℕ, ◌+◌, ◌≡◌, refl, ap, ◌∙◌, String, String_key, ℕ_key, ◌==◌, true, false, some, List, ◌++◌, arith,
  ok, err, inl, inr, Option-cases,
}
use caps_dash.Services.Auth.{
  User, RefreshSession, Db, Claims, Fresh, session_reused, is_usable, get_session_by_jti, get_by_id,
  set_session, revoke_all_sessions, issue_pair, rotate,
}
use caps_dash.Services.Auth.Store.{
  AllClosed, revoke_all_sessions-AllClosed, get-set_session, jti-get_session,
}

-- a session that is not usable
pub rotate-replay :
    (db : Db) (claims : Claims) (now : ℕ) (fresh : Fresh) (stored : RefreshSession)
    → get_session_by_jti db.sessions claims.jti ≡ some stored
    → is_usable stored now ≡ false
    → ((rotate db claims now fresh).1 ≡ err session_reused)
      × AllClosed stored.user_id (rotate db claims now fresh).0.sessions
rotate-replay db claims now fresh stored found spent =
    let result : rotate db claims now fresh ≡ (
      record db {
        sessions = revoke_all_sessions stored.user_id now db.sessions;
        audits = db.audits + 1;
      },
      err session_reused,
    ) =
      unfold rotate in ground arith in
    rw result (refl, revoke_all_sessions-AllClosed stored.user_id now db.sessions)

-- what a successful refresh found, and the rows that it leaves
rotate-ok :
    (db : Db) (claims : Claims) (now : ℕ) (fresh : Fresh) (user : User)
    → (rotate db claims now fresh).1 ≡ ok user
    → (stored : RefreshSession) × (get_session_by_jti db.sessions claims.jti ≡ some stored)
      × (is_usable stored now ≡ true)
      × (get_by_id db.users stored.user_id ≡ some user)
      × (user.is_active ≡ true)
      × ((user.token_version == claims.token_version) ≡ true)
unfolding rotate
rotate-ok db claims now fresh user h =
    elim (Option-cases (get_session_by_jti db.sessions claims.jti)) [
      | inl missing ↦ absurd (ground arith)
      | inr (stored, found) ↦
          (stored, found, ground arith, ground arith, ground arith, ground arith)
    ]

rotated : RefreshSession → ℕ → RefreshSession
rotated s now = record s { rotated_at = some now; last_used_at = some now }

db-rotate :
    (db : Db) (claims : Claims) (now : ℕ) (fresh : Fresh) (user : User) (stored : RefreshSession)
    → (rotate db claims now fresh).1 ≡ ok user
    → get_session_by_jti db.sessions claims.jti ≡ some stored
    → (rotate db claims now fresh).0
      ≡ issue_pair
          (record db { sessions = set_session (rotated stored now) db.sessions })
          user
          fresh
unfolding rotate rotated
db-rotate db claims now fresh user stored h found = ground arith

get-rotated :
    (stored : RefreshSession) (now : ℕ) (ss added : List RefreshSession) (jti : String)
    → get_session_by_jti ss jti ≡ some stored
    → get_session_by_jti (set_session (rotated stored now) ss ++ added) jti
      ≡ some (rotated stored now)
unfolding rotated
get-rotated stored now ss added jti found =
    let name = jti-get_session ss jti stored found in
    rw (← name) (
      get-set_session (record stored { rotated_at = some now; last_used_at = some now }) ss added
        stored (rw (← name) at found))

rotated-spent :
    (stored : RefreshSession) (now later : ℕ) → is_usable (rotated stored now) later ≡ false
unfolding is_usable rotated
rotated-spent stored now later = ground arith

user-rotated : (stored : RefreshSession) (now : ℕ) → (rotated stored now).user_id ≡ stored.user_id
unfolding rotated
user-rotated stored now = refl

-- the same claims again, after a rotation that succeeded
pub rotate-rotate :
    (db : Db) (claims : Claims) (now later : ℕ) (fresh again : Fresh) (user : User)
    → (rotate db claims now fresh).1 ≡ ok user
    → ((rotate (rotate db claims now fresh).0 claims later again).1 ≡ err session_reused)
      × ((stored : RefreshSession) × (get_session_by_jti db.sessions claims.jti ≡ some stored)
          × AllClosed stored.user_id
              (rotate (rotate db claims now fresh).0 claims later again).0.sessions)
rotate-rotate db claims now later fresh again user h =
    let (stored, found, usable, owner, active, version) = rotate-ok db claims now fresh user h in
    let db' = (rotate db claims now fresh).0 in
    let kept : get_session_by_jti db'.sessions claims.jti ≡ some (rotated stored now) =
      ap (λ (d : Db). get_session_by_jti d.sessions claims.jti)
        (db-rotate db claims now fresh user stored h found)
      ∙ unfold issue_pair in get-rotated stored now db.sessions _ claims.jti found in
    let (refused, closed) =
      rotate-replay db' claims later again (rotated stored now) kept
        (rotated-spent stored now later) in
    (refused, (stored, found, rw (user-rotated stored now) at closed))
