-- ===== src/Services/Auth/Store.antt =====
-- Reading back what was written to the session and user rows.
use mathlib.Core.Option
use caps_dash.Prelude.{
  ℕ, ◌≡◌, refl, String, String_key, ℕ_key, false, some, List, [], ◌∷◌, ◌++◌, arith, All, eq_iff,
}
use caps_dash.Services.Auth.{
  RefreshSession, is_usable, get_session_by_jti, set_session, revoke_one, revoke_all_sessions,
}

-- No session of the user can be used to refresh, at any time.
abbrev pub AllClosed : ℕ → List RefreshSession → Type 0
AllClosed user_id = All (λ s. s.user_id ≡ user_id → (now : ℕ) → is_usable s now ≡ false)

revoke_one-closed :
    (user_id now : ℕ) (s : RefreshSession)
    → (revoke_one user_id now s).user_id ≡ user_id
    → (later : ℕ) → is_usable (revoke_one user_id now s) later ≡ false
unfolding revoke_one is_usable
revoke_one-closed user_id now s h later = ground arith

pub revoke_all_sessions-AllClosed :
    (user_id now : ℕ) (ss : List RefreshSession)
    → AllClosed user_id (revoke_all_sessions user_id now ss)
unfolding revoke_all_sessions
revoke_all_sessions-AllClosed user_id now [] = tt
revoke_all_sessions-AllClosed user_id now (s ∷ ss) =
    (revoke_one-closed user_id now s, revoke_all_sessions-AllClosed user_id now ss)

jti-revoke_one : (user_id now : ℕ) (s : RefreshSession) → (revoke_one user_id now s).jti ≡ s.jti
unfolding revoke_one
jti-revoke_one user_id now s = ground arith

-- Revoking touches the sessions of the one user only, and removes none.
pub get-revoke_all_sessions :
    (user_id now : ℕ) (ss : List RefreshSession) (jti : String)
    → get_session_by_jti (revoke_all_sessions user_id now ss) jti
      ≡ Option.map (revoke_one user_id now) (get_session_by_jti ss jti)
unfolding revoke_all_sessions get_session_by_jti
get-revoke_all_sessions user_id now [] jti = refl
get-revoke_all_sessions user_id now (s ∷ ss) jti =
    ground (arith, jti-revoke_one user_id now s, get-revoke_all_sessions user_id now ss jti)

-- A row that is written is the row that is read, also when other rows are added behind it.
pub get-set_session :
    (s : RefreshSession) (ss added : List RefreshSession) (old : RefreshSession)
    → get_session_by_jti ss s.jti ≡ some old
    → get_session_by_jti (set_session s ss ++ added) s.jti ≡ some s
unfolding set_session get_session_by_jti
get-set_session s [] added old h = absurd (ground arith)
get-set_session s (t ∷ ts) added old h =
    ground (arith, get-set_session s ts added old, eq_iff s.jti s.jti)

pub jti-get_session :
    (ss : List RefreshSession) (jti : String) (s : RefreshSession)
    → get_session_by_jti ss jti ≡ some s
    → s.jti ≡ jti
unfolding get_session_by_jti
jti-get_session [] jti s h = absurd (ground arith)
jti-get_session (t ∷ ts) jti s h = ground (arith, jti-get_session ts jti s, eq_iff t.jti jti)
