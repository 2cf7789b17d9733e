-- ===== src/Services/Users/Passwords.antt =====
-- Password changes in services/user_service.py.
use caps_dash.Prelude.{
  ◌⊎◌, ℕ, ◌≡◌, refl, String, String_key, ℕ_key, Bool, true, arith, ok, inl, inr, Bool-cases,
}
use caps_dash.Services.Auth.{User, Db, revoke_all_sessions}
use caps_dash.Services.Auth.Store.{AllClosed, revoke_all_sessions-AllClosed}
use caps_dash.Services.Users.{valid_password, end_sessions, apply_new_password, change_own_password}

module _ (hash : String → String) (verify : String → String → Bool) where
  sessions-apply :
      (db : Db) (user : User) (new_password : String) (now : ℕ)
      → (apply_new_password hash verify db user new_password now).sessions
        ≡ revoke_all_sessions user.id now db.sessions
  unfolding apply_new_password end_sessions
  sessions-apply db user new_password now = refl

  change-accepted :
      (db : Db) (user : User) (current_password new_password : String) (now : ℕ)
      → verify user.password_hash current_password ≡ true
      → valid_password new_password ≡ true
      → change_own_password hash verify db user current_password new_password now
        ≡ (apply_new_password hash verify db user new_password now, ok tt)
  unfolding change_own_password
  change-accepted db user current_password new_password now right long = ground arith

  -- Changing one's password needs the current one and a valid new one, and else changes nothing;
  -- when it succeeds, every session of the user is closed.
  pub change_own_password-AllClosed :
      (db : Db) (user : User) (current_password new_password : String) (now : ℕ)
      → (((change_own_password hash verify db user current_password new_password now).1 ≡ ok tt)
          × (verify user.password_hash current_password ≡ true)
          × (valid_password new_password ≡ true)
          × AllClosed user.id
              (change_own_password hash verify db user current_password new_password
                now).0.sessions)
        ⊎ ((change_own_password hash verify db user current_password new_password now).0 ≡ db)
  change_own_password-AllClosed db user current_password new_password now =
      elim (Bool-cases (verify user.password_hash current_password)) [
        | inr wrong ↦ inr (unfold change_own_password in ground arith)
        | inl right ↦ elim (Bool-cases (valid_password new_password)) [
          | inr short ↦ inr (unfold change_own_password in ground arith)
          | inl long ↦ inl (
            rw (change-accepted db user current_password new_password now right long) refl,
            right,
            long,
            rw
                (
                  change-accepted db user current_password new_password now right long,
                  sessions-apply db user new_password now,
                )
                (revoke_all_sessions-AllClosed user.id now db.sessions),
          )
        ]
      ]
