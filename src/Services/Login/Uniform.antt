-- ===== src/Services/Login/Uniform.antt =====
-- What a failed login tells the one who tries.
use caps_dash.Prelude.{
  ℕ, ◌≡◌, refl, ap, ◌∙◌, sym, String, Bool, true, false, none, some, List, arith, Result, ok, err,
  Option-cases, inl, inr,
}
use caps_dash.Security.RateLimiter.{SlidingWindowLimiter}
use caps_dash.Services.Auth.{User, Db, Fresh}
use caps_dash.Services.Login.{
  rejected, unknown_user, accepted, Credentials, LoginFailure, refused, incorrect, check_all,
  record_all, authenticate, finish_login, login,
}

abbrev pub failed : Result LoginFailure User → Bool
failed (err e) = true
failed (ok user) = false

-- what a failed login leaves and answers, which is a function of the limiter alone
failure : SlidingWindowLimiter → List String → ℕ → SlidingWindowLimiter × Result LoginFailure User
failure l keys now = elim (check_all l keys now).1 [
  | some refusal ↦ ((check_all l keys now).0, err (refused refusal))
  | none ↦ (record_all (check_all l keys now).0 keys now, err incorrect)
]

module _ (hash : String → String) (verify : String → String → Bool)
    (needs_rehash : String → Bool) where
  finish_login-failure :
      (l : SlidingWindowLimiter) (db : Db) (keys : List String) (password : String) (now : ℕ)
      (fresh : Fresh) (found : Credentials)
      → failed (finish_login hash verify needs_rehash l db keys password now fresh found).2 ≡ true
      → finish_login hash verify needs_rehash l db keys password now fresh found
        ≡ (record_all l keys now, db, err incorrect)
  unfolding finish_login
  finish_login-failure l db keys password now fresh unknown_user h = refl
  finish_login-failure l db keys password now fresh rejected h = refl
  finish_login-failure l db keys password now fresh (accepted user) h = absurd (ground arith)

  login-failure :
      (l : SlidingWindowLimiter) (db : Db) (keys : List String) (username password : String)
      (now : ℕ) (fresh : Fresh)
      → failed (login hash verify needs_rehash l db keys username password now fresh).2 ≡ true
      → login hash verify needs_rehash l db keys username password now fresh
        ≡ ((failure l keys now).0, db, (failure l keys now).1)
  unfolding login failure
  login-failure l db keys username password now fresh h =
      elim (Option-cases (check_all l keys now).1) [
        | inr (refusal, limited) ↦ ground arith
        | inl free ↦ ground (
          arith,
          finish_login-failure (check_all l keys now).0 db keys password now fresh
              (authenticate hash verify needs_rehash db username password).0,
        )
      ]

  -- If the same attempt to log in fails on two databases, because of an unknown name, a wrong password,
  -- an account that is not active or the limiter, on each for a reason of its own, then the answer and
  -- the state of the limiter are the same on both, and the first database is not changed. How long the
  -- attempt takes is not compared.
  pub login_failure_uniform :
      (l : SlidingWindowLimiter) (db other : Db) (keys : List String) (username password : String)
      (now : ℕ) (fresh : Fresh)
      → failed (login hash verify needs_rehash l db keys username password now fresh).2 ≡ true
      → failed (login hash verify needs_rehash l other keys username password now fresh).2 ≡ true
      → ((login hash verify needs_rehash l db keys username password now fresh).2
          ≡ (login hash verify needs_rehash l other keys username password now fresh).2)
        × ((login hash verify needs_rehash l db keys username password now fresh).0
            ≡ (login hash verify needs_rehash l other keys username password now fresh).0)
        × ((login hash verify needs_rehash l db keys username password now fresh).1 ≡ db)
  login_failure_uniform l db other keys username password now fresh h k =
      let here = login-failure l db keys username password now fresh h in
      let there = login-failure l other keys username password now fresh k in
      (
        ap (λ r. r.2) here ∙ sym (ap (λ r. r.2) there),
        ap (λ r. r.0) here ∙ sym (ap (λ r. r.0) there),
        ap (λ r. r.1) here,
      )
