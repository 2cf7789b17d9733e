-- ===== src/Services/Login.antt =====
-- services/auth_service.py: login with its failure path, over the limiter of Security/RateLimiter.antt
-- and the database of Services/Auth.antt. `keys` are the keys of the user name and the address; one
-- call is short, so its readings of the clock are one instant. The hasher is another module: `hash`,
-- `verify` and `needs_rehash` are what the code calls of it. What the hasher takes in time is
-- not modelled but for the number of verifications.
pub mod Uniform
mod Tests
use caps_dash.Prelude.{
  ℕ, ◌+◌, String, String_key, Bool, true, false, not, ◌||◌, Option, none, some, List, [], ◌∷◌,
  if◌then◌else◌, Result, ok, err,
}
use caps_dash.Security.RateLimiter
use caps_dash.Security.RateLimiter.{SlidingWindowLimiter, Admission}
use caps_dash.Services.Auth.{User, Db, Fresh, set_user, issue_pair}
use caps_dash.Services.Users.{get_by_username}

pub data LoginFailure : Type 0 where
  refused : Admission → LoginFailure
  incorrect : LoginFailure

-- how the credentials fail, or whose they are
pub data Credentials : Type 0 where
  unknown_user rejected : Credentials
  accepted : User → Credentials

abbrev refusal_of : Admission → Option Admission
refusal_of Admission.admitted = none
refusal_of (Admission.limited retry) = some (Admission.limited retry)
refusal_of Admission.index_error = some Admission.index_error

-- `limiter.check(key)` for each key, up to the first that raises
unfoldable pub check_all :
    SlidingWindowLimiter → List String → ℕ → SlidingWindowLimiter × Option Admission
check_all l [] now = (l, none)
check_all l (key ∷ keys) now =
    let r = RateLimiter.check l key now now in
    let rest = check_all r.0 keys now in
    elim (refusal_of r.1) [ none ↦ rest | some refusal ↦ (r.0, some refusal) ]

-- the loops over `limiter.record` and `limiter.reset`
unfoldable pub record_all : SlidingWindowLimiter → List String → ℕ → SlidingWindowLimiter
record_all l [] now = l
record_all l (key ∷ keys) now = record_all (RateLimiter.record_event l key now now) keys now

unfoldable pub reset_keys : SlidingWindowLimiter → List String → SlidingWindowLimiter
reset_keys l [] = l
reset_keys l (key ∷ keys) = reset_keys (RateLimiter.reset l key) keys

module _ (hash : String → String) (verify : String → String → Bool)
    (needs_rehash : String → Bool) where
  -- `not user.is_active or not verify_password(…)`, with how often the hasher verifies for it
  unfoldable pub credentials_of : User → String → Credentials × ℕ
  credentials_of user password =
      if not user.is_active
      then (rejected, 0)
      else if not (verify user.password_hash password)
      then (rejected, 1)
      else (accepted user, 1)

  -- whose credentials these are; an unknown name costs one verification, the dummy one
  unfoldable pub authenticate : Db → String → String → Credentials × ℕ
  authenticate db username password = elim (get_by_username db.users username) [
    | none ↦ (unknown_user, 1)
    | some user ↦ credentials_of user password
  ]

  -- the row of the user after the login
  unfoldable pub logged_in : User → String → ℕ → User
  logged_in user password now = record user {
    password_hash = if needs_rehash user.password_hash then hash password else user.password_hash;
    last_login_at = some now;
  }

  -- what follows the checks of the limiter
  unfoldable pub finish_login :
      SlidingWindowLimiter
      → Db
      → List String
      → String
      → ℕ
      → Fresh
      → Credentials
      → SlidingWindowLimiter × Db × Result LoginFailure User
  finish_login l db keys password now fresh unknown_user =
      (record_all l keys now, db, err incorrect)
  finish_login l db keys password now fresh rejected = (record_all l keys now, db, err incorrect)
  finish_login l db keys password now fresh (accepted user) =
      let user' = logged_in user password now in
      let issued = issue_pair (record db { users = set_user user' db.users }) user' fresh in
      (reset_keys l keys, record issued { audits = issued.audits + 1 }, ok user')

  -- `login`
  unfoldable pub login :
      SlidingWindowLimiter
      → Db
      → List String
      → String
      → String
      → ℕ
      → Fresh
      → SlidingWindowLimiter × Db × Result LoginFailure User
  login l db keys username password now fresh =
      let checked = check_all l keys now in
      elim checked.1 [
        | some refusal ↦ (checked.0, db, err (refused refusal))
        | none ↦
            finish_login checked.0 db keys password now fresh (authenticate db username password).0
      ]
