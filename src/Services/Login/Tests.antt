-- ===== src/Services/Login/Tests.antt =====
-- An attempt at an account that does not exist, and the same with a wrong password.
use caps_dash.Prelude.{◌≡◌, refl, String, String_key, ◌==◌, Bool, true, false, none, [], ◌∷◌}
use caps_dash.Prelude.Dict
use caps_dash.Security.RateLimiter
use caps_dash.Security.RateLimiter.{SlidingWindowLimiter}
use caps_dash.Services.Auth.{User, Db, Fresh, resident}
use caps_dash.Services.Users.{get_by_username}
use caps_dash.Services.Login.{credentials_of, check_all, authenticate, finish_login, login}
use caps_dash.Services.Login.Uniform.{login_failure_uniform}

abbrev limiter : SlidingWindowLimiter
limiter = record { max_attempts = 3; window = 60; second = 1; events = [] }

abbrev lan : User
lan = record {
  id = 7;
  username = "lan";
  password_hash = "secret";
  display_name = "Lan";
  role = resident;
  is_active = true;
  token_version = 2;
  last_login_at = none;
}

abbrev nobody : Db
nobody = record { users = []; sessions = []; audits = 0 }

abbrev somebody : Db
somebody = record { users = lan ∷ []; sessions = []; audits = 0 }

abbrev closed_account : Db
closed_account = record { users = record lan { is_active = false } ∷ []; sessions = []; audits = 0 }

abbrev plain : String → String
plain password = password

abbrev matches : String → String → Bool
matches stored password = stored == password

abbrev never : String → Bool
never stored = false

abbrev fresh : Fresh
fresh = record { jti = "c"; expires_at = 200 }

login_failure_uniform_example :
    ((login plain matches never limiter nobody ("user:lan" ∷ []) "lan" "guess" 10 fresh).2
      ≡ (login plain matches never limiter somebody ("user:lan" ∷ []) "lan" "guess" 10 fresh).2)
    × ((login plain matches never limiter nobody ("user:lan" ∷ []) "lan" "guess" 10 fresh).0
        ≡ (login plain matches never limiter somebody ("user:lan" ∷ []) "lan" "guess" 10 fresh).0)
    × ((login plain matches never limiter nobody ("user:lan" ∷ []) "lan" "guess" 10 fresh).1
        ≡ nobody)
unfolding login finish_login check_all authenticate credentials_of get_by_username RateLimiter.check
    RateLimiter.prune RateLimiter.admission RateLimiter.events_of RateLimiter.drop_expired Dict.get
    Dict.put
login_failure_uniform_example =
    login_failure_uniform plain matches never limiter nobody somebody ("user:lan" ∷ []) "lan"
      "guess" 10 fresh refl refl

-- the number of verifications: one for an unknown name, none for an account that is not active
verifications :
    ((authenticate plain matches never nobody "lan" "guess").1 ≡ 1)
    × ((authenticate plain matches never closed_account "lan" "guess").1 ≡ 0)
unfolding authenticate get_by_username credentials_of
verifications = (refl, refl)
