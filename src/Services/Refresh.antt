-- ===== src/Services/Refresh.antt =====
-- services/auth_service.py: `refresh`, from the cookie's token on: it is decoded by
-- security/jwt_tokens.py, and what it names is rotated. One call is short, so its readings of the clock are
-- one instant.
pub mod Replay
mod Tests
use caps_dash.Prelude.{ℕ, String, Result, ok, err}
use caps_dash.Services.Auth.{User, Db, Claims, Fresh, AuthFailure, rotate}
use caps_dash.Security.Access.{JwtFailure, Payload, TokenType, TokenClaims, AuthError, decode_token}

-- the AuthError of the decoding, or of the rotation
pub data RefreshFailure : Type 0 where
  not_decoded : AuthError → RefreshFailure
  not_rotated : AuthFailure → RefreshFailure

-- what the rotation reads of the claims
abbrev pub to_claims : TokenClaims → Claims
to_claims c = record { jti = c.jti; token_version = c.token_version }

abbrev pub answer : Result AuthFailure User → Result RefreshFailure User
answer (err failure) = err (not_rotated failure)
answer (ok user) = ok user

pub refresh_decoded :
    Db → Result AuthError TokenClaims → ℕ → Fresh → Db × Result RefreshFailure User
refresh_decoded db (err failure) now fresh = (db, err (not_decoded failure))
refresh_decoded db (ok claims) now fresh =
    let rotated = rotate db (to_claims claims) now fresh in (rotated.0, answer rotated.1)

-- `refresh`
unfoldable pub refresh :
    (ℕ → String → Result JwtFailure Payload)
    → Db
    → String
    → ℕ
    → Fresh
    → Db × Result RefreshFailure User
refresh decode db token now fresh =
    refresh_decoded db (decode_token decode token TokenType.refresh now) now fresh
