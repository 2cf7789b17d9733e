-- ===== src/Services/Retention/Swept.antt =====
-- The sweep of refresh sessions (services/retention_service.py), and a refresh after it
-- (services/auth_service.py).
use caps_dash.Prelude.{
  ok, not, ◌<◌, Result, inr, inl, Bool-cases, ap, ◌∙◌, err, ℕ, ◌≡◌, refl, String, String_key,
  Option, none, some, List, [], ◌∷◌, if◌then◌else◌, arith, eq_iff,
}
use caps_dash.Services.Auth.{
  AuthFailure, token_invalid, Fresh, Claims, Db, User, rotate, RefreshSession, is_usable,
  get_session_by_jti,
}
use caps_dash.Services.Refresh.{answer, to_claims, not_rotated, refresh}
use caps_dash.Services.Refresh.Replay.{spent, refresh-decodes}
use caps_dash.Security.Access.{decode_token, TokenClaims, Payload, JwtFailure, TokenType}
use caps_dash.Services.Retention.{purge_expired_refresh_sessions}

-- `jti` is unique
abbrev pub DistinctJti : List RefreshSession → Type 0
DistinctJti [] = Unit
DistinctJti (s ∷ ss) = (get_session_by_jti ss s.jti ≡ none) × DistinctJti ss

abbrev pub usable_only : ℕ → Option RefreshSession → Option RefreshSession
usable_only now none = none
usable_only now (some s) = if is_usable s now then some s else none

-- a row stays exactly as long as its token is usable
get-purge_expired_refresh_sessions :
    (now : ℕ) (sessions : List RefreshSession) (jti : String)
    → DistinctJti sessions
    → get_session_by_jti (purge_expired_refresh_sessions now sessions) jti
      ≡ usable_only now (get_session_by_jti sessions jti)
unfolding get_session_by_jti purge_expired_refresh_sessions is_usable
get-purge_expired_refresh_sessions now [] jti d = refl
get-purge_expired_refresh_sessions now (s ∷ ss) jti (fresh, d) =
    ground (arith, get-purge_expired_refresh_sessions now ss jti d, eq_iff s.jti jti)

abbrev pub swept : ℕ → Db → Db
swept moment db = record db { sessions = purge_expired_refresh_sessions moment db.sessions }

rotate-none :
    (db : Db) (claims : Claims) (now : ℕ) (fresh : Fresh)
    → get_session_by_jti db.sessions claims.jti ≡ none
    → rotate db claims now fresh ≡ (db, err token_invalid)
unfolding rotate
rotate-none db claims now fresh h = ground arith

-- the answer depends on the sessions only by the row of the token
rotate-same :
    (db db' : Db) (claims : Claims) (now : ℕ) (fresh : Fresh) (stored : RefreshSession)
    → get_session_by_jti db.sessions claims.jti ≡ some stored
    → get_session_by_jti db'.sessions claims.jti ≡ some stored
    → db'.users ≡ db.users
    → (rotate db' claims now fresh).1 ≡ (rotate db claims now fresh).1
unfolding rotate
rotate-same db db' claims now fresh stored h h' same = ground arith

usable-spent :
    (s : RefreshSession) (moment : ℕ) → moment < s.expires_at → is_usable s moment ≡ not (spent s)
unfolding is_usable
usable-spent s moment h = ground arith

module _ (decode : ℕ → String → Result JwtFailure Payload) where
  -- The sweep changes no answer for a token that still decodes and whose session was, at the moment of
  -- the sweep, neither expired, rotated nor revoked. A token that still decodes but was rotated or
  -- revoked by then is refused as invalid, as an unknown one is, and its replay closes no session any
  -- more.
  pub swept-refresh :
      (db : Db) (token : String) (claims : TokenClaims) (moment now : ℕ) (fresh : Fresh)
      (stored : RefreshSession)
      → DistinctJti db.sessions
      → decode_token decode token TokenType.refresh now ≡ ok claims
      → get_session_by_jti db.sessions claims.jti ≡ some stored
      → moment < stored.expires_at
      → ((refresh decode (swept moment db) token now fresh).1 ≡ (
          if spent stored
          then err (not_rotated token_invalid)
          else (refresh decode db token now fresh).1))
        × ((if spent stored
              then (refresh decode (swept moment db) token now fresh).0
              else swept moment db)
            ≡ swept moment db)
  swept-refresh db token claims moment now fresh stored d decodes found alive =
      let row =
        get-purge_expired_refresh_sessions moment db.sessions claims.jti d
        ∙ ap (usable_only moment) found in
      let usable = usable-spent stored moment alive in
      rw
        (
          refresh-decodes decode (swept moment db) token claims now fresh decodes,
          refresh-decodes decode db token claims now fresh decodes,
        )
        (elim (Bool-cases (spent stored)) [
          | inl gone ↦
              let nothing : get_session_by_jti (swept moment db).sessions claims.jti ≡ none =
                ground arith in
              let result = rotate-none (swept moment db) (to_claims claims) now fresh nothing in
              rw gone (
                ap (λ (r : Db × Result AuthFailure User). answer r.1) result,
                ap (λ (r : Db × Result AuthFailure User). r.0) result,
              )
          | inr live ↦
              let kept : get_session_by_jti (swept moment db).sessions claims.jti ≡ some stored =
                ground arith in
              rw live (
                ap answer (
                    rotate-same db (swept moment db) (to_claims claims) now fresh stored found kept
                      refl),
                refl,
              )
        ])
