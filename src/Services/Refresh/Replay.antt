-- ===== src/Services/Refresh/Replay.antt =====
-- A refresh token that is presented again (services/auth_service.py).
use caps_dash.Prelude.{
  sym, refl, some, err, ok, arith, ◌&&◌, false, not, Result, true, String, ◌≡◌, Bool, ℕ, ap, ◌∙◌,
  String_key,
}
use caps_dash.Services.Auth.{
  session_reused, rotate, get_session_by_jti, Fresh, User, Db, AuthFailure, is_usable,
  RefreshSession, is_none,
}
use caps_dash.Services.Auth.Store.{AllClosed}
use caps_dash.Services.Auth.Rotation.{rotate-replay, rotate-rotate}
use caps_dash.Services.Refresh.{to_claims, not_rotated, answer, refresh, refresh_decoded}
use caps_dash.Security.Access.{decode_token, TokenClaims, Payload, JwtFailure, TokenType}

-- rotated or revoked
abbrev pub spent : RefreshSession → Bool
spent s = not (is_none s.revoked_at && is_none s.rotated_at)

is_usable-spent : (s : RefreshSession) (now : ℕ) → spent s ≡ true → is_usable s now ≡ false
unfolding is_usable
is_usable-spent s now h = ground arith

module _ (decode : ℕ → String → Result JwtFailure Payload) where
  pub refresh-decodes :
      (db : Db) (token : String) (claims : TokenClaims) (now : ℕ) (fresh : Fresh)
      → decode_token decode token TokenType.refresh now ≡ ok claims
      → refresh decode db token now fresh ≡ (
        (rotate db (to_claims claims) now fresh).0,
        answer (rotate db (to_claims claims) now fresh).1,
      )
  unfolding refresh refresh_decoded
  refresh-decodes db token claims now fresh decodes = rw decodes refl

  -- A token that still decodes and whose session was rotated or revoked is refused as a replay, and then
  -- no session of its user can be refreshed any more.
  pub refresh-replay :
      (db : Db) (token : String) (claims : TokenClaims) (now : ℕ) (fresh : Fresh)
      (stored : RefreshSession)
      → decode_token decode token TokenType.refresh now ≡ ok claims
      → get_session_by_jti db.sessions claims.jti ≡ some stored
      → spent stored ≡ true
      → ((refresh decode db token now fresh).1 ≡ err (not_rotated session_reused))
        × AllClosed stored.user_id (refresh decode db token now fresh).0.sessions
  refresh-replay db token claims now fresh stored decodes found gone =
      let (refused, closed) =
        rotate-replay db (to_claims claims) now fresh stored found
          (is_usable-spent stored now gone) in
      rw (refresh-decodes db token claims now fresh decodes) (ap answer refused, closed)

  answer-ok : (r : Result AuthFailure User) (user : User) → answer r ≡ ok user → r ≡ ok user
  answer-ok (err failure) user h = absurd (ground arith)
  answer-ok (ok found) user h = ground arith

  -- A refresh token works once. Directly after a successful refresh the same token, if it still decodes
  -- to the same claims, is refused as a replay, whatever would be issued, and every session of its user
  -- is closed, the one that the first refresh issued included.
  pub refresh-refresh :
      (db : Db) (token : String) (claims : TokenClaims) (now later : ℕ) (fresh again : Fresh)
      (user : User)
      → decode_token decode token TokenType.refresh now ≡ ok claims
      → decode_token decode token TokenType.refresh later ≡ ok claims
      → (refresh decode db token now fresh).1 ≡ ok user
      → ((refresh decode (refresh decode db token now fresh).0 token later again).1
          ≡ err (not_rotated session_reused))
        × ((stored : RefreshSession) × (get_session_by_jti db.sessions claims.jti ≡ some stored)
            × AllClosed stored.user_id
                (refresh decode (refresh decode db token now fresh).0 token later again).0.sessions)
  refresh-refresh db token claims now later fresh again user decodes redecodes h =
      let first = refresh-decodes db token claims now fresh decodes in
      let rotated = answer-ok _ user (sym (ap (λ r. r.1) first) ∙ h) in
      let (refused, (stored, found, closed)) =
        rotate-rotate db (to_claims claims) now later fresh again user rotated in
      rw first (
        rw
          (refresh-decodes (rotate db (to_claims claims) now fresh).0 token claims later again
            redecodes)
          (ap answer refused, (stored, found, closed)))
