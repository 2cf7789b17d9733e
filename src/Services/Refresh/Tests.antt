-- ===== src/Services/Refresh/Tests.antt =====
-- Runs of `refresh` on two sessions of one user.
use caps_dash.Prelude.{
  ok, refl, ltb, if◌then◌else◌, err, some, [], true, ◌≡◌, none, Result, ◌∷◌, ℕ, String, String_key,
  ℕ_key,
}
use caps_dash.Services.Auth.Store.{AllClosed}
use caps_dash.Services.Auth.{
  session_reused, is_usable, resident, get_session_by_jti, User, RefreshSession, Db, Fresh,
  get_by_id, rotate,
}
use caps_dash.Services.Refresh.{not_rotated, not_decoded, refresh, refresh_decoded}
use caps_dash.Services.Refresh.Replay.{refresh-replay, refresh-refresh}
use caps_dash.Security.Access.{
  expired_signature, token_expired, Payload, JwtFailure, TokenType, TokenClaims, decoded,
  decode_token, refresh_payload, claims_of,
}

abbrev lan : User
lan = record {
  id = 7;
  username = "lan";
  password_hash = "h";
  display_name = "Lan";
  role = resident;
  is_active = true;
  token_version = 2;
  last_login_at = none;
}

abbrev open_row : RefreshSession
open_row = record {
  user_id = 7;
  jti = "a";
  expires_at = 100;
  last_used_at = none;
  revoked_at = none;
  rotated_at = none;
}

abbrev spent_row : RefreshSession
spent_row = record {
  user_id = 7;
  jti = "b";
  expires_at = 100;
  last_used_at = none;
  revoked_at = none;
  rotated_at = some 3;
}

abbrev two_sessions : Db
two_sessions = record { users = lan ∷ []; sessions = open_row ∷ spent_row ∷ []; audits = 0 }

abbrev fresh_pair : Fresh
fresh_pair = record { jti = "c"; expires_at = 200 }

-- a decoder to which a token is the identifier of its session; the tokens are valid until 200
abbrev decoder : ℕ → String → Result JwtFailure Payload
decoder t jti = if ltb t 200 then ok (refresh_payload 0 lan jti 10) else err expired_signature

abbrev claims : String → TokenClaims
claims jti = record {
  subject = "lan";
  token_type = TokenType.refresh;
  token_version = 2;
  role = "";
  jti = jti;
  expires_at = 10;
}

refresh-replay_example :
    ((refresh decoder two_sessions "b" 10 fresh_pair).1 ≡ err (not_rotated session_reused))
    × AllClosed 7 (refresh decoder two_sessions "b" 10 fresh_pair).0.sessions
unfolding get_session_by_jti decode_token decoded claims_of refresh_payload
refresh-replay_example =
    refresh-replay decoder two_sessions "b" (claims "b") 10 fresh_pair spent_row refl refl refl

refresh-refresh_example :
    ((refresh decoder (refresh decoder two_sessions "a" 10 fresh_pair).0 "a" 20 fresh_pair).1
      ≡ err (not_rotated session_reused))
    × ((stored : RefreshSession) × (get_session_by_jti two_sessions.sessions "a" ≡ some stored)
        × AllClosed stored.user_id
            (refresh decoder
              (refresh decoder two_sessions "a" 10 fresh_pair).0
              "a"
              20
              fresh_pair).0.sessions)
unfolding get_session_by_jti is_usable rotate get_by_id decode_token decoded claims_of
    refresh_payload refresh refresh_decoded
refresh-refresh_example =
    refresh-refresh decoder two_sessions "a" (claims "a") 10 20 fresh_pair fresh_pair lan refl refl
      refl

-- once it has expired, a token that was rotated is refused as expired, and nothing is closed
expired_replay :
    refresh decoder two_sessions "b" 300 fresh_pair
    ≡ (two_sessions, err (not_decoded token_expired))
unfolding refresh refresh_decoded decode_token decoded
expired_replay = refl
