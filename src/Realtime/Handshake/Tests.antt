-- ===== src/Realtime/Handshake/Tests.antt =====
-- Runs of the handshake, at concrete inputs.
use caps_dash.Prelude.{
  ℕ, String, ◌≡◌, some, none, [], ◌∷◌, Option, ltb, if◌then◌else◌, Result, ok, err, refl, true,
}
use caps_dash.Services.Auth.{User, security}
use caps_dash.Services.Users.{get_by_username}
use caps_dash.Security.Access.{
  JwtFailure, expired_signature, Payload, access_payload, claims_of, account_of, decoded,
  decode_token, resolve_user_from_token, assert_role, has_at_least, rank_of,
}
use caps_dash.Realtime.Handshake.{
  Value, object, text, field, end, authenticate_connection, extract_token, token_of, get_text,
  resolve_viewer, answer, AuthenticatedViewer,
}
use caps_dash.Realtime.Handshake.Admission.{Admitted, authenticate_connection-ok}

abbrev guard : User
guard = record {
  id = 4;
  username = "guard";
  password_hash = "h";
  display_name = "Guard";
  role = security;
  is_active = true;
  token_version = 2;
  last_login_at = none;
}

abbrev knows : Payload → ℕ → String → Result JwtFailure Payload
knows p t token = if ltb t p.exp then ok p else err expired_signature

-- every message is the handshake with the token "abc"
abbrev parses : String → Option Value
parses raw = some (object (field "type" (text "auth") (field "token" (text "abc") end)))

abbrev viewer : AuthenticatedViewer
viewer = record {
  user = record { id = 4; username = "guard"; role = "security"; display_name = "Guard" };
  expires_at = 1000;
}

authenticate_connection-ok_example :
    (raw token : String) × (some "hello" ≡ some raw)
    × (extract_token parses (knows (access_payload 15 guard 100)) raw ≡ some token)
    × Admitted (knows (access_payload 15 guard 100)) (guard ∷ []) token 300 301 viewer
unfolding authenticate_connection extract_token token_of get_text resolve_viewer answer
    resolve_user_from_token decode_token decoded claims_of account_of assert_role has_at_least
    rank_of get_by_username access_payload
authenticate_connection-ok_example =
    authenticate_connection-ok parses (knows (access_payload 15 guard 100)) (guard ∷ []) 300 301
      viewer (some "hello") refl
