-- ===== src/Realtime/Handshake.antt =====
-- realtime/ws_auth.py: the authentication handshake of the live view, with the reasons of
-- realtime/close_codes.py. `loads` is `json.loads`, `none` where it raises; `decode` is PyJWT's.
pub mod Admission
mod Tests
use caps_dash.Prelude.{
  ℕ, String, String_key, ◌==◌, Bool, Option, none, some, List, ltb, if◌then◌else◌, Result, ok, err,
  ◌>>=◌,
}
use caps_dash.Services.Auth.{User, security}
use caps_dash.Services.Users.{text_length}
use caps_dash.Security.Access.{
  JwtFailure, Payload, access, AuthError, token_expired, forbidden, CurrentUser, decode_token,
  resolve_user_from_token, assert_role,
}

-- A parsed message, as far as the handshake looks into it.
mutual
  pub data Value : Type 0 where
    text : String → Value
    object : Fields → Value
    other : Value

  pub data Fields : Type 0 where
    end : Fields
    field : String → Value → Fields → Fields

-- `message.get(key)`, of a text
pub get_text : String → Fields → Option String
get_text key end = none
get_text key (field name (text value) rest) = if name == key then some value else get_text key rest
get_text key (field name v rest) = if name == key then none else get_text key rest

abbrev pub max_auth_message_bytes : ℕ
max_auth_message_bytes = 4096

-- What `authenticate_connection` closes the socket with.
pub data CloseReason : Type 0 where
  auth_timeout auth_invalid reason_token_expired reason_forbidden : CloseReason

pub record AuthenticatedViewer : Type 0 where
  pub user : CurrentUser
  pub expires_at : ℕ

abbrev pub non_empty : Option String → Option String
non_empty none = none
non_empty (some token) = if token == "" then none else some token

-- the checks of `_extract_token` on the parsed message
pub token_of : Option Value → Option String
token_of none = none
token_of (some (text s)) = none
token_of (some other) = none
token_of (some (object fields)) = elim (get_text "type" fields) [
  | none ↦ none
  | some kind ↦ if kind == "auth" then non_empty (get_text "token" fields) else none
]

-- `_reason_for`: 403 first, then the code's ending
unfoldable pub reason_for : AuthError → CloseReason
reason_for forbidden = reason_forbidden
reason_for token_expired = reason_token_expired
reason_for _ = auth_invalid

-- the close that a failure leads to
pub answer : Result AuthError AuthenticatedViewer → Result CloseReason AuthenticatedViewer
answer (err failure) = err (reason_for failure)
answer (ok viewer) = ok viewer

module _ (loads : String → Option Value) (decode : ℕ → String → Result JwtFailure Payload) where
  pub extract_token : String → Option String
  extract_token raw =
      if ltb max_auth_message_bytes (text_length raw) then none else token_of (loads raw)

  -- the token is decoded twice, the second time at a later instant
  pub resolve_viewer : List User → String → ℕ → ℕ → Result AuthError AuthenticatedViewer
  resolve_viewer users token now later = do
    claims ← decode_token decode token access now
    user ← resolve_user_from_token decode users token later
    checked ← assert_role user security
    ok (record { user = user; expires_at = claims.expires_at })

  -- `authenticate_connection`: `none` is a client that timed out or hung up; the answer is the
  -- viewer, or the reason of the close
  pub authenticate_connection :
      List User → Option String → ℕ → ℕ → Result CloseReason AuthenticatedViewer
  authenticate_connection users none now later = err auth_timeout
  authenticate_connection users (some raw) now later = elim (extract_token raw) [
    | none ↦ err auth_invalid
    | some token ↦ answer (resolve_viewer users token now later)
  ]
