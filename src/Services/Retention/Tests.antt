-- ===== src/Services/Retention/Tests.antt =====
-- Runs of the purge and of the sweep, at concrete inputs.
use caps_dash.Prelude.{
  ok, Result, String, ℕ, ◌≡◌, refl, true, false, some, none, List, [], ◌∷◌, arith, err,
}
use caps_dash.Services.Auth.{Db as AuthDb, RefreshSession, Fresh, token_invalid, get_session_by_jti}
use caps_dash.Services.Retention.{days_in_month, months_before, Row, Db, purge, counted, Date}
use caps_dash.Services.Retention.Purged.{retained, purge_lem}
use caps_dash.Services.Refresh.{not_rotated, refresh}
use caps_dash.Security.Access.{
  Payload, JwtFailure, decoded, TokenType, TokenClaims, decode_token, claims_of,
}
use caps_dash.Services.Retention.Swept.{swept, swept-refresh}

abbrev row : ℕ → ℕ → Row
row id at = record { id = id; at = at }

abbrev rows : List Row
rows = row 1 5 ∷ row 2 50 ∷ row 3 6 ∷ row 4 7 ∷ []

abbrev tables : Db
tables = record {
  history = rows;
  alerts =
      record { id = 1; created_at = 3; acknowledged_at = none }
      ∷ record { id = 2; created_at = 4; acknowledged_at = some 5 }
      ∷ [];
  plate_reads = row 9 2 ∷ [];
  audits = 0;
}

purge_lem_example :
    (purge 4 false 10 tables ≡ some (retained 10 tables, counted 10 tables))
    × (purge 4 true 10 tables ≡ some (record tables { audits = 1 }, counted 10 tables))
purge_lem_example = purge_lem 4 10 tables (omega arith) (refl, (refl, (refl, (refl, tt))))

abbrev date : ℕ → ℕ → ℕ → Date
date year month day = record { year = year; month = month; day = day }

-- a session that was rotated at 20
abbrev rotated_session : RefreshSession
rotated_session = record {
  user_id = 1;
  jti = "a";
  expires_at = 900;
  last_used_at = some 20;
  revoked_at = none;
  rotated_at = some 20;
}

abbrev sessions_db : AuthDb
sessions_db = record { users = []; sessions = rotated_session ∷ []; audits = 0 }

abbrev claims : TokenClaims
claims = record {
  subject = "lan";
  token_type = TokenType.refresh;
  token_version = 0;
  role = "";
  jti = "a";
  expires_at = 900;
}

abbrev fresh : Fresh
fresh = record { jti = "b"; expires_at = 990 }

-- a decoder to which a token is the identifier of its session
abbrev decoder : ℕ → String → Result JwtFailure Payload
decoder t jti = ok (record {
  sub = "lan";
  role = none;
  tv = none;
  jti = some jti;
  typ = "refresh";
  iat = 10;
  exp = 900;
})

swept-refresh_example :
    ((refresh decoder (swept 30 sessions_db) "a" 40 fresh).1 ≡ err (not_rotated token_invalid))
    × ((refresh decoder (swept 30 sessions_db) "a" 40 fresh).0 ≡ swept 30 sessions_db)
unfolding get_session_by_jti decode_token decoded claims_of
swept-refresh_example =
    swept-refresh decoder sessions_db "a" claims 30 40 fresh rotated_session (refl, tt) refl refl
      (omega arith)

-- six months before the last day of August: there is no 31 February
months_before_run : months_before (date 2026 8 31) 6 ≡ some (date 2026 2 28)
unfolding months_before days_in_month
months_before_run = refl
