-- ===== src/Services/Users/Tests.antt =====
-- Runs of user administration on an administrator and a resident.
use caps_dash.Prelude.{
  Bool, ◌<◌, refl, String, String_key, ℕ_key, ◌==◌, true, none, some, [], ◌∷◌, arith,
}
use caps_dash.Services.Auth.{User, RefreshSession, Db, resident, admin, get_by_id}
use caps_dash.Services.Users.{update_user}
use caps_dash.Services.Users.LastAdmin.{active_admins, update_user-active_admins}

abbrev minh : User
minh = record {
  id = 1;
  username = "minh";
  password_hash = "old secret";
  display_name = "Minh";
  role = admin;
  is_active = true;
  token_version = 0;
  last_login_at = none;
}

abbrev lan : User
lan = record {
  id = 7;
  username = "lan";
  password_hash = "h";
  display_name = "Lan";
  role = resident;
  is_active = true;
  token_version = 2;
  last_login_at = none;
}

abbrev minh_row : RefreshSession
minh_row = record {
  user_id = 1;
  jti = "a";
  expires_at = 100;
  last_used_at = none;
  revoked_at = none;
  rotated_at = none;
}

abbrev site : Db
site = record { users = minh ∷ lan ∷ []; sessions = minh_row ∷ []; audits = 0 }

update_user-active_admins_example :
    0 < active_admins (update_user site 1 none (some resident) none 10).0.users
unfolding get_by_id
update_user-active_admins_example =
    update_user-active_admins site 1 none (some resident) none 10 (refl, (refl, tt)) (omega arith)

-- a hash that stores the password as it is
abbrev plain : String → String
plain password = password

abbrev matches : String → String → Bool
matches stored password = stored == password
