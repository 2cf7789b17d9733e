-- ===== src/Services/Users/LastAdmin.antt =====
-- The guard of `update_user` in services/user_service.py.
use caps_dash.Prelude.{
  ℕ, ◌+◌, ◌≤◌, ◌<◌, ◌≡◌, refl, ap, ◌∙◌, String, String_key, ℕ_key, Bool, false, ◌&&◌, Option, none,
  some, List, [], ◌∷◌, arith, if◌then◌else◌, inl, inr, Bool-cases, Option-cases, count,
}
use caps_dash.Services.Auth.{User, UserRole, is_admin, Db, get_by_id, set_user, count_active_admins}
use caps_dash.Services.Users.{is_last_admin, edited, update_user}

-- The ids of the users are distinct, as the primary key makes them.
abbrev pub DistinctIds : List User → Type 0
DistinctIds [] = Unit
DistinctIds (u ∷ us) = (get_by_id us u.id ≡ none) × DistinctIds us

abbrev pub can_administer : User → Bool
can_administer u = is_admin u.role && u.is_active

-- how many users can administer the system
abbrev pub active_admins : List User → ℕ
active_admins = count can_administer

one_if : Bool → ℕ
one_if b = if b then 1 else 0

excluding-absent :
    (us : List User) (id : ℕ)
    → get_by_id us id ≡ none
    → count_active_admins us id ≡ active_admins us
unfolding count_active_admins get_by_id
excluding-absent [] id h = refl
excluding-absent (u ∷ us) id h = ground (arith, excluding-absent us id)

-- the active administrators, with one user counted apart
excluding-present :
    (us : List User) (id : ℕ) (u : User)
    → DistinctIds us
    → get_by_id us id ≡ some u
    → active_admins us ≡ count_active_admins us id + one_if (can_administer u)
unfolding count_active_admins get_by_id one_if
excluding-present [] id u d h = absurd (ground arith)
excluding-present (v ∷ us) id u (absent, d) h =
    ground (arith, excluding-present us id u d, excluding-absent us id)

excluding-le : (us : List User) (id : ℕ) → count_active_admins us id ≤ active_admins us
unfolding count_active_admins
excluding-le [] id = omega arith
excluding-le (u ∷ us) id = ground (arith, excluding-le us id)

-- writing one user's row leaves the others counted as they were
active_admins-set_user :
    (us : List User) (u old : User)
    → get_by_id us u.id ≡ some old
    → count_active_admins us u.id + one_if (can_administer u) ≤ active_admins (set_user u us)
unfolding count_active_admins get_by_id set_user one_if
active_admins-set_user [] u old h = absurd (ground arith)
active_admins-set_user (v ∷ us) u old h =
    ground (arith, active_admins-set_user us u old, excluding-le us u.id)

id-get_by_id : (us : List User) (id : ℕ) (u : User) → get_by_id us id ≡ some u → u.id ≡ id
unfolding get_by_id
id-get_by_id [] id u h = absurd (ground arith)
id-get_by_id (v ∷ us) id u h = ground (arith, id-get_by_id us id u)

id-edited :
    (u : User) (name : Option String) (role : Option UserRole) (active : Option Bool)
    → (edited u name role active).id ≡ u.id
unfolding edited
id-edited u name role active = refl

-- what passes the guard: the user stays an administrator, or is none, or is not the last
guarded :
    (us : List User) (u : User) (name : Option String) (role : Option UserRole)
    (active : Option Bool)
    → is_last_admin us u role active ≡ false
    → one_if (can_administer u)
      ≤ count_active_admins us u.id + one_if (can_administer (edited u name role active))
unfolding is_last_admin edited one_if
guarded us u name role active h = ground arith

users-update_user :
    (db : Db) (id : ℕ) (name : Option String) (role : Option UserRole) (active : Option Bool)
    (now : ℕ) (u : User)
    → get_by_id db.users id ≡ some u
    → (update_user db id name role active now).0.users ≡ (
        if is_last_admin db.users u role active
        then db.users
        else set_user (edited u name role active) db.users)
unfolding update_user
users-update_user db id name role active now u found = ground arith

users-update_missing :
    (db : Db) (id : ℕ) (name : Option String) (role : Option UserRole) (active : Option Bool)
    (now : ℕ)
    → get_by_id db.users id ≡ none
    → (update_user db id name role active now).0.users ≡ db.users
unfolding update_user
users-update_missing db id name role active now missing = ground arith

-- The ids of the users are distinct. Then no update, whatever its arguments, takes the last active
-- administrator away: if there was one, there still is one.
pub update_user-active_admins :
    (db : Db) (id : ℕ) (name : Option String) (role : Option UserRole) (active : Option Bool)
    (now : ℕ)
    → DistinctIds db.users
    → 0 < active_admins db.users
    → 0 < active_admins (update_user db id name role active now).0.users
update_user-active_admins db id name role active now d h =
    elim (Option-cases (get_by_id db.users id)) [
      | inl missing ↦ rw (users-update_missing db id name role active now missing) h
      | inr (u, found) ↦ elim (Bool-cases (is_last_admin db.users u role active)) [
        | inl last ↦ rw (users-update_user db id name role active now u found, last) h
        | inr fine ↦
            let own = id-get_by_id db.users id u found in
            let found' : get_by_id db.users u.id ≡ some u = ap (get_by_id db.users) own ∙ found in
            rw (users-update_user db id name role active now u found, fine)
              (omega (
                arith,
                excluding-present db.users u.id u d found',
                guarded db.users u name role active fine,
                active_admins-set_user db.users (edited u name role active) u
                    (ap (get_by_id db.users) (id-edited u name role active) ∙ found'),
                ap (count_active_admins db.users) (id-edited u name role active),
              ))
      ]
    ]
