-- ===== src/Users/Service.antt =====
-- The user service (backend/src/services/users.py, schemas/users.py).
use Prim.Native.String
use watari.Base.{
  Bool, Option, String, false, if◌then◌else◌, is_some, keep_if, none, not, some, str_eq, true, ℕ,
  ◌&&◌, ◌==◌, ◌||◌,
}
use watari.Cases.Update.{Patch, assign, assign_json, is_null}
use watari.Exec.{
  Action, fresh_id, gets, http, integrity_error, modify, or_raise, pure, raise_if,
  scalar_one_or_none, ◌>>=◌, ◌>>◌,
}
use watari.Auth.Secrets.{Secrets, generate_api_key, hash_api_key, hash_password, verify_password}
use watari.Store.{Role, Session, Tenant, User, tenant_key, user_key}
use watari.Table.{add_row, find_row, save_row}

-- `UserCreate`
pub record UserCreate : Type 0 where
  pub username : String
  pub email : String
  pub display_name : String
  pub role : Role
  pub password : Option String
  pub inactivity_timeout_minutes : ℕ

-- `UserUpdate`
pub record UserUpdate : Type 0 where
  pub display_name : Patch String
  pub email : Patch String
  pub role : Patch Role
  pub is_active : Patch Bool
  pub inactivity_timeout_minutes : Patch ℕ
  pub permissions : Patch String

-- `PasswordChange`
pub record PasswordChange : Type 0 where
  pub current_password : String
  pub new_password : String

-- `ServiceAccountCreate`
pub record ServiceAccountCreate : Type 0 where
  pub username : String
  pub display_name : String
  pub role : Role
  pub permissions : String

unfoldable pub get_tenant_or_404 : ℕ → Action Tenant
unfolding find_row
get_tenant_or_404 tenant_id = do
  found ← gets (λ s. find_row tenant_key tenant_id s.tenants)
  or_raise (http 404) found

unfoldable pub get_user : ℕ → Action User
unfolding find_row
get_user user_id = do
  found ← gets (λ s. find_row user_key user_id s.users)
  or_raise (http 404) found

-- `User.tenant_id == tenant_id, User.username == username`
unfoldable pub has_username : ℕ → String → User → Bool
has_username tenant_id username u = u.tenant_id == tenant_id && str_eq u.username username

-- The query for an existing user of that name, and the 409.
unfoldable pub check_username : ℕ → String → Action (Unit {0})
unfolding has_username
check_username tenant_id username = do
  existing ← (λ s. (scalar_one_or_none (keep_if (has_username tenant_id username) s.users), s))
  raise_if (is_some existing) (http 409)

abbrev pub is_service_role : Role → Bool
is_service_role Role.api_service_account = true
is_service_role _ = false

-- `payload.role not in (Role.ANALYST, Role.READ_ONLY)`, negated.
abbrev pub is_account_role : Role → Bool
is_account_role Role.analyst = true
is_account_role Role.read_only = true
is_account_role _ = false

abbrev pub new_user : ℕ → ℕ → UserCreate → Option String → User
new_user id tenant_id p password_hash = record {
  id = id;
  tenant_id = tenant_id;
  username = p.username;
  email = p.email;
  password_hash = password_hash;
  display_name = p.display_name;
  role = p.role;
  is_active = true;
  is_service_account = false;
  api_key_hash = none;
  permissions = "[]";
  last_login_at = none;
  inactivity_timeout_minutes = p.inactivity_timeout_minutes;
}

-- The columns that the service leaves out have the defaults of the database.
abbrev pub new_account : ℕ → ℕ → ServiceAccountCreate → String → User
new_account id tenant_id p api_key_hash = record {
  id = id;
  tenant_id = tenant_id;
  username = p.username;
  email = String.◌++◌ p.username "@service.invalid";
  password_hash = none;
  display_name = p.display_name;
  role = Role.api_service_account;
  is_active = true;
  is_service_account = true;
  api_key_hash = some api_key_hash;
  permissions = p.permissions;
  last_login_at = none;
  inactivity_timeout_minutes = 30;
}

unfoldable pub add_user : User → Session → Session
unfolding add_row
add_user u s = record s { users = add_row user_key u s.users }

unfoldable pub save_user : User → Session → Session
unfolding save_row
save_user u s = record s { users = save_row user_key u s.users }

-- The loop over `payload.model_dump(exclude_unset=True)`.
unfoldable pub apply_user : UserUpdate → User → User
apply_user u r = record r {
  display_name = assign u.display_name r.display_name;
  email = assign u.email r.email;
  role = assign u.role r.role;
  is_active = assign u.is_active r.is_active;
  inactivity_timeout_minutes = assign u.inactivity_timeout_minutes r.inactivity_timeout_minutes;
  permissions = assign_json "null" u.permissions r.permissions;
}

-- No column of the update but the JSON one may be null: the flush refuses one that is.
unfoldable pub update_user : ℕ → UserUpdate → Action User
unfolding get_user apply_user save_user
update_user user_id u = do
  r ← get_user user_id
  modify (save_user (apply_user u r))
  raise_if
      (is_null u.display_name
        || is_null u.email
        || is_null u.role
        || is_null u.is_active
        || is_null u.inactivity_timeout_minutes)
      integrity_error
  get_user user_id

unfoldable pub set_active : Bool → ℕ → Action User
unfolding get_user save_user
set_active b user_id = do
  r ← get_user user_id
  modify (save_user (record r { is_active = b }))
  get_user user_id

unfoldable pub deactivate_user : ℕ → Action User
unfolding set_active
deactivate_user = set_active false

unfoldable pub activate_user : ℕ → Action User
unfolding set_active
activate_user = set_active true

module _ (secrets : Secrets) where
  -- `hash_password(payload.password) if payload.password else None`
  abbrev pub optional_hash : Option String → ℕ → Option String
  optional_hash none salt = none
  optional_hash (some p) salt = if str_eq p "" then none else some (hash_password secrets p salt)

  -- A number for the salt is drawn in any case.
  unfoldable pub create_user : ℕ → UserCreate → Action User
  unfolding get_tenant_or_404 check_username add_user get_user hash_password
  create_user tenant_id payload = do
    get_tenant_or_404 tenant_id
    check_username tenant_id payload.username
    raise_if (is_service_role payload.role) (http 400)
    salt ← fresh_id
    id ← fresh_id
    modify (add_user (new_user id tenant_id payload (optional_hash payload.password salt)))
    get_user id

  unfoldable pub create_service_account : ℕ → ServiceAccountCreate → Action (User × String)
  unfolding get_tenant_or_404 check_username add_user get_user generate_api_key hash_api_key
  create_service_account tenant_id payload = do
    get_tenant_or_404 tenant_id
    raise_if (not (is_account_role payload.role)) (http 400)
    check_username tenant_id payload.username
    n ← fresh_id
    let api_key = generate_api_key secrets n
    id ← fresh_id
    modify (add_user (new_account id tenant_id payload (hash_api_key secrets api_key)))
    u ← get_user id
    pure (u, api_key)

  abbrev pub is_current_password : String → Option String → Bool
  is_current_password password none = false
  is_current_password password (some h) = verify_password secrets password h

  unfoldable pub change_password : ℕ → PasswordChange → Action (Unit {0})
  unfolding get_user verify_password hash_password save_user
  change_password user_id payload = do
    r ← get_user user_id
    raise_if (not (is_current_password payload.current_password r.password_hash)) (http 400)
    salt ← fresh_id
    modify (
        save_user
          (record r { password_hash = some (hash_password secrets payload.new_password salt) }))

  unfoldable pub rotate_api_key : ℕ → Action String
  unfolding get_user generate_api_key hash_api_key save_user
  rotate_api_key user_id = do
    r ← get_user user_id
    raise_if (not r.is_service_account) (http 400)
    n ← fresh_id
    let api_key = generate_api_key secrets n
    modify (save_user (record r { api_key_hash = some (hash_api_key secrets api_key) }))
    pure api_key
