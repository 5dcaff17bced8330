-- ===== src/Tests/Users.antt =====
-- Users, their sessions and their keys, with a store of sessions that keeps the end of each.
use Prim.Native.String.append
use watari.Auth.Principal.{
  Tokens, check_session, context_of, get_principal, is_account_of, is_named, load_service_account,
  load_user_from_token, login,
}
use watari.Auth.Sessions.{
  IsRedis, RedisApi, SessionRecord, create_session, invalidate_session, is_session_active,
  touch_all,
}
use watari.Base.{
  Bool, String, [], ap, arith, false, if◌then◌else◌, keep_if, ltb, none, refl, some, str_eq, true,
  ℕ, ◌+◌, ◌↔◌, ◌∷◌, ◌≡◌,
}
use watari.Exec.{Error, err, integrity_error, multiple_results, ok}
use watari.Tenants.Service.{delete_tenant, get_tenant, is_referenced}
use watari.Users.Routes.{
  create_user_route, deactivate_user_route, rotate_api_key_route, update_user_route,
}
use watari.Users.Service.{
  ServiceAccountCreate, UserCreate, UserUpdate, create_service_account, create_user, has_username,
}
use watari.Auth.Identity.{IsIdentified, IsAdmitted, get_principal_lem, login_by, login_iff}
use watari.Auth.Keys.{load_service_account-create_service_account}
use watari.Auth.Lifetime.{session_lifetime, stays}
use watari.Auth.Rbac.{AuthContext, has_permission, role_permits}
use watari.Auth.Secrets.{IsSecrets, Secrets}
use watari.Cases.Update.{set, unset}
use watari.Store.{Role, Session, Tenant, User, user_key}
use watari.Table.{find_row}
use watari.Tests.Samples.{session}
use watari.Users.Names.{HasUniqueNames, creations-HasUniqueNames}
use watari.Users.Tenancy.{create_user_route_grants, routes_isolate}

-- A text with at least one character.
abbrev has_text : String → Bool
has_text String.[] = false
has_text (String.◌∷◌ c s) = true

abbrev pub secrets : Secrets
secrets = record {
  utf8 = λ s. [];
  hashpw = λ p salt. "hash";
  checkpw = λ p h. some (str_eq h "hash");
  sha256 = λ s. s;
  token_urlsafe = λ n. "token";
  starts_with = λ s prefix. has_text s;
}

secrets-IsSecrets : IsSecrets secrets
secrets-IsSecrets = record {
  check_hash = λ p salt. refl;
  starts = λ b. ap has_text (append.cons _ "at_" b);
  starts_not = refl;
}

-- The instant at which a key ends.
abbrev pub Ends : Type 0
Ends = String → ℕ

abbrev end_at : String → ℕ → Ends → Ends
end_at k n r j = if str_eq k j then n else r j

abbrev pub redis : RedisApi Ends
redis = record {
  set_ex = λ k v ttl now r. end_at k (now + ttl) r;
  exists = λ k now r. ltb now (r k);
  expire = λ k ttl now r. (if ltb now (r k) then end_at k (now + ttl) r else r, ltb now (r k));
  delete = λ k r. end_at k 0 r;
  scan_iter = λ pattern now r. [];
}

pub redis-IsRedis : IsRedis redis
redis-IsRedis = record {
  exists-set_ex = λ j k v ttl now t r h. ground arith;
  exists-expire = λ j k ttl now t r h. ground arith;
  expire_live = λ k ttl now r. refl;
  exists-delete = λ j k t r. ground arith;
}

abbrev pub tokens : Tokens
tokens = record {
  decode_token = λ token. ok (record {
    sub = 90;
    tenant_id = 7;
    role = "analyst";
    session_id = "sid";
    token_type = "access";
    iat = 0;
    exp = 3600;
    jti = "jti";
  });
  uuid_text = λ n. "ninety";
}

abbrev tenant_seven : Tenant
tenant_seven = record {
  id = 7;
  name = "Acme";
  slug = "acme";
  settings = "{}";
  custom_fields_schema = "{}";
  is_active = true;
}

abbrev pub user_of_tenant : ℕ → ℕ → User
user_of_tenant id tenant_id = record {
  id = id;
  tenant_id = tenant_id;
  username = "kim";
  email = "kim@example.org";
  password_hash = some "hash";
  display_name = "Kim";
  role = Role.analyst;
  is_active = true;
  is_service_account = false;
  api_key_hash = none;
  permissions = "[]";
  last_login_at = none;
  inactivity_timeout_minutes = 30;
}

abbrev pub users_session : Session
users_session = record session { tenants = tenant_seven ∷ []; users = user_of_tenant 90 7 ∷ [] }

abbrev session_record : SessionRecord
session_record = record {
  user_id = "ninety";
  session_id = "sid";
  created_at = "t";
  source_ip = none;
  user_agent = none;
}

abbrev tenant_admin_auth : AuthContext
tenant_admin_auth = record {
  user_id = 92;
  tenant_id = 7;
  role = Role.tenant_admin;
  is_service_account = false;
}

abbrev foreign_auth : AuthContext
foreign_auth = record {
  user_id = 92;
  tenant_id = 8;
  role = Role.tenant_admin;
  is_service_account = false;
}

abbrev new_admin : UserCreate
new_admin = record {
  username = "root";
  email = "root@example.org";
  display_name = "Root";
  role = Role.platform_admin;
  password = some "secret";
  inactivity_timeout_minutes = 30;
}

abbrev reader : ServiceAccountCreate
reader = record {
  username = "reader";
  display_name = "Reader";
  role = Role.read_only;
  permissions = "[]";
}

abbrev rename : UserUpdate
rename = record {
  display_name = unset;
  email = unset;
  role = set Role.platform_admin;
  is_active = unset;
  inactivity_timeout_minutes = unset;
  permissions = unset;
}

abbrev kept_alive : Ends
kept_alive =
    touch_all redis "ninety" "sid" 30 (1000 ∷ 2500 ∷ [])
      (create_session redis session_record 30 0 (λ k. 0))

session_lifetime_example :
    (is_session_active redis "ninety" "sid" 4000 kept_alive ≡ stays 1800 0 (1000 ∷ 2500 ∷ []) 4000)
    × (is_session_active redis "ninety" "sid" 4000
          (invalidate_session redis "ninety" "sid" kept_alive)
        ≡ false)
session_lifetime_example =
    session_lifetime redis redis-IsRedis "ninety" "sid" 30 session_record 0 4000 (1000 ∷ 2500 ∷ [])
      (λ k. 0) refl refl (omega arith, (omega arith, omega arith))

get_principal_lem_example :
    IsIdentified redis tokens secrets
      (some "jwt")
      none
      10
      users_session.users
      (λ k. 20)
      (context_of (user_of_tenant 90 7) false)
unfolding get_principal load_user_from_token check_session is_session_active find_row
get_principal_lem_example =
    get_principal_lem redis tokens secrets (some "jwt") none 10 users_session.users (λ k. 20)
      (context_of (user_of_tenant 90 7) false) refl

login_iff_example :
    ((login secrets "kim" "secret" users_session).0
      ≡ ok (record (user_of_tenant 90 7) { last_login_at = some 1000 }))
    ↔ ((u : User) × (keep_if (λ (x : User). str_eq x.username "kim") users_session.users ≡ u ∷ [])
        × IsAdmitted secrets "secret" u
        × (record (user_of_tenant 90 7) { last_login_at = some 1000 }
            ≡ record u { last_login_at = some 1000 }))
login_iff_example =
    login_iff secrets "kim" "secret" users_session
      (record (user_of_tenant 90 7) { last_login_at = some 1000 })

-- The name of users of two tenants: neither logs in.
shared_name :
    login_by secrets "secret" 1000
      (keep_if (is_named "kim") (user_of_tenant 90 7 ∷ user_of_tenant 91 8 ∷ []))
    ≡ err multiple_results
unfolding is_named
shared_name = refl

one_user-HasUniqueNames : HasUniqueNames users_session.users
unfolding has_username
one_user-HasUniqueNames t n = ground arith

creations-HasUniqueNames_example :
    HasUniqueNames (create_user secrets 7 new_admin users_session).1.users
    × HasUniqueNames (create_service_account secrets 7 reader users_session).1.users
creations-HasUniqueNames_example =
    creations-HasUniqueNames secrets 7 new_admin reader users_session one_user-HasUniqueNames

load_service_account-create_service_account_example :
    let (r, s') = create_service_account secrets 7 reader users_session in
    (u : User) × (key : String) × (r ≡ ok (u, key))
    × (load_service_account secrets key s'.users ≡ ok (context_of u true))
    × (u.tenant_id ≡ 7)
    × (u.role ≡ Role.api_service_account)
unfolding find_row has_username is_account_of
load_service_account-create_service_account_example =
    load_service_account-create_service_account secrets secrets-IsSecrets 7 reader users_session
      refl refl refl (omega arith, tt) refl

routes_isolate_example :
    ((e : Error) × (update_user_route foreign_auth 7 90 rename users_session
        ≡ (err e, users_session)))
    × ((e : Error) × (deactivate_user_route foreign_auth 7 90 users_session
          ≡ (err e, users_session)))
    × ((e : Error) × (rotate_api_key_route foreign_auth 7 secrets 90 users_session
          ≡ (err e, users_session)))
unfolding find_row
routes_isolate_example =
    routes_isolate secrets foreign_auth 7 90 users_session rename (user_of_tenant 90 7) refl
      (refl, omega arith)

tenant_admin_adds_platform_admin :
    (u : User) × ((create_user_route tenant_admin_auth 7 secrets new_admin users_session).0 ≡ ok u)
    × (find_row user_key u.id
          (create_user_route tenant_admin_auth 7 secrets new_admin users_session).1.users
        ≡ some u)
    × (u.role ≡ Role.platform_admin)
    × (u.is_active ≡ true)
unfolding find_row has_username has_permission role_permits
tenant_admin_adds_platform_admin =
    create_user_route_grants secrets tenant_admin_auth 7 users_session new_admin refl refl refl refl
      refl (omega arith, tt)

-- A tenant that has a user is not deleted.
tenant_in_use : (delete_tenant 7 users_session).0 ≡ err integrity_error
unfolding delete_tenant get_tenant is_referenced find_row
tenant_in_use = refl
