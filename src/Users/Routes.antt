-- ===== src/Users/Routes.antt =====
-- The endpoints of users (backend/src/api/routers/users.py), each under the permission that its
-- dependency asks for.
use watari.Auth.Rbac
use watari.Auth.Rbac.{AuthContext, Resource, has_permission, is_platform_admin, require_permission}
use watari.Auth.Secrets.{Secrets}
use watari.Base.{String, if◌then◌else◌, not, ℕ, ◌&&◌, ◌==◌}
use watari.Exec.{Action, Result, err, http, ok, pure, raise_if, ◌>>=◌, ◌>>◌}
use watari.Store.{User}
use watari.Users.Service.{
  PasswordChange, ServiceAccountCreate, UserCreate, UserUpdate, change_password,
  create_service_account, create_user, deactivate_user, get_user, rotate_api_key, update_user,
}

-- What a dependency gives, as a call.
abbrev pub lift : {A : Type 0} → Result A → Action A
lift r s = (r, s)

-- `_assert_same_tenant_or_platform`
unfoldable pub assert_same_tenant_or_platform : AuthContext → ℕ → Result (Unit {0})
assert_same_tenant_or_platform auth tenant_id =
    if not (is_platform_admin auth) && not (auth.tenant_id == tenant_id)
    then err (http 403)
    else ok tt

-- The permission, then the tenant.
unfoldable pub guard : Rbac.Action → AuthContext → ℕ → Action (Unit {0})
unfolding require_permission assert_same_tenant_or_platform
guard a auth tenant_id = do
  lift (require_permission Resource.user a auth)
  lift (assert_same_tenant_or_platform auth tenant_id)

-- The user, if it is one of the tenant.
unfoldable pub user_of : ℕ → ℕ → Action User
unfolding get_user
user_of tenant_id user_id = do
  u ← get_user user_id
  raise_if (not (u.tenant_id == tenant_id)) (http 404)
  pure u

module _ (auth : AuthContext) (tenant_id : ℕ) where
  unfoldable pub get_user_route : ℕ → Action User
  unfolding guard user_of
  get_user_route user_id = do guard Rbac.Action.read auth tenant_id; user_of tenant_id user_id

  unfoldable pub update_user_route : ℕ → UserUpdate → Action User
  unfolding guard user_of update_user
  update_user_route user_id payload = do
    guard Rbac.Action.update auth tenant_id
    user_of tenant_id user_id
    update_user user_id payload

  unfoldable pub deactivate_user_route : ℕ → Action (Unit {0})
  unfolding guard user_of deactivate_user
  deactivate_user_route user_id = do
    guard Rbac.Action.delete auth tenant_id
    user_of tenant_id user_id
    deactivate_user user_id
    pure tt

  module _ (secrets : Secrets) where
    unfoldable pub create_user_route : UserCreate → Action User
    unfolding guard create_user
    create_user_route payload = do
      guard Rbac.Action.create auth tenant_id
      create_user secrets tenant_id payload

    unfoldable pub change_password_route : ℕ → PasswordChange → Action (Unit {0})
    unfolding assert_same_tenant_or_platform has_permission change_password
    change_password_route user_id payload = do
      lift (assert_same_tenant_or_platform auth tenant_id)
      raise_if
          ((not (auth.user_id == user_id) && not (is_platform_admin auth))
            && not (has_permission auth Resource.user Rbac.Action.update))
          (http 403)
      change_password secrets user_id payload

    unfoldable pub create_service_account_route : ServiceAccountCreate → Action (User × String)
    unfolding guard create_service_account
    create_service_account_route payload = do
      guard Rbac.Action.create auth tenant_id
      create_service_account secrets tenant_id payload

    unfoldable pub rotate_api_key_route : ℕ → Action String
    unfolding guard user_of rotate_api_key
    rotate_api_key_route user_id = do
      guard Rbac.Action.update auth tenant_id
      user_of tenant_id user_id
      rotate_api_key secrets user_id
