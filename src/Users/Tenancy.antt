-- ===== src/Users/Tenancy.antt =====
-- Which users a caller reaches (backend/src/api/routers/users.py).
use watari.Auth.Rbac
use watari.Auth.Rbac.{AuthContext, Resource, has_permission, is_platform_admin, require_permission}
use watari.Auth.Secrets.{Secrets}
use watari.Base.{
  Bool-cases, [], arith, false, inl, inr, keep_if, refl, some, true, ℕ, ◌+◌, ◌==◌, ◌≡◌, ◌≢◌, ◌⊎◌,
}
use watari.Exec.{Action, Error, err, http, ok, pure, ◌>>◌}
use watari.Store.{Session, Tenant, User, tenant_key, user_key}
use watari.Table.{KeysBelow, KeysBelow-weaken, find-add_new, find_row}
use watari.Users.Routes.{
  assert_same_tenant_or_platform, create_user_route, deactivate_user_route, guard,
  rotate_api_key_route, update_user_route, user_of,
}
use watari.Users.Service.{
  UserCreate, UserUpdate, add_user, check_username, create_user, deactivate_user, get_tenant_or_404,
  get_user, has_username, is_service_role, new_user, optional_hash, rotate_api_key, update_user,
}

-- A caller of another tenant who is not a platform administrator.
abbrev pub IsForeign : AuthContext → User → Type 0
IsForeign auth u = (is_platform_admin auth ≡ false) × (auth.tenant_id ≢ u.tenant_id)

module _ (a : Rbac.Action) (auth : AuthContext) (t : ℕ) (s : Session) where
  -- The guard never writes; whom it lets pass is of the tenant or a platform administrator.
  guard_cases :
      ((e : Error) × (guard a auth t s ≡ (err e, s)))
      ⊎ ((guard a auth t s ≡ (ok tt, s)) × ((is_platform_admin auth ≡ true) ⊎ (auth.tenant_id ≡ t)))
  unfolding guard assert_same_tenant_or_platform require_permission
  guard_cases = elim (Bool-cases (has_permission auth Resource.user a)) [
    | inr e ↦ inl (http 403, ground arith)
    | inl e ↦ elim (Bool-cases (is_platform_admin auth)) [
      | inl p ↦ inr (ground arith, inl p)
      | inr p ↦ elim (Bool-cases (auth.tenant_id == t)) [
        | inl k ↦ inr (ground arith, inr (ground arith))
        | inr k ↦ inl (http 403, ground arith)
      ]
    ]
  ]

  -- A caller of another tenant gets no further than `_assert_same_tenant_or_platform` and the lookup.
  reach :
      {A : Type 0} (user_id : ℕ) (u : User) (rest : Action A)
      → find_row user_key user_id s.users ≡ some u
      → IsForeign auth u
      → (e : Error) × ((guard a auth t >> (user_of t user_id >> rest)) s ≡ (err e, s))
  unfolding user_of get_user
  reach user_id u rest found (no_admin, other) = elim guard_cases [
    | inl (e, h) ↦ (e, ground arith)
    | inr (h, inl admin) ↦ absurd (ground arith)
    | inr (h, inr same) ↦
        let differs : (u.tenant_id == t) ≡ false = ground (arith, other, same) in
        (http 404, ground arith)
  ]

module _ (secrets : Secrets) (auth : AuthContext) (t user_id : ℕ) (s : Session) where
  -- For a caller who is not a platform administrator and is not of the tenant of the user, the
  -- routes that update or deactivate the user, or give it a new key, raise and write nothing,
  -- whichever tenant the path names.
  pub routes_isolate :
      (payload : UserUpdate) (u : User)
      → find_row user_key user_id s.users ≡ some u
      → IsForeign auth u
      → ((e : Error) × (update_user_route auth t user_id payload s ≡ (err e, s)))
        × ((e : Error) × (deactivate_user_route auth t user_id s ≡ (err e, s)))
        × ((e : Error) × (rotate_api_key_route auth t secrets user_id s ≡ (err e, s)))
  unfolding update_user_route deactivate_user_route rotate_api_key_route
  routes_isolate payload u found foreign = (
    reach Rbac.Action.update auth t s user_id u (update_user user_id payload) found foreign,
    reach Rbac.Action.delete auth t s user_id u (deactivate_user user_id >> pure tt) found foreign,
    reach Rbac.Action.update auth t s user_id u (rotate_api_key secrets user_id) found foreign,
  )

module _ (secrets : Secrets) (auth : AuthContext) (t : ℕ) (s : Session) where
  pub create_user_route_grants :
      (p : UserCreate) {tenant : Tenant}
      → has_permission auth Resource.user Rbac.Action.create ≡ true
      → auth.tenant_id ≡ t
      → is_service_role p.role ≡ false
      → find_row tenant_key t s.tenants ≡ some tenant
      → keep_if (has_username t p.username) s.users ≡ []
      → KeysBelow user_key s.next_id s.users
      → (u : User) × ((create_user_route auth t secrets p s).0 ≡ ok u)
        × (find_row user_key u.id (create_user_route auth t secrets p s).1.users ≡ some u)
        × (u.role ≡ p.role)
        × (u.is_active ≡ true)
  unfolding create_user_route guard assert_same_tenant_or_platform require_permission create_user
      get_tenant_or_404 check_username add_user get_user
  create_user_route_grants p {tenant} may same role exists free below =
      let u = new_user (s.next_id + 1) t p (optional_hash secrets p.password s.next_id) in
      let found =
        find-add_new user_key (s.next_id + 1) u s.users
          (KeysBelow-weaken user_key s.next_id s.users below) refl in
      let own : (auth.tenant_id == t) ≡ true = ground arith in
      (u, ground arith, ground arith, refl, refl)
