-- ===== src/Auth/Isolation.antt =====
-- Which rows a request sees (backend/src/db/session.py and the policies of
-- backend/alembic/versions/0003_force_rls_and_app_role.py).
use watari.Auth.Identity.{get_principal_lem}
use watari.Auth.Scope.{
  Casts, IsCasts, Settings, apply_tenant_context, is_visible, nullif_empty, platform_admin_bypass,
  scope_session, tenant_isolation,
}
use watari.Base.{
  Bool-cases, List, Option, String, arith, false, inl, inr, none, refl, some, str_eq_iff, subst,
  sym, true, ℕ, ◌==◌, ◌↔◌, ◌∈◌, ◌≡◌, ◌⊎◌,
}
use watari.Auth.Principal.{Tokens, context_of, get_principal}
use watari.Auth.Rbac.{AuthContext, is_platform_admin, is_platform_role}
use watari.Auth.Secrets.{Secrets}
use watari.Auth.Sessions.{RedisApi}
use watari.Exec.{ok}
use watari.Store.{Role, User}

-- A setting that was never made is null, and after an earlier transaction of the connection empty.
abbrev pub IsUnset : Option String → Type 0
IsUnset none = Unit {0}
IsUnset (some v) = v ≡ ""

abbrev pub IsFresh : Settings → Type 0
IsFresh st = IsUnset st.current_tenant × IsUnset st.is_platform_admin_text

nullif_unset : (v : Option String) → IsUnset v → nullif_empty v ≡ none
nullif_unset none h = refl
nullif_unset (some v) h = rw ((str_eq_iff v "").1 h) refl

is_admin_iff :
    (auth : AuthContext) → (is_platform_admin auth ≡ true) ↔ (auth.role ≡ Role.platform_admin)
is_admin_iff auth = go auth.role
  where
    go : (r : Role) → (is_platform_role r ≡ true) ↔ (r ≡ Role.platform_admin)
    go Role.platform_admin = (λ h. refl, λ h. refl)
    go Role.tenant_admin = ground arith
    go Role.analyst = ground arith
    go Role.read_only = ground arith
    go Role.api_service_account = ground arith

module _ (casts : Casts) (uuid_text : ℕ → String) (laws : IsCasts casts uuid_text) (st : Settings)
    (fresh : IsFresh st) where
  -- Without a tenant nothing is seen.
  unscoped_lem : (t : ℕ) → is_visible casts st t ≡ false
  unfolding is_visible tenant_isolation platform_admin_bypass
  unscoped_lem t =
      rw (nullif_unset st.current_tenant (fresh.0))
        (rw (nullif_unset st.is_platform_admin_text (fresh.1)) refl)

  bypass_lem :
      (auth : AuthContext)
      → platform_admin_bypass casts (scope_session uuid_text auth st) ≡ is_platform_admin auth
  unfolding platform_admin_bypass scope_session apply_tenant_context
  bypass_lem auth = elim (Bool-cases (is_platform_admin auth)) [
    | inl e ↦ rw e (rw laws.to_boolean_true refl)
    | inr e ↦ rw e (rw (nullif_unset st.is_platform_admin_text (fresh.1)) refl)
  ]

  isolation_lem :
      (auth : AuthContext) (t : ℕ)
      → tenant_isolation casts (scope_session uuid_text auth st) t ≡ (t == auth.tenant_id)
  unfolding tenant_isolation scope_session apply_tenant_context
  isolation_lem auth t =
      rw (laws.full_text auth.tenant_id) (rw (laws.to_uuid-uuid_text auth.tenant_id) refl)

  scoped_lem :
      (auth : AuthContext) (t : ℕ)
      → (is_visible casts (scope_session uuid_text auth st) t ≡ true)
        ↔ ((auth.role ≡ Role.platform_admin) ⊎ (auth.tenant_id ≡ t))
  unfolding is_visible
  scoped_lem auth t =
      let own = isolation_lem auth t in
      let admin = bypass_lem auth in
      let (to_role, of_role) = is_admin_iff auth in
      elim (Bool-cases (is_platform_admin auth)) [
        | inl e ↦ (λ h. inl (to_role e), λ h. ground arith)
        | inr e ↦ elim (Bool-cases (t == auth.tenant_id)) [
          | inl k ↦ (λ h. inr (ground arith), λ h. ground arith)
          | inr k ↦ (
            λ h. absurd (ground arith),
            λ h. elim h [
              | inl role ↦ let it = of_role role in absurd (ground arith)
              | inr same ↦ absurd (ground arith)
            ],
          )
        ]
      ]

module _ {R : Type 0} (redis : RedisApi R) (tokens : Tokens) (secrets : Secrets) (casts : Casts)
    (laws : IsCasts casts tokens.uuid_text) (st : Settings) (fresh : IsFresh st) where
  -- If the casts of PostgreSQL are as documented and the settings of a new transaction are null or
  -- empty, then once a request goes on as a principal there is an active user of the table such
  -- that, with the tenant of the principal set, the policies show a row exactly if the user is a
  -- platform administrator or of the tenant of the row; and before it is set they show none.
  pub request_isolation :
      (sent api_key : Option String) (time : ℕ) (users : List User) (r : R) (auth : AuthContext)
      → (get_principal redis tokens secrets sent api_key time users r).0 ≡ ok auth
      → (u : User) × (u ∈ users)
        × (u.is_active ≡ true)
        × ((t : ℕ)
            → (is_visible casts (scope_session tokens.uuid_text auth st) t ≡ true)
              ↔ ((u.role ≡ Role.platform_admin) ⊎ (u.tenant_id ≡ t)))
        × ((t : ℕ) → is_visible casts st t ≡ false)
  request_isolation sent api_key time users r auth h =
      let (u, there, active, same, how) =
        get_principal_lem redis tokens secrets sent api_key time users r auth h in
      (
        u,
        there,
        active,
        λ t.
            subst
              (λ (a : AuthContext).
                (is_visible casts (scope_session tokens.uuid_text a st) t ≡ true)
                ↔ ((u.role ≡ Role.platform_admin) ⊎ (u.tenant_id ≡ t)))
              (sym same)
              (scoped_lem casts tokens.uuid_text laws st fresh (context_of u u.is_service_account)
                t),
        unscoped_lem casts tokens.uuid_text laws st fresh,
      )
