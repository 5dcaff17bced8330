-- ===== src/Auth/Scope.antt =====
-- The tenant of a database session (backend/src/db/session.py, `_scope_session` of
-- backend/src/auth/dependencies.py), and the row-level security that reads it
-- (backend/alembic/versions/0003_force_rls_and_app_role.py).
use watari.Auth.Rbac.{AuthContext, is_platform_admin}
use watari.Base.{
  Bool, Option, String, false, if◌then◌else◌, none, some, str_eq, true, ℕ, ◌==◌, ◌||◌, ◌≡◌,
}

-- The settings of a transaction; a setting is null or a text.
pub record Settings : Type 0 where
  pub current_tenant : Option String
  pub is_platform_admin_text : Option String

-- What PostgreSQL does to read them: the casts to UUID and to BOOLEAN; `none` is an error.
pub record Casts : Type 0 where
  pub to_uuid : String → Option ℕ
  pub to_boolean : String → Option Bool

-- The text of a UUID is not empty and casts back to it, and 'true' to true.
pub record IsCasts (casts : Casts) (uuid_text : ℕ → String) : Type 0 where
  pub to_uuid-uuid_text : (n : ℕ) → casts.to_uuid (uuid_text n) ≡ some n
  pub full_text : (n : ℕ) → str_eq (uuid_text n) "" ≡ false
  pub to_boolean_true : casts.to_boolean "true" ≡ some true

-- `TenantContext`
pub record TenantContext : Type 0 where
  pub tenant_id : ℕ
  pub is_platform_admin : Bool

unfoldable pub get_tenant_context : Option AuthContext → Option TenantContext
get_tenant_context none = none
get_tenant_context (some auth) =
    some (record { tenant_id = auth.tenant_id; is_platform_admin = is_platform_admin auth })

-- `set_config('app.current_tenant', …)`, and `SET LOCAL` for an administrator.
unfoldable pub apply_tenant_context : (ℕ → String) → TenantContext → Settings → Settings
apply_tenant_context uuid_text context st = record {
  current_tenant = some (uuid_text context.tenant_id);
  is_platform_admin_text =
      if context.is_platform_admin then some "true" else st.is_platform_admin_text;
}

-- `_scope_session`
unfoldable pub scope_session : (ℕ → String) → AuthContext → Settings → Settings
unfolding apply_tenant_context
scope_session uuid_text auth =
    apply_tenant_context uuid_text
      (record { tenant_id = auth.tenant_id; is_platform_admin = is_platform_admin auth })

-- `NULLIF(v, '')`
abbrev pub nullif_empty : Option String → Option String
nullif_empty none = none
nullif_empty (some v) = if str_eq v "" then none else some v

abbrev pub cast {ℓ} : {A : Type ℓ} → (String → Option A) → Option String → Option A
cast f none = none
cast f (some v) = f v

-- `x = y` and `x IS TRUE` in a policy, where a null is not true.
abbrev pub sql_eq : ℕ → Option ℕ → Bool
sql_eq a none = false
sql_eq a (some b) = a == b

abbrev pub is_true : Option Bool → Bool
is_true none = false
is_true (some b) = b

module _ (casts : Casts) (st : Settings) where
  -- The policy `tenant_isolation` of a table whose rows have a tenant.
  unfoldable pub tenant_isolation : ℕ → Bool
  tenant_isolation tenant_id =
      sql_eq tenant_id (cast casts.to_uuid (nullif_empty st.current_tenant))

  -- The same of a table whose rows may have none.
  unfoldable pub tenant_isolation_nullable : Option ℕ → Bool
  unfolding tenant_isolation
  tenant_isolation_nullable none = true
  tenant_isolation_nullable (some tenant_id) = tenant_isolation tenant_id

  unfoldable pub platform_admin_bypass : Bool
  platform_admin_bypass = is_true (cast casts.to_boolean (nullif_empty st.is_platform_admin_text))

  -- A row is seen if one of the policies lets it.
  unfoldable pub is_visible : ℕ → Bool
  unfolding tenant_isolation platform_admin_bypass
  is_visible tenant_id = tenant_isolation tenant_id || platform_admin_bypass
