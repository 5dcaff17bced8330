-- ===== src/Tenants/Service.antt =====
-- The tenant service (backend/src/services/tenants.py, schemas/tenants.py).
use watari.Base.{Bool, String, any, is_some, keep_if, opt_eq, some, str_eq, true, ℕ, ◌==◌, ◌||◌}
use watari.Exec.{
  Action, fresh_id, gets, http, integrity_error, modify, or_raise, raise_if, scalar_one_or_none,
  ◌>>=◌, ◌>>◌,
}
use watari.Store.{
  Alert, Asset, Case, CaseTemplate, Evidence, ModuleExecution, NoteFolder, Observable, Session,
  Task, Tenant, TimelineEntry, User, tenant_key,
}
use watari.Cases.Update.{Patch, assign, assign_json, is_null}
use watari.Table.{add_row, delete_row, find_row, save_row}

-- The JSON values are kept as their texts.
pub record TenantCreate : Type 0 where
  pub name : String
  pub slug : String
  pub settings : String
  pub custom_fields_schema : String

pub record TenantUpdate : Type 0 where
  pub name : Patch String
  pub settings : Patch String
  pub custom_fields_schema : Patch String
  pub is_active : Patch Bool

unfoldable pub get_tenant : ℕ → Action Tenant
unfolding find_row
get_tenant tenant_id = do
  found ← gets (λ s. find_row tenant_key tenant_id s.tenants)
  or_raise (http 404) found

abbrev pub has_slug : String → Tenant → Bool
has_slug slug t = str_eq t.slug slug

abbrev pub new_tenant : ℕ → TenantCreate → Tenant
new_tenant id p = record {
  id = id;
  name = p.name;
  slug = p.slug;
  settings = p.settings;
  custom_fields_schema = p.custom_fields_schema;
  is_active = true;
}

unfoldable pub create_tenant : TenantCreate → Action Tenant
unfolding add_row get_tenant
create_tenant payload = do
  existing ← (λ s. (scalar_one_or_none (keep_if (has_slug payload.slug) s.tenants), s))
  raise_if (is_some existing) (http 409)
  id ← fresh_id
  modify (λ s. record s { tenants = add_row tenant_key (new_tenant id payload) s.tenants })
  get_tenant id

-- The loop over the fields; a JSON column keeps a null as a value.
unfoldable pub apply_tenant : TenantUpdate → Tenant → Tenant
apply_tenant u t = record t {
  name = assign u.name t.name;
  settings = assign_json "null" u.settings t.settings;
  custom_fields_schema = assign_json "null" u.custom_fields_schema t.custom_fields_schema;
  is_active = assign u.is_active t.is_active;
}

unfoldable pub update_tenant : ℕ → TenantUpdate → Action Tenant
unfolding get_tenant apply_tenant save_row
update_tenant tenant_id u = do
  t ← get_tenant tenant_id
  modify (λ s. record s { tenants = save_row tenant_key (apply_tenant u t) s.tenants })
  raise_if (is_null u.name || is_null u.is_active) integrity_error
  get_tenant tenant_id

-- A row of another table refers to the tenant. The foreign keys have no `ON DELETE`, and the
-- relationships of `Tenant` no cascade.
unfoldable pub is_referenced : ℕ → Session → Bool
is_referenced t s =
    any (λ (x : User). x.tenant_id == t) s.users
    || (any (λ (x : Case). x.tenant_id == t) s.cases
        || (any (λ (x : CaseTemplate). opt_eq x.tenant_id (some t)) s.templates
            || (any (λ (x : Alert). x.tenant_id == t) s.alerts
                || (any (λ (x : Task). x.tenant_id == t) s.tasks
                    || (any (λ (x : Observable). x.tenant_id == t) s.observables
                        || (any (λ (x : Asset). x.tenant_id == t) s.assets
                            || (any (λ (x : Evidence). x.tenant_id == t) s.evidence
                                || (any (λ (x : TimelineEntry). x.tenant_id == t) s.entries
                                    || (any (λ (x : NoteFolder). x.tenant_id == t) s.folders
                                        || any (λ (x : ModuleExecution). x.tenant_id == t)
                                            s.executions)))))))))

unfoldable pub delete_tenant : ℕ → Action (Unit {0})
unfolding get_tenant is_referenced delete_row
delete_tenant tenant_id = do
  get_tenant tenant_id
  referenced ← gets (is_referenced tenant_id)
  raise_if referenced integrity_error
  modify (λ s. record s { tenants = delete_row tenant_key tenant_id s.tenants })
