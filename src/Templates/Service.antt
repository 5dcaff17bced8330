-- ===== src/Templates/Service.antt =====
-- The case template service (backend/src/services/templates.py, schemas/templates.py).
use watari.Base.{Bool, List, Option, String, [], any, keep_if, opt_eq, some, ℕ, ◌&&◌, ◌==◌, ◌||◌}
use watari.Cases.Update.{Patch, assign, assign_json, assign_optional, is_null}
use watari.Exec.{
  Action, fresh_id, gets, http, integrity_error, modify, or_raise, raise_if, scalar_one_or_none,
  ◌>>=◌, ◌>>◌,
}
use watari.Store.{Case, CaseSeverity, CaseTemplate, Fields, Session, TaskSpec, template_key}
use watari.Table.{add_row, delete_row, save_row}

-- `default_severity` is a text in the schema; it is kept as the severity that it names.
pub record CaseTemplateCreate : Type 0 where
  pub name : String
  pub description : Option String
  pub default_severity : Option CaseSeverity
  pub default_tags : List String
  pub tasks : List TaskSpec
  pub custom_fields : Fields

pub record CaseTemplateUpdate : Type 0 where
  pub name : Patch String
  pub description : Patch String
  pub default_severity : Patch CaseSeverity
  pub default_tags : Patch (List String)
  pub tasks : Patch (List TaskSpec)
  pub custom_fields : Patch Fields

-- The two conditions of the query of `get_template`.
abbrev pub is_template_of : ℕ → ℕ → CaseTemplate → Bool
is_template_of tenant_id template_id t = t.id == template_id && opt_eq t.tenant_id (some tenant_id)

unfoldable pub get_template : ℕ → ℕ → Action CaseTemplate
get_template tenant_id template_id = do
  found ←
      (λ s. (scalar_one_or_none (keep_if (is_template_of tenant_id template_id) s.templates), s))
  or_raise (http 404) found

abbrev pub new_template : ℕ → ℕ → ℕ → CaseTemplateCreate → CaseTemplate
new_template id tenant_id created_by p = record {
  id = id;
  tenant_id = some tenant_id;
  name = p.name;
  description = p.description;
  default_severity = p.default_severity;
  default_tags = p.default_tags;
  custom_fields = p.custom_fields;
  tasks = p.tasks;
  created_by = created_by;
}

unfoldable pub create_template : ℕ → ℕ → CaseTemplateCreate → Action CaseTemplate
unfolding add_row get_template
create_template tenant_id created_by payload = do
  id ← fresh_id
  modify (λ s. record s {
    templates = add_row template_key (new_template id tenant_id created_by payload) s.templates;
  })
  get_template tenant_id id

-- The loop over the fields. The JSON value null is kept as no tasks and no fields.
unfoldable pub apply_template : CaseTemplateUpdate → CaseTemplate → CaseTemplate
apply_template u t = record t {
  name = assign u.name t.name;
  description = assign_optional u.description t.description;
  default_severity = assign_optional u.default_severity t.default_severity;
  default_tags = assign u.default_tags t.default_tags;
  custom_fields = assign_json [] u.custom_fields t.custom_fields;
  tasks = assign_json [] u.tasks t.tasks;
}

unfoldable pub update_template : ℕ → ℕ → CaseTemplateUpdate → Action CaseTemplate
unfolding get_template apply_template save_row
update_template tenant_id template_id u = do
  t ← get_template tenant_id template_id
  modify (λ s. record s { templates = save_row template_key (apply_template u t) s.templates })
  raise_if (is_null u.name || is_null u.default_tags) integrity_error
  get_template tenant_id template_id

-- A case refers to the template; the foreign key has no `ON DELETE`.
unfoldable pub is_template_used : ℕ → Session → Bool
is_template_used template_id s = any (λ (c : Case). opt_eq c.template_id (some template_id)) s.cases

unfoldable pub delete_template : ℕ → ℕ → Action (Unit {0})
unfolding get_template is_template_used delete_row
delete_template tenant_id template_id = do
  get_template tenant_id template_id
  used ← gets (is_template_used template_id)
  raise_if used integrity_error
  modify (λ s. record s { templates = delete_row template_key template_id s.templates })
