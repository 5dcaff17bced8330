-- ===== src/Modules/Service.antt =====
-- The table of modules (backend/src/services/modules.py, schemas/modules.py): listing, installing,
-- configuring and removing one, and the list of executions. JSON columns are kept as their texts.
use watari.Base.{
  Bool, List, Option, String, any, is_some, keep_if, length, reverse, some, str_eq, true, ℕ, ◌&&◌,
  ◌==◌,
}
use watari.Exec.{
  Action, fresh_id, gets, http, integrity_error, modify, or_raise, pure, raise_if,
  scalar_one_or_none, ◌>>=◌, ◌>>◌,
}
use watari.Paging.Pages.{offset, select_rows, where_id}
use watari.Cases.Update.{Patch, assign, assign_json, assign_optional, is_null}
use watari.Store.{Module, ModuleExecution, ModuleType, module_key}
use watari.Table.{add_row, delete_row, find_row, save_row}

-- `ModuleRegister`
pub record ModuleRegister : Type 0 where
  pub name : String
  pub version : String
  pub type : ModuleType
  pub description : Option String
  pub config_schema : String
  pub entry_point : String
  pub supported_evidence_types : Option (List String)
  pub subscribed_events : Option (List String)

-- `ModuleUpdate`
pub record ModuleUpdate : Type 0 where
  pub is_enabled : Patch Bool
  pub config_schema : Patch String
  pub subscribed_events : Patch (List String)

-- `_get_module_or_404`
unfoldable pub get_module_or_404 : ℕ → Action Module
unfolding find_row
get_module_or_404 module_id = do
  found ← gets (λ s. find_row module_key module_id s.modules)
  or_raise (http 404) found

abbrev pub new_module : ℕ → ModuleRegister → Module
new_module id p = record {
  id = id;
  name = p.name;
  version = p.version;
  type = p.type;
  description = p.description;
  config_schema = p.config_schema;
  entry_point = p.entry_point;
  supported_evidence_types = p.supported_evidence_types;
  subscribed_events = p.subscribed_events;
  is_enabled = true;
}

-- `select(Module).where(Module.name == name)`
abbrev pub has_name : String → Module → Bool
has_name name m = str_eq m.name name

unfoldable pub register_module : ModuleRegister → Action Module
unfolding add_row get_module_or_404
register_module p = do
  existing ← (λ s. (scalar_one_or_none (keep_if (has_name p.name) s.modules), s))
  raise_if (is_some existing) (http 409)
  id ← fresh_id
  modify (λ s. record s { modules = add_row module_key (new_module id p) s.modules })
  get_module_or_404 id

-- The loop over `payload.model_dump(exclude_unset=True)`.
unfoldable pub apply_module : ModuleUpdate → Module → Module
apply_module u m = record m {
  is_enabled = assign u.is_enabled m.is_enabled;
  config_schema = assign_json "null" u.config_schema m.config_schema;
  subscribed_events = assign_optional u.subscribed_events m.subscribed_events;
}

-- The column `is_enabled` may not be null.
unfoldable pub update_module : ℕ → ModuleUpdate → Action Module
unfolding get_module_or_404 apply_module save_row
update_module module_id u = do
  m ← get_module_or_404 module_id
  modify (λ s. record s { modules = save_row module_key (apply_module u m) s.modules })
  raise_if (is_null u.is_enabled) integrity_error
  get_module_or_404 module_id

-- The module has executions: the flush would set their `module_id`, which may not be null, to null.
abbrev pub was_executed : ℕ → List ModuleExecution → Bool
was_executed module_id = any (λ (x : ModuleExecution). x.module_id == module_id)

unfoldable pub delete_module : ℕ → Action (Unit {0})
unfolding get_module_or_404 delete_row
delete_module module_id = do
  m ← get_module_or_404 module_id
  executed ← gets (λ s. was_executed m.id s.executions)
  raise_if executed integrity_error
  modify (λ s. record s { modules = delete_row module_key m.id s.modules })

-- The executions that the filters leave, the later first, and the number of them.
unfoldable pub list_executions :
    (module_id tenant_id case_id : Option ℕ) (limit offset : ℕ) → Action (List ModuleExecution × ℕ)
list_executions module_id tenant_id case_id limit offset = do
  rows ← gets (λ s.
      keep_if
        (λ (x : ModuleExecution).
          where_id module_id (some x.module_id)
          && (where_id tenant_id (some x.tenant_id) && where_id case_id x.case_id))
        s.executions)
  pure (select_rows limit offset (reverse rows), length rows)
