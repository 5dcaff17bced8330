-- ===== src/Attack/Service.antt =====
-- Mappings of cases, observables and timeline entries to ATT&CK techniques
-- (backend/src/services/attack.py, schemas/attack.py). The date that the database gives a row is a
-- reading of the one clock.
use watari.Base.{
  none, Bool, List, Option, String, is_some, keep_if, not, opt_eq, some, true, ℕ, ◌&&◌, ◌||◌,
}
use watari.Exec.{
  Action, fresh_id, gets, http, integrity_error, modify, now, or_raise, raise_if, ◌>>=◌, ◌>>◌,
}
use watari.Store.{AttackMapping, Session, case_key, entry_key, mapping_key, observable_key}
use watari.Table.{add_row, delete_row, find_row}

-- `AttackMappingCreate`
pub record AttackMappingCreate : Type 0 where
  pub case_id : Option ℕ
  pub observable_id : Option ℕ
  pub timeline_entry_id : Option ℕ
  pub tactic_id : String
  pub technique_id : String
  pub sub_technique_id : Option String

-- `_get_mapping_or_404`
unfoldable pub get_mapping_or_404 : ℕ → Action AttackMapping
unfolding find_row
get_mapping_or_404 mapping_id = do
  found ← gets (λ s. find_row mapping_key mapping_id s.attack_mappings)
  or_raise (http 404) found

abbrev pub refers {ℓ} : {A : Type ℓ} → (A → ℕ) → Option ℕ → List A → Bool
refers key none rows = true
refers key (some id) rows = is_some (find_row key id rows)

-- The foreign keys of a new mapping, which the flush checks.
unfoldable pub has_references : AttackMappingCreate → Session → Bool
unfolding find_row
has_references p s =
    refers case_key p.case_id s.cases
    && refers observable_key p.observable_id s.observables
    && refers entry_key p.timeline_entry_id s.entries

abbrev pub new_mapping : ℕ → ℕ → AttackMappingCreate → ℕ → ℕ → AttackMapping
new_mapping id tenant_id p created_by t = record {
  id = id;
  tenant_id = tenant_id;
  case_id = p.case_id;
  observable_id = p.observable_id;
  timeline_entry_id = p.timeline_entry_id;
  tactic_id = p.tactic_id;
  technique_id = p.technique_id;
  sub_technique_id = p.sub_technique_id;
  created_by = created_by;
  created_at = t;
}

unfoldable pub create_mapping : ℕ → AttackMappingCreate → ℕ → Action AttackMapping
unfolding has_references add_row get_mapping_or_404
create_mapping tenant_id p created_by = do
  raise_if (not (is_some p.case_id || is_some p.observable_id || is_some p.timeline_entry_id))
      (http 400)
  id ← fresh_id
  t ← now
  valid ← gets (has_references p)
  raise_if (not valid) integrity_error
  modify (λ s. record s {
    attack_mappings =
        add_row mapping_key (new_mapping id tenant_id p created_by t) s.attack_mappings;
  })
  get_mapping_or_404 id

unfoldable pub delete_mapping : ℕ → Action (Unit {0})
unfolding get_mapping_or_404 delete_row
delete_mapping mapping_id = do
  mapping ← get_mapping_or_404 mapping_id
  modify (λ s. record s { attack_mappings = delete_row mapping_key mapping.id s.attack_mappings })

unfoldable pub list_mappings_for_case : ℕ → Action (List AttackMapping)
list_mappings_for_case case_id =
    gets (λ s. keep_if (λ (m : AttackMapping). opt_eq m.case_id (some case_id)) s.attack_mappings)
