-- ===== src/Observables/Service.antt =====
-- The observable service (backend/src/services/observables.py).
use Prim.Native.String
use watari.Base.{
  Bool, List, Option, String, [], any, contains, if◌then◌else◌, keep_if, length, map, not, opt_eq,
  some, str_eq, ℕ, ◌&&◌, ◌==◌, ◌||◌, ◌∷◌,
}
use watari.Exec.{
  Action, fresh_id, gets, http, integrity_error, modify, or_raise, pure, raise_if, ◌>>=◌, ◌>>◌,
}
use watari.Store.{
  AttackMapping, Case, EnrichmentResult, Metadata, Observable, ObservableType, PlatformEvent,
  Session, Tlp, observable_key, type_eq, type_text,
}
use watari.Cases.Create.{get_case_or_404}
use watari.Cases.Update.{Patch, assign, assign_optional, is_null}
use watari.Modules.Dispatch.{Installed, fire}
use watari.Observables.Validators.{validate_observable}
use watari.Table.{add_row, delete_row, find_row, save_row}
use watari.Timeline.Recorder.{Recorded, record_event}

-- `ObservableCreate`
pub record ObservableCreate : Type 0 where
  pub type : ObservableType
  pub value : String
  pub tlp : Option Tlp
  pub is_ioc : Bool
  pub tags : List String
  pub description : Option String

-- `ObservableUpdate`
pub record ObservableUpdate : Type 0 where
  pub tlp : Patch Tlp
  pub is_ioc : Patch Bool
  pub tags : Patch (List String)
  pub description : Patch String

unfoldable pub get_observable_or_404 : ℕ → Action Observable
unfolding find_row
get_observable_or_404 observable_id = do
  found ← gets (λ s. find_row observable_key observable_id s.observables)
  or_raise (http 404) found

-- `_normalize_or_400`
unfoldable pub normalize_or_400 : ObservableType → String → Action String
unfolding validate_observable
normalize_or_400 type value = do
  lib ← gets (λ s. s.world.library)
  or_raise (http 400) (validate_observable lib type value)

abbrev pub new_observable : ℕ → Case → ObservableCreate → String → ℕ → Observable
new_observable id c p normalized created_by = record {
  id = id;
  tenant_id = c.tenant_id;
  case_id = c.id;
  type = p.type;
  value = normalized;
  tlp = p.tlp;
  is_ioc = p.is_ioc;
  tags = p.tags;
  description = p.description;
  created_by = created_by;
}

abbrev pub added_event : Observable → Recorded
added_event o = record {
  tenant_id = o.tenant_id;
  case_id = o.case_id;
  event_type = "observable_added";
  description =
      String.◌++◌ "Observable added: " (String.◌++◌ (type_text o.type) (String.◌++◌ "=" o.value));
  category = some "observable";
  actor_id = some o.created_by;
  metadata = Metadata.observable_added o.id o.type o.value;
}

unfoldable pub add_observable : Observable → Session → Session
unfolding add_row
add_observable o s = record s { observables = add_row observable_key o s.observables }

module _ (installed : Installed) where
  -- The rest of `create_observable`, once the case and the value are known.
  unfoldable pub insert_observable : Case → ObservableCreate → String → ℕ → Action Observable
  unfolding add_observable get_observable_or_404
  insert_observable c payload normalized created_by = do
    id ← fresh_id
    let o = new_observable id c payload normalized created_by
    modify (add_observable o)
    record_event (added_event o)
    fire installed c.tenant_id PlatformEvent.observable_created
        (record { case_id = some c.id; subject = id })
    get_observable_or_404 id

  unfoldable pub create_observable : ℕ → ℕ → ObservableCreate → Action Observable
  unfolding get_case_or_404 normalize_or_400 insert_observable
  create_observable case_id created_by payload = do
    c ← get_case_or_404 case_id
    normalized ← normalize_or_400 payload.type payload.value
    insert_observable c payload normalized created_by

  unfoldable pub create_observables_bulk : ℕ → ℕ → List ObservableCreate → Action (List Observable)
  unfolding create_observable
  create_observables_bulk case_id created_by [] = pure []
  create_observables_bulk case_id created_by (item ∷ items) = do
    o ← create_observable case_id created_by item
    rest ← create_observables_bulk case_id created_by items
    pure (o ∷ rest)

-- The loop over `payload.model_dump(exclude_unset=True)`.
unfoldable pub apply_observable : ObservableUpdate → Observable → Observable
apply_observable u o = record o {
  tlp = assign_optional u.tlp o.tlp;
  is_ioc = assign u.is_ioc o.is_ioc;
  tags = assign u.tags o.tags;
  description = assign_optional u.description o.description;
}

-- The columns `is_ioc` and `tags` may not be null: the flush refuses such an update.
unfoldable pub update_observable : ℕ → ObservableUpdate → Action Observable
unfolding get_observable_or_404 apply_observable save_row
update_observable observable_id u = do
  o ← get_observable_or_404 observable_id
  raise_if (is_null u.is_ioc || is_null u.tags) integrity_error
  modify
      (λ s. record s { observables = save_row observable_key (apply_observable u o) s.observables })
  get_observable_or_404 observable_id

-- The flush would set the `observable_id` of enrichment results, which may not be null, to null.
abbrev pub is_enriched : ℕ → List EnrichmentResult → Bool
is_enriched observable_id = any (λ (x : EnrichmentResult). x.observable_id == observable_id)

-- The database deletes the ATT&CK mappings of the observable with it.
unfoldable pub delete_observable : ℕ → Action (Unit {0})
unfolding get_observable_or_404 delete_row
delete_observable observable_id = do
  o ← get_observable_or_404 observable_id
  held ← gets (λ s. is_enriched o.id s.enrichment_results)
  raise_if held integrity_error
  modify (λ s. record s {
    observables = delete_row observable_key o.id s.observables;
    attack_mappings =
        keep_if (λ (m : AttackMapping). not (opt_eq m.observable_id (some o.id))) s.attack_mappings;
  })

-- `Observable.tenant_id == tenant_id`, `.type == type` and `.value == value`.
unfoldable pub has_value : ℕ → ObservableType → String → Observable → Bool
has_value tenant_id type value o =
    o.tenant_id == tenant_id && (type_eq o.type type && str_eq o.value value)

-- `SELECT DISTINCT`
unfoldable pub distinct : List ℕ → List ℕ
distinct [] = []
distinct (x ∷ xs) = let rest = distinct xs in if contains x rest then rest else x ∷ rest

abbrev pub case_id_of : Observable → ℕ
case_id_of o = o.case_id

unfoldable pub cross_case_count : ℕ → ObservableType → String → ℕ → Action ℕ
unfolding has_value distinct
cross_case_count tenant_id type value exclude_case_id = gets λ s. length (
    distinct (
      map case_id_of (
        keep_if (λ o. has_value tenant_id type value o && not (o.case_id == exclude_case_id))
          s.observables)))

unfoldable pub find_correlating_cases : ℕ → ObservableType → String → Action (List ℕ)
unfolding has_value distinct
find_correlating_cases tenant_id type value =
    gets λ s. distinct (map case_id_of (keep_if (has_value tenant_id type value) s.observables))
