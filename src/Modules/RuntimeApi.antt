-- ===== src/Modules/RuntimeApi.antt =====
-- `SessionModuleAPI` (backend/src/modules/runtime_api.py), through which a module reads and writes. The
-- dicts that a module hands over are taken once they are parsed: the schemas' validation is not
-- Watari's. `created_at desc` is the later row first. The actor is a user: the API without one, whose
-- rows a foreign key refuses, is left out.
use watari.Assets.Service.{AssetUpdate, update_asset}
use watari.Base.{
  Bool, List, Option, String, [], if◌then◌else◌, keep_if, map, none, reverse, some, take, true, ℕ,
  ◌==◌,
}
use watari.Exec.{Action, gets, now, or_raise, pure, value_error, ◌>>=◌}
use watari.Store.{
  Asset, AssetType, Case, CaseSeverity, CaseStatus, Metadata, Observable, ObservableType, Session,
  Task, TimelineEntry, Tlp, case_key,
}
use watari.Cases.Numbers.{created}
use watari.Modules.Dispatch.{Installed}
use watari.Observables.Service.{ObservableCreate, create_observable}
use watari.Tasks.Service.{create_task}
use watari.Table.{find_row}
use watari.Timeline.Recorder.{Recorded, record_event}
use watari.Timeline.Service.{TimelineEntryCreate, TimelineFilters, create_manual_entry}
use watari.Timeline.Swimlane.{list_entries}

-- The dicts that the reading operations return.
pub record CaseView : Type 0 where
  pub id : ℕ
  pub tenant_id : ℕ
  pub case_number : ℕ
  pub title : String
  pub status : CaseStatus
  pub severity : CaseSeverity
  pub tags : List String

pub record ObservableView : Type 0 where
  pub id : ℕ
  pub type : ObservableType
  pub value : String
  pub tlp : Option Tlp
  pub is_ioc : Bool

pub record AssetView : Type 0 where
  pub id : ℕ
  pub name : String
  pub type : AssetType
  pub ip_address : Option String
  pub is_compromised : Bool

pub record EntryView : Type 0 where
  pub id : ℕ
  pub event_type : String
  pub event_timestamp : ℕ
  pub description : String

-- The dict of `add_task`.
pub record ModuleTask : Type 0 where
  pub title : String
  pub description : Option String
  pub sort_order : Option ℕ

-- The dict of `add_timeline_entry`: `none` is a key that is missing.
pub record ModuleEntry : Type 0 where
  pub is_automatic : Option Bool
  pub tenant_id : Option ℕ
  pub event_type : Option String
  pub event_timestamp : Option ℕ
  pub description : Option String
  pub category : Option (Option String)
  pub metadata : Option String

abbrev pub or_default {ℓ} : {A : Type ℓ} → A → Option A → A
or_default a none = a
or_default a (some b) = b

abbrev pub view_case : Case → CaseView
view_case c = record {
  id = c.id;
  tenant_id = c.tenant_id;
  case_number = c.case_number;
  title = c.title;
  status = c.status;
  severity = c.severity;
  tags = c.tags;
}

abbrev pub view_observable : Observable → ObservableView
view_observable o = record {
  id = o.id;
  type = o.type;
  value = o.value;
  tlp = o.tlp;
  is_ioc = o.is_ioc;
}

abbrev pub view_asset : Asset → AssetView
view_asset a = record {
  id = a.id;
  name = a.name;
  type = a.type;
  ip_address = a.ip_address;
  is_compromised = a.is_compromised;
}

abbrev pub view_entry : TimelineEntry → EntryView
view_entry e = record {
  id = e.id;
  event_type = e.event_type;
  event_timestamp = e.event_timestamp;
  description = e.description;
}

abbrev pub view_found : Option Case → Option CaseView
view_found none = none
view_found (some c) = some (view_case c)

-- `{}` is none.
unfoldable pub api_get_case : ℕ → Session → Option CaseView
unfolding find_row
api_get_case case_id s = view_found (find_row case_key case_id s.cases)

unfoldable pub api_get_observables : ℕ → Session → List ObservableView
api_get_observables case_id s =
    map view_observable
      (take 1000 (reverse (keep_if (λ (o : Observable). o.case_id == case_id) s.observables)))

unfoldable pub api_get_assets : ℕ → Session → List AssetView
api_get_assets case_id s =
    map view_asset (take 1000 (reverse (keep_if (λ (a : Asset). a.case_id == case_id) s.assets)))

abbrev ascending : TimelineFilters
ascending = record {
  event_type = none;
  category = none;
  actor_id = none;
  event_after = none;
  event_before = none;
  order = "asc";
}

unfoldable pub api_get_timeline : ℕ → Action (List EntryView)
unfolding list_entries
api_get_timeline case_id = do
  (rows, total) ← list_entries case_id ascending 1000 0
  pure (map view_entry rows)

-- `self._resolve_tenant(case_id)`, whose `scalar_one` raises NoResultFound without a row.
unfoldable pub resolve_tenant : ℕ → Action ℕ
unfolding find_row
resolve_tenant case_id = do
  found ← gets (λ s. find_row case_key case_id s.cases)
  c ← or_raise value_error found
  pure c.tenant_id

abbrev pub tenant_or_resolve : Option ℕ → ℕ → Action ℕ
tenant_or_resolve (some tenant_id) case_id = pure tenant_id
tenant_or_resolve none case_id = resolve_tenant case_id

abbrev pub recorded_entry : ℕ → ℕ → ℕ → ModuleEntry → Recorded
recorded_entry tenant_id case_id actor_id e = record {
  tenant_id = tenant_id;
  case_id = case_id;
  event_type = or_default "module" e.event_type;
  description = or_default "" e.description;
  category = or_default (some "module") e.category;
  actor_id = some actor_id;
  metadata = Metadata.written (or_default "{}" e.metadata);
}

abbrev pub manual_payload : ℕ → ModuleEntry → TimelineEntryCreate
manual_payload t e = record {
  event_type = or_default "module" e.event_type;
  event_timestamp = or_default t e.event_timestamp;
  description = or_default "" e.description;
  category = or_default none e.category;
  metadata = or_default "{}" e.metadata;
  linked_asset_ids = [];
}

unfoldable pub api_add_timeline_entry : ℕ → ℕ → ModuleEntry → Action TimelineEntry
unfolding resolve_tenant record_event create_manual_entry
api_add_timeline_entry actor_id case_id e =
    if or_default true e.is_automatic
    then (do
      tenant_id ← tenant_or_resolve e.tenant_id case_id
      record_event (recorded_entry tenant_id case_id actor_id e))
    else (do t ← now; create_manual_entry case_id actor_id (manual_payload t e))

-- The other three operations, as they call the services.
module _ (installed : Installed) (actor_id : ℕ) where
  unfoldable pub api_add_observable : ℕ → ObservableCreate → Action ObservableView
  unfolding create_observable
  api_add_observable case_id payload = do
    created ← create_observable installed case_id actor_id payload
    pure (view_observable created)

unfoldable pub api_add_task : ℕ → ℕ → ModuleTask → Action Task
unfolding create_task
api_add_task actor_id case_id t = create_task case_id actor_id (record {
  title = t.title;
  description = t.description;
  assignee_id = none;
  sort_order = or_default 0 t.sort_order;
})

-- The case id is not looked at.
unfoldable pub api_update_asset : ℕ → ℕ → ℕ → AssetUpdate → Action AssetView
unfolding update_asset
api_update_asset actor_id case_id asset_id u = do
  row ← update_asset asset_id u actor_id
  pure (view_asset row)
