-- ===== src/Assets/Service.antt =====
-- The asset service (backend/src/services/assets.py, schemas/assets.py).
use Prim.Native.String
use watari.Base.{
  Bool, List, Option, String, [], any, false, if◌then◌else◌, keep_if, not, some, str_eq, true, ℕ,
  ◌&&◌, ◌==◌, ◌||◌,
}
use watari.Cases.Create.{get_case_or_404}
use watari.Cases.Update.{Patch, assign, assign_json, assign_optional, is_null, is_set}
use watari.Exec.{Action, fresh_id, gets, http, modify, or_raise, pure, raise_if, when, ◌>>=◌, ◌>>◌}
use watari.Store.{Asset, AssetType, Case, Fields, Metadata, TimelineAssetLink, asset_key}
use watari.Table.{add_row, delete_row, find_row, save_row}
use watari.Timeline.Recorder.{Recorded, record_event}

pub record AssetCreate : Type 0 where
  pub name : String
  pub type : AssetType
  pub ip_address : Option String
  pub domain : Option String
  pub is_compromised : Bool
  pub description : Option String
  pub custom_attributes : Fields

pub record AssetUpdate : Type 0 where
  pub name : Patch String
  pub type : Patch AssetType
  pub ip_address : Patch String
  pub domain : Patch String
  pub is_compromised : Patch Bool
  pub description : Patch String
  pub custom_attributes : Patch Fields

-- `_get_asset_or_404`
unfoldable pub get_asset_or_404 : ℕ → Action Asset
unfolding find_row
get_asset_or_404 asset_id = do
  found ← gets (λ s. find_row asset_key asset_id s.assets)
  or_raise (http 404) found

-- The columns of the constraint `uq_assets_case_name`.
abbrev pub has_same_name : Asset → Asset → Bool
has_same_name a x = x.case_id == a.case_id && str_eq x.name a.name

-- Another row has the name: the flush of this one raises an IntegrityError.
unfoldable pub is_name_taken : Asset → List Asset → Bool
is_name_taken a assets = any (λ (x : Asset). not (x.id == a.id) && has_same_name a x) assets

abbrev pub new_asset : Case → ℕ → AssetCreate → ℕ → Asset
new_asset c created_by p id = record {
  id = id;
  tenant_id = c.tenant_id;
  case_id = c.id;
  name = p.name;
  type = p.type;
  ip_address = p.ip_address;
  domain = p.domain;
  is_compromised = p.is_compromised;
  description = p.description;
  custom_attributes = p.custom_attributes;
  created_by = created_by;
}

abbrev pub type_name : AssetType → String
type_name AssetType.workstation = "workstation"
type_name AssetType.server = "server"
type_name AssetType.network_device = "network_device"
type_name AssetType.mobile_device = "mobile_device"
type_name AssetType.cloud_resource = "cloud_resource"
type_name AssetType.other = "other"

abbrev pub asset_event : Asset → ℕ → String → String → Metadata → Recorded
asset_event a actor_id event_type description metadata = record {
  tenant_id = a.tenant_id;
  case_id = a.case_id;
  event_type = event_type;
  description = description;
  category = some "asset";
  actor_id = some actor_id;
  metadata = metadata;
}

abbrev pub asset_added_event : Asset → ℕ → Recorded
asset_added_event a actor_id =
    asset_event a actor_id "asset_added"
      (String.◌++◌ "Asset added: "
        (String.◌++◌ a.name (String.◌++◌ " (" (String.◌++◌ (type_name a.type) ")"))))
      (Metadata.asset_added a.id a.name)

abbrev pub compromise_event : Asset → ℕ → Recorded
compromise_event a actor_id =
    asset_event a actor_id "asset_compromise_changed"
      (String.◌++◌ "Asset '" (
        String.◌++◌ a.name (
          String.◌++◌ "' marked " (if a.is_compromised then "compromised" else "not compromised"))))
      (Metadata.compromise_change a.id a.is_compromised)

-- The savepoint: a name that is taken leaves the table as it was.
unfoldable pub insert_asset : Asset → Action (Unit {0})
unfolding is_name_taken add_row
insert_asset a = do
  taken ← gets (λ s. is_name_taken a s.assets)
  raise_if taken (http 409)
  modify (λ s. record s { assets = add_row asset_key a s.assets })

-- `create_asset` once the case is found.
unfoldable pub create_in_case : Case → ℕ → AssetCreate → Action Asset
unfolding insert_asset record_event get_asset_or_404
create_in_case c created_by payload = do
  id ← fresh_id
  insert_asset (new_asset c created_by payload id)
  record_event (asset_added_event (new_asset c created_by payload id) created_by)
  get_asset_or_404 id

unfoldable pub create_asset : ℕ → ℕ → AssetCreate → Action Asset
unfolding get_case_or_404 create_in_case
create_asset case_id created_by payload = do
  c ← get_case_or_404 case_id
  create_in_case c created_by payload

-- The loop over the fields. The JSON value null of `custom_attributes` is kept as no fields.
unfoldable pub apply_asset : AssetUpdate → Asset → Asset
apply_asset u a = record a {
  name = assign u.name a.name;
  type = assign u.type a.type;
  ip_address = assign_optional u.ip_address a.ip_address;
  domain = assign_optional u.domain a.domain;
  is_compromised = assign u.is_compromised a.is_compromised;
  description = assign_optional u.description a.description;
  custom_attributes = assign_json [] u.custom_attributes a.custom_attributes;
}

abbrev pub bool_ne : Bool → Bool → Bool
bool_ne true b = not b
bool_ne false b = b

-- The flush refuses a name that is taken, and a null in a column that may not have one; both are
-- answered with a 409.
unfoldable pub flush_asset : AssetUpdate → Asset → Action (Unit {0})
unfolding is_name_taken save_row
flush_asset u a = do
  taken ← gets (λ s. is_name_taken a s.assets)
  raise_if ((is_null u.name || is_null u.type || is_null u.is_compromised) || taken) (http 409)
  modify (λ s. record s { assets = save_row asset_key a s.assets })

abbrev pub note_compromise : Bool → Asset → ℕ → Action (Unit {0})
note_compromise changed a actor_id =
    when changed (do record_event (compromise_event a actor_id); pure tt)

unfoldable pub update_asset : ℕ → AssetUpdate → ℕ → Action Asset
unfolding get_asset_or_404 apply_asset flush_asset record_event
update_asset asset_id u actor_id = do
  a ← get_asset_or_404 asset_id
  let a' = apply_asset u a
  flush_asset u a'
  note_compromise (is_set u.is_compromised && bool_ne a'.is_compromised a.is_compromised) a'
      actor_id
  get_asset_or_404 asset_id

-- The links of the asset go with it (`ondelete="CASCADE"`).
unfoldable pub delete_asset : ℕ → Action (Unit {0})
unfolding get_asset_or_404 delete_row
delete_asset asset_id = do
  get_asset_or_404 asset_id
  modify (λ s. record s {
    assets = delete_row asset_key asset_id s.assets;
    asset_links = keep_if (λ (l : TimelineAssetLink). not (l.asset_id == asset_id)) s.asset_links;
  })
