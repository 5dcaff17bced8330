-- ===== src/Timeline/Service.antt =====
-- Entries that analysts write, filters and swimlanes (backend/src/services/timeline.py and
-- schemas/timeline.py).
use watari.Alerts.Ingest.{truthy}
use watari.Base.{
  Bool, List, Option, String, [], all, any, contains, false, if◌then◌else◌, is_empty, is_some,
  keep_if, leb, map, none, not, opt_eq, some, str_eq, true, ℕ, ◌&&◌, ◌++◌, ◌==◌, ◌||◌, ◌∷◌,
}
use watari.Exec.{
  Action, fresh_id, gets, http, integrity_error, modify, or_raise, pure, raise_if, when, ◌>>=◌,
  ◌>>◌,
}
use watari.Store.{Asset, AttackMapping, Case, Metadata, TimelineAssetLink, TimelineEntry, entry_key}
use watari.Cases.Create.{get_case_or_404}
use watari.Cases.Update.{Patch, assign, assign_json, assign_optional, is_null}
use watari.Table.{add_row, delete_row, find_row, save_row}

pub record TimelineEntryCreate : Type 0 where
  pub event_type : String
  pub event_timestamp : ℕ
  pub description : String
  pub category : Option String
  pub metadata : String
  pub linked_asset_ids : List ℕ

pub record TimelineEntryUpdate : Type 0 where
  pub description : Patch String
  pub category : Patch String
  pub metadata : Patch String
  pub linked_asset_ids : Patch (List ℕ)

pub record TimelineFilters : Type 0 where
  pub event_type : Option String
  pub category : Option String
  pub actor_id : Option ℕ
  pub event_after : Option ℕ
  pub event_before : Option ℕ
  pub order : String

-- `_get_entry_or_404`
unfoldable pub get_entry_or_404 : ℕ → Action TimelineEntry
unfolding find_row
get_entry_or_404 entry_id = do
  found ← gets (λ s. find_row entry_key entry_id s.entries)
  or_raise (http 404) found

abbrev pub is_asset : List Asset → ℕ → Bool
is_asset assets id = any (λ x. x.id == id) assets

abbrev pub has_repeat : List ℕ → Bool
has_repeat [] = false
has_repeat (x ∷ xs) = contains x xs || has_repeat xs

abbrev pub links_of : ℕ → List ℕ → List TimelineAssetLink
links_of entry_id ids = map (λ id. record { timeline_entry_id = entry_id; asset_id = id }) ids

-- The links without those of an entry.
abbrev pub unlink : ℕ → List TimelineAssetLink → List TimelineAssetLink
unlink entry_id links =
    keep_if (λ (l : TimelineAssetLink). not (l.timeline_entry_id == entry_id)) links

-- `_replace_asset_links`: the flush refuses an asset that does not exist, and the same one twice.
unfoldable pub replace_asset_links : TimelineEntry → List ℕ → Action (Unit {0})
replace_asset_links entry asset_ids = do
  modify
      (λ s. record s { asset_links = unlink entry.id s.asset_links ++ links_of entry.id asset_ids })
  ok_ids ← gets (λ s. all (is_asset s.assets) asset_ids && not (has_repeat asset_ids))
  raise_if (not ok_ids) integrity_error

abbrev pub manual_entry : Case → ℕ → TimelineEntryCreate → ℕ → TimelineEntry
manual_entry c actor_id p id = record {
  id = id;
  tenant_id = c.tenant_id;
  case_id = c.id;
  event_type = p.event_type;
  event_timestamp = p.event_timestamp;
  description = p.description;
  category = p.category;
  actor_id = some actor_id;
  is_automatic = false;
  metadata = Metadata.written p.metadata;
}

unfoldable pub create_manual_entry : ℕ → ℕ → TimelineEntryCreate → Action TimelineEntry
unfolding get_case_or_404 add_row replace_asset_links get_entry_or_404
create_manual_entry case_id actor_id payload = do
  c ← get_case_or_404 case_id
  id ← fresh_id
  let entry = manual_entry c actor_id payload id
  modify (λ s. record s { entries = add_row entry_key entry s.entries })
  when (not (is_empty payload.linked_asset_ids))
      (replace_asset_links entry payload.linked_asset_ids)
  get_entry_or_404 id

abbrev pub written_patch : Patch String → Patch Metadata
written_patch Patch.unset = Patch.unset
written_patch Patch.null = Patch.null
written_patch (Patch.set v) = Patch.set (Metadata.written v)

-- The loop over the fields but for the assets.
unfoldable pub apply_entry : TimelineEntryUpdate → TimelineEntry → TimelineEntry
apply_entry u e = record e {
  description = assign u.description e.description;
  category = assign_optional u.category e.category;
  metadata = assign_json (Metadata.written "null") (written_patch u.metadata) e.metadata;
}

abbrev pub replace_if_set : Patch (List ℕ) → TimelineEntry → Action (Unit {0})
replace_if_set (Patch.set ids) entry = replace_asset_links entry ids
replace_if_set _ entry = pure tt

unfoldable pub update_entry : ℕ → TimelineEntryUpdate → Action TimelineEntry
unfolding get_entry_or_404 apply_entry save_row replace_asset_links
update_entry entry_id u = do
  e ← get_entry_or_404 entry_id
  modify (λ s. record s { entries = save_row entry_key (apply_entry u e) s.entries })
  raise_if (is_null u.description) integrity_error
  replace_if_set u.linked_asset_ids e
  get_entry_or_404 entry_id

-- The links and the ATT&CK mappings of the entry go with it (`ondelete="CASCADE"`).
unfoldable pub delete_entry : ℕ → Action (Unit {0})
unfolding get_entry_or_404 delete_row
delete_entry entry_id = do
  e ← get_entry_or_404 entry_id
  raise_if e.is_automatic (http 403)
  modify (λ s. record s {
    entries = delete_row entry_key entry_id s.entries;
    asset_links = unlink entry_id s.asset_links;
    attack_mappings =
        keep_if (λ (m : AttackMapping). not (opt_eq m.timeline_entry_id (some entry_id)))
          s.attack_mappings;
  })

abbrev pub same_text : Option String → Option String → Bool
same_text (some v) (some w) = str_eq v w
same_text _ _ = false

-- `if filters.x: query = query.where(…)`
abbrev pub where_text : Option String → Option String → Bool
where_text wanted value = if truthy wanted then same_text value wanted else true

abbrev pub where_date : (ℕ → ℕ → Bool) → Option ℕ → ℕ → Bool
where_date test none value = true
where_date test (some limit) value = test limit value

unfoldable pub is_shown : ℕ → TimelineFilters → TimelineEntry → Bool
is_shown case_id f e =
    e.case_id == case_id
    && (where_text f.event_type (some e.event_type)
        && (where_text f.category e.category
            && ((if is_some f.actor_id then opt_eq e.actor_id f.actor_id else true)
                && (where_date (λ limit t. leb limit t) f.event_after e.event_timestamp
                    && where_date (λ limit t. leb t limit) f.event_before e.event_timestamp))))
