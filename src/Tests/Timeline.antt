-- ===== src/Tests/Timeline.antt =====
-- Clusters, swimlanes and manual entries of a small timeline.
use watari.Base.{
  All, Bool, List, Option, [], keep_if, length, map, none, refl, some, true, ℕ, ◌∷◌, ◌≡◌, ◌≤◌,
}
use watari.Exec.{ok}
use watari.Store.{Metadata, Session, TimelineEntry, entry_key}
use watari.Table.{find_row}
use watari.Tests.Samples.{session}
use watari.Timeline.Automatic.{IsSameEvent, automatic_entries_stay}
use watari.Timeline.Clustering.{cluster_of, find_clusters, sorted}
use watari.Timeline.Clusters.{
  AreApart, Group, IsChain, IsSorted, find_clusters_lem, flatten, is_plural,
}
use watari.Timeline.Lanes.{belonging, build_swimlane_lanes, lane}
use watari.Timeline.Service.{
  TimelineEntryCreate, TimelineEntryUpdate, TimelineFilters, create_manual_entry, delete_entry,
  is_shown, update_entry,
}
use watari.Timeline.Swimlane.{Lane, Lanes, build_swimlane}

abbrev entry_at : ℕ → ℕ → Option ℕ → TimelineEntry
entry_at id t actor_id = record {
  id = id;
  tenant_id = 7;
  case_id = 1;
  event_type = "case_created";
  event_timestamp = t;
  description = "";
  category = none;
  actor_id = actor_id;
  is_automatic = true;
  metadata = Metadata.empty;
}

-- Not in the order of their dates.
abbrev entries : List TimelineEntry
entries = entry_at 3 900 none ∷ entry_at 1 100 (some 90) ∷ entry_at 2 400 (some 90) ∷ []

abbrev timeline_session : Session
timeline_session = record session {
  entries = entries;
  asset_links = (record { timeline_entry_id = 2; asset_id = 60 }) ∷ [];
}

abbrev no_filters : TimelineFilters
no_filters = record {
  event_type = none;
  category = none;
  actor_id = none;
  event_after = none;
  event_before = none;
  order = "asc";
}

-- The gap of 300 is in the cluster, the gap of 500 is not.
one_cluster :
    find_clusters 300 entries ≡ (record { start = 100; end = 400; entry_ids = 1 ∷ 2 ∷ [] }) ∷ []
unfolding find_clusters
one_cluster = refl

three_lanes :
    (build_swimlane 1 no_filters 300 timeline_session).0
    ≡ ok (
      sorted entries,
      find_clusters 300 (sorted entries),
      (Lane.user 90, 1 ∷ []) ∷ (Lane.asset 60, 2 ∷ []) ∷ (Lane.category "other", 3 ∷ []) ∷ [],
    )
unfolding build_swimlane
three_lanes = refl

find_clusters_lem_example :
    (gs : List Group) × (flatten gs ≡ sorted entries)
    × IsSorted (sorted entries)
    × ((q : TimelineEntry → Bool)
        → length (keep_if q (sorted entries)) ≡ length (keep_if q entries))
    × All (λ g. IsChain 300 g.0 g.1) gs
    × AreApart 300 gs
    × (find_clusters 300 entries ≡ map cluster_of (keep_if is_plural gs))
find_clusters_lem_example = find_clusters_lem 300 entries

build_swimlane_lanes_example :
    (es : List TimelineEntry) × (lanes : Lanes) × (build_swimlane 1 no_filters 300 timeline_session
      ≡ (ok (es, find_clusters 300 es, lanes), timeline_session))
    × ((k : Lane) → lane k lanes ≡ belonging k timeline_session.asset_links es)
    × (length es ≤ 2000)
    × All (λ e. is_shown 1 no_filters e ≡ true) es
build_swimlane_lanes_example = build_swimlane_lanes 1 300 no_filters timeline_session

automatic_entries_stay_example :
    ((case_id actor : ℕ) (p : TimelineEntryCreate)
      → find_row entry_key 1 (create_manual_entry case_id actor p timeline_session).1.entries
        ≡ some (entry_at 1 100 (some 90)))
    × ((id : ℕ) (u : TimelineEntryUpdate)
        → (e' : TimelineEntry) × (find_row entry_key 1
              (update_entry id u timeline_session).1.entries
            ≡ some e')
          × IsSameEvent (entry_at 1 100 (some 90)) e')
    × ((id : ℕ)
        → find_row entry_key 1 (delete_entry id timeline_session).1.entries
          ≡ some (entry_at 1 100 (some 90)))
unfolding find_row
automatic_entries_stay_example =
    automatic_entries_stay 1 (entry_at 1 100 (some 90)) timeline_session refl refl
