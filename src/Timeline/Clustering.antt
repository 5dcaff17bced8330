-- ===== src/Timeline/Clustering.antt =====
-- Clusters of timeline entries (backend/src/services/clustering.py). The threshold is in the unit of the
-- dates.
use watari.Base.{List, [], false, if◌then◌else◌, leb, true, ℕ, ◌++◌, ◌+◌, ◌∷◌}
use watari.Store.{TimelineEntry}

pub record Cluster : Type 0 where
  pub start : ℕ
  pub end : ℕ
  pub entry_ids : List ℕ

-- Before the first entry that is not earlier.
unfoldable pub insert_entry : TimelineEntry → List TimelineEntry → List TimelineEntry
insert_entry e [] = e ∷ []
insert_entry e (x ∷ xs) =
    let rest = insert_entry e xs in
    if leb e.event_timestamp x.event_timestamp then e ∷ x ∷ xs else x ∷ rest

-- `sorted(entries, key=lambda e: e.event_timestamp)`
unfoldable pub sorted : List TimelineEntry → List TimelineEntry
unfolding insert_entry
sorted [] = []
sorted (x ∷ xs) = insert_entry x (sorted xs)

-- `current[-1]` of the list `first ∷ more`.
abbrev pub last : TimelineEntry → List TimelineEntry → TimelineEntry
last first [] = first
last first (x ∷ xs) = last x xs

abbrev pub entry_ids_of : List TimelineEntry → List ℕ
entry_ids_of [] = []
entry_ids_of (x ∷ xs) = x.id ∷ entry_ids_of xs

abbrev pub cluster_of : TimelineEntry × List TimelineEntry → Cluster
cluster_of (first, more) = record {
  start = first.event_timestamp;
  end = (last first more).event_timestamp;
  entry_ids = entry_ids_of (first ∷ more);
}

-- `_flush` of the current list `first ∷ more`, before the clusters that follow.
unfoldable pub flush : TimelineEntry → List TimelineEntry → List Cluster → List Cluster
flush first [] after = after
flush first (x ∷ xs) after = cluster_of (first, x ∷ xs) ∷ after

-- The loop, with the current list `first ∷ more`.
unfoldable pub clusters_from :
    ℕ → TimelineEntry → List TimelineEntry → List TimelineEntry → List Cluster
unfolding flush
clusters_from threshold first more [] = flush first more []
clusters_from threshold first more (e ∷ es) =
    elim (leb e.event_timestamp ((last first more).event_timestamp + threshold)) [
      | true ↦ clusters_from threshold first (more ++ e ∷ []) es
      | false ↦ flush first more (clusters_from threshold e [] es)
    ]

abbrev pub clusters_of_sorted : ℕ → List TimelineEntry → List Cluster
clusters_of_sorted threshold [] = []
clusters_of_sorted threshold (e ∷ es) = clusters_from threshold e [] es

unfoldable pub find_clusters : ℕ → List TimelineEntry → List Cluster
unfolding sorted clusters_from
find_clusters threshold entries = clusters_of_sorted threshold (sorted entries)
