-- ===== src/Timeline/Swimlane.antt =====
-- The lists of a case's entries, and its swimlanes (`list_entries` and `build_swimlane` of
-- backend/src/services/timeline.py).
use watari.Alerts.Ingest.{or_text}
use watari.Base.{
  Bool, List, String, [], drop, false, if◌then◌else◌, keep_if, length, map, none, reverse, some,
  str_eq, take, ℕ, ◌++◌, ◌==◌, ◌∷◌,
}
use watari.Exec.{Action, gets, pure, ◌>>=◌}
use watari.Store.{TimelineAssetLink, TimelineEntry}
use watari.Timeline.Clustering.{Cluster, find_clusters, sorted}
use watari.Timeline.Service.{TimelineFilters, is_shown}

-- The order of entries of the same date, which the database leaves open, is that of insertion.
abbrev pub ordered : String → List TimelineEntry → List TimelineEntry
ordered order entries = if str_eq order "asc" then sorted entries else reverse (sorted entries)

-- The page of the entries that the filters show, and the number of all of them.
unfoldable pub list_entries :
    ℕ → TimelineFilters → (limit offset : ℕ) → Action (List TimelineEntry × ℕ)
unfolding is_shown sorted
list_entries case_id filters limit offset = do
  shown ← gets (λ s. keep_if (is_shown case_id filters) s.entries)
  pure (take limit (drop offset (ordered filters.order shown)), length shown)

-- `asset_links.get(e.id)`, where none is as good as an empty list.
unfoldable pub linked_assets : List TimelineAssetLink → ℕ → List ℕ
linked_assets links entry_id =
    map (λ (l : TimelineAssetLink). l.asset_id)
      (keep_if (λ (l : TimelineAssetLink). l.timeline_entry_id == entry_id) links)

-- `f"asset:{aid}"`, `f"user:{e.actor_id}"` and `f"category:{…}"`.
pub data Lane : Type 0 where
  asset user : ℕ → Lane
  category : String → Lane

abbrev pub lane_eq : Lane → Lane → Bool
lane_eq (asset a) (asset b) = a == b
lane_eq (user a) (user b) = a == b
lane_eq (category a) (category b) = str_eq a b
lane_eq _ _ = false

abbrev pub Lanes : Type 0
Lanes = List (Lane × List ℕ)

-- `lanes[key].append(id)` of a `defaultdict(list)`.
unfoldable pub append_to : Lane → ℕ → Lanes → Lanes
append_to k id [] = (k, id ∷ []) ∷ []
append_to k id ((l, ids) ∷ lanes) =
    let rest = append_to k id lanes in
    if lane_eq l k then (l, ids ++ id ∷ []) ∷ lanes else (l, ids) ∷ rest

abbrev pub unlinked_lane : TimelineEntry → Lane
unlinked_lane e = elim e.actor_id [
  | some id ↦ user id
  | none ↦ category (or_text e.category "other")
]

-- The lanes of an entry: its assets, or else its actor, or else its category.
unfoldable pub lanes_of_entry : List TimelineAssetLink → TimelineEntry → List Lane
unfolding linked_assets
lanes_of_entry links e = elim (linked_assets links e.id) [
  | [] ↦ unlinked_lane e ∷ []
  | x ∷ xs ↦ map asset (x ∷ xs)
]

unfoldable pub append_to_all : List Lane → ℕ → Lanes → Lanes
unfolding append_to
append_to_all [] id lanes = lanes
append_to_all (k ∷ ks) id lanes = append_to_all ks id (append_to k id lanes)

-- The loop over the entries.
unfoldable pub fill_lanes : List TimelineAssetLink → List TimelineEntry → Lanes → Lanes
unfolding append_to_all lanes_of_entry
fill_lanes links [] lanes = lanes
fill_lanes links (e ∷ es) lanes =
    fill_lanes links es (append_to_all (lanes_of_entry links e) e.id lanes)

unfoldable pub build_swimlane :
    ℕ → TimelineFilters → (threshold : ℕ) → Action (List TimelineEntry × List Cluster × Lanes)
unfolding list_entries fill_lanes find_clusters
build_swimlane case_id filters threshold = do
  (entries, total) ← list_entries case_id filters 2000 0
  lanes ← gets (λ s. fill_lanes s.asset_links entries [])
  pure (entries, find_clusters threshold entries, lanes)
