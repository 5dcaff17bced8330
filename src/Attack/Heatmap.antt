-- ===== src/Attack/Heatmap.antt =====
-- The heatmap (backend/src/services/attack.py): the aggregation of the mappings by tactic and technique.
-- A set is the list of its elements in the order of their arrival; a UUID is ordered as its number.
use Prim.Native.String.{compare}
use Prim.Native.Nat.{Ordering}
use watari.Base.{
  Bool, List, Option, String, [], contains, false, if◌then◌else◌, keep_if, leb, length, ltb, map,
  none, some, str_eq, true, ℕ, ◌&&◌, ◌++◌, ◌==◌, ◌||◌, ◌∷◌,
}
use watari.Store.{AttackMapping, Case, Session, case_key, severity_text, status_text}
use watari.Table.{find_row}
use watari.Timeline.Service.{where_date}

abbrev pub Key : Type 0
Key = String × String

abbrev pub key_eq : Key → Key → Bool
key_eq (tactic, technique) (tactic', technique') =
    str_eq tactic tactic' && str_eq technique technique'

-- A row of the query: a tuple (tactic, technique, case_id, severity).
pub record HeatmapRow : Type 0 where
  pub key : Key
  pub case_id : Option ℕ
  pub severity : Option String

-- The dict with the two sets of a cell.
pub record CellData : Type 0 where
  pub case_ids : List ℕ
  pub severities : List String

pub record AttackHeatmapCell : Type 0 where
  pub key : Key
  pub case_count : ℕ
  pub max_severity : Option String
  pub linked_case_ids : List ℕ

abbrev pub empty_data : CellData
empty_data = record { case_ids = []; severities = [] }

-- `if case_id is not None: cell["case_ids"].add(case_id)`
abbrev pub add_case_id : Option ℕ → List ℕ → List ℕ
add_case_id none ids = ids
add_case_id (some id) ids = if contains id ids then ids else ids ++ id ∷ []

abbrev pub contains_text : String → List String → Bool
contains_text v [] = false
contains_text v (x ∷ xs) = str_eq x v || contains_text v xs

abbrev pub add_text : String → List String → List String
add_text v texts = if contains_text v texts then texts else texts ++ v ∷ []

-- `if severity: cell["severities"].add(severity)`
abbrev pub add_severity : Option String → List String → List String
add_severity none texts = texts
add_severity (some v) texts = if str_eq v "" then texts else add_text v texts

abbrev pub add_to_cell : HeatmapRow → CellData → CellData
add_to_cell r d = record {
  case_ids = add_case_id r.case_id d.case_ids;
  severities = add_severity r.severity d.severities;
}

abbrev pub Cells : Type 0
Cells = List (Key × CellData)

-- `cells.setdefault(key, …)`, and what the loop adds to the cell.
unfoldable pub add_heatmap_row : HeatmapRow → Cells → Cells
add_heatmap_row r [] = (r.key, add_to_cell r empty_data) ∷ []
add_heatmap_row r ((k, d) ∷ cells) =
    let rest = add_heatmap_row r cells in
    if key_eq k r.key then (k, add_to_cell r d) ∷ cells else (k, d) ∷ rest

unfoldable pub aggregate : List HeatmapRow → Cells → Cells
unfolding add_heatmap_row
aggregate [] cells = cells
aggregate (r ∷ rows) cells = aggregate rows (add_heatmap_row r cells)

-- `_SEVERITY_RANK.get(s, -1)`, plus one.
unfoldable pub severity_rank : String → ℕ
severity_rank v =
    if str_eq v "critical"
    then 5
    else if str_eq v "high"
    then 4
    else if str_eq v "medium"
    then 3
    else if str_eq v "low"
    then 2
    else if str_eq v "informational"
    then 1
    else 0

-- `max(…, key=…)`: the first of the greatest.
unfoldable pub max_from : String → List String → String
unfolding severity_rank
max_from best [] = best
max_from best (v ∷ vs) =
    max_from (if ltb (severity_rank best) (severity_rank v) then v else best) vs

abbrev pub max_of : List String → Option String
max_of [] = none
max_of (v ∷ vs) = some (max_from v vs)

unfoldable pub insert_id : ℕ → List ℕ → List ℕ
insert_id x [] = x ∷ []
insert_id x (y ∷ ys) = let rest = insert_id x ys in if leb x y then x ∷ y ∷ ys else y ∷ rest

-- `sorted(data["case_ids"])`
unfoldable pub sorted_ids : List ℕ → List ℕ
unfolding insert_id
sorted_ids [] = []
sorted_ids (x ∷ xs) = insert_id x (sorted_ids xs)

-- `<=` on the pairs, as Python compares texts and tuples.
abbrev pub key_leb : Key → Key → Bool
key_leb (tactic, technique) (tactic', technique') = elim (compare tactic tactic') [
  | Ordering.lt ↦ true
  | Ordering.gt ↦ false
  | Ordering.eq ↦ elim (compare technique technique') [ Ordering.gt ↦ false | _ ↦ true ]
]

unfoldable pub insert_cell : AttackHeatmapCell → List AttackHeatmapCell → List AttackHeatmapCell
insert_cell c [] = c ∷ []
insert_cell c (x ∷ xs) =
    let rest = insert_cell c xs in if key_leb c.key x.key then c ∷ x ∷ xs else x ∷ rest

-- `out.sort(key=lambda c: (c.tactic_id, c.technique_id))`
unfoldable pub sorted_cells : List AttackHeatmapCell → List AttackHeatmapCell
unfolding insert_cell
sorted_cells [] = []
sorted_cells (c ∷ cs) = insert_cell c (sorted_cells cs)

module _ (set_order : List String → List String) where
  abbrev pub cell_of : Key × CellData → AttackHeatmapCell
  cell_of (k, d) = record {
    key = k;
    case_count = length d.case_ids;
    max_severity = max_of (set_order d.severities);
    linked_case_ids = sorted_ids d.case_ids;
  }

  unfoldable pub compute_heatmap_cells : List HeatmapRow → List AttackHeatmapCell
  unfolding aggregate sorted_cells sorted_ids max_from
  compute_heatmap_cells rows = sorted_cells (map cell_of (aggregate rows []))

-- The parameters of `build_heatmap`.
pub record HeatmapFilters : Type 0 where
  pub created_after : Option ℕ
  pub created_before : Option ℕ
  pub case_severity : Option String
  pub case_status : Option String

-- The case that the outer join finds.
abbrev pub joined_case : Option ℕ → List Case → Option Case
joined_case none cases = none
joined_case (some id) cases = find_row case_key id cases

abbrev pub severity_of : Option Case → Option String
severity_of none = none
severity_of (some c) = some (severity_text c.severity)

abbrev pub status_of : Option Case → Option String
status_of none = none
status_of (some c) = some (status_text c.status)

-- `if x: q = q.where(column == x)`, where NULL is equal to nothing.
abbrev pub where_column : Option String → Option String → Bool
where_column none value = true
where_column (some x) none = str_eq x ""
where_column (some x) (some v) = str_eq x "" || str_eq v x

unfoldable pub is_in_heatmap : ℕ → HeatmapFilters → List Case → AttackMapping → Bool
unfolding find_row
is_in_heatmap tenant_id f cases m =
    m.tenant_id == tenant_id
    && (where_date (λ limit t. leb limit t) f.created_after m.created_at
        && (where_date (λ limit t. leb t limit) f.created_before m.created_at
            && (where_column f.case_severity (severity_of (joined_case m.case_id cases))
                && where_column f.case_status (status_of (joined_case m.case_id cases)))))

abbrev pub row_of : List Case → AttackMapping → HeatmapRow
row_of cases m = record {
  key = (m.tactic_id, m.technique_id);
  case_id = m.case_id;
  severity = severity_of (joined_case m.case_id cases);
}

unfoldable pub query_heatmap : ℕ → HeatmapFilters → Session → List HeatmapRow
unfolding is_in_heatmap find_row
query_heatmap tenant_id f s =
    map (row_of s.cases) (keep_if (is_in_heatmap tenant_id f s.cases) s.attack_mappings)

-- The loops are those of `compute_heatmap_cells`.
unfoldable pub build_heatmap : ℕ → HeatmapFilters → Session → List AttackHeatmapCell
unfolding query_heatmap compute_heatmap_cells
build_heatmap tenant_id f s = compute_heatmap_cells s.world.set_order (query_heatmap tenant_id f s)
