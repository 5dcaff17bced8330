-- ===== src/Tests/Attack.antt =====
-- A heatmap of two mappings of one technique, of the search and of the map.
use watari.Attack.Cells.{HasUniqueCells, find_cell, is_of}
use watari.Attack.Described.{Describes, build_heatmap_lem}
use watari.Attack.Heatmap.{HeatmapFilters, build_heatmap, query_heatmap}
use watari.Base.{
  All, List, [], if◌then◌else◌, keep_if, leb, length, map, none, not, refl, some, str_eq, true, ℕ,
  ◌*◌, ◌+◌, ◌-◌, ◌/◌, ◌∷◌, ◌≡◌, ◌≤◌,
}
use watari.Geospatial.Partition.{IsClustering, alone, cluster_points_lem}
use watari.Geospatial.Points.{pos, Floats, Marker, cluster_points}
use watari.Search.Hits.{IsHit, IsRanked, search_lem}
use watari.Search.Service.{SearchEntityType, SearchRequest, Texts, search}
use watari.Exec.{ok}
use watari.Store.{AttackMapping, Session}
use watari.Tests.Samples.{session}

abbrev mapping_of : ℕ → ℕ → AttackMapping
mapping_of id case_id = record {
  id = id;
  tenant_id = 7;
  case_id = some case_id;
  observable_id = none;
  timeline_entry_id = none;
  tactic_id = "TA0001";
  technique_id = "T1566";
  sub_technique_id = none;
  created_by = 90;
  created_at = 5;
}

abbrev mapped_session : Session
mapped_session = record session { attack_mappings = mapping_of 80 2 ∷ mapping_of 81 1 ∷ [] }

abbrev no_filters : HeatmapFilters
no_filters = record {
  created_after = none;
  created_before = none;
  case_severity = none;
  case_status = none;
}

build_heatmap_lem_example :
    HasUniqueCells (build_heatmap 7 no_filters mapped_session)
    × Describes mapped_session.world.set_order
        ("TA0001", "T1566")
        (keep_if (is_of ("TA0001", "T1566")) (query_heatmap 7 no_filters mapped_session))
        (find_cell ("TA0001", "T1566") (build_heatmap 7 no_filters mapped_session))
build_heatmap_lem_example =
    build_heatmap_lem 7 no_filters mapped_session ("TA0001", "T1566") (λ v ts. refl)

two_cases :
    build_heatmap 7 no_filters mapped_session
    ≡ (record {
      key = ("TA0001", "T1566");
      case_count = 2;
      max_severity = some "high";
      linked_case_ids = 1 ∷ 2 ∷ [];
    })
      ∷ []
unfolding build_heatmap
two_cases = refl

abbrev texts : Texts
texts = record {
  strip = λ v. v;
  lower = λ v. v;
  is_in = λ needle text. str_eq needle text;
  find = λ needle text. none;
  len = λ v. 10;
  slice = λ start end v. v;
  ilike = λ value pattern. not (str_eq value "");
  leb_text = λ a b. true;
}

abbrev search_request : SearchRequest
search_request = record {
  query = "Phishing";
  entity_types = SearchEntityType.case ∷ SearchEntityType.observable ∷ [];
  limit = 3;
}

search_lem_example :
    (length (search texts 7 search_request session).hits ≤ 3)
    × ((search texts 7 search_request session).total_hits
        ≡ length (search texts 7 search_request session).hits)
    × All (IsHit texts 7 search_request session) (search texts 7 search_request session).hits
    × IsRanked texts (search texts 7 search_request session).hits
search_lem_example = search_lem texts 7 search_request session

-- Numbers in place of floats, where a literal is 0 and every point is near.
abbrev naturals : Floats ℕ
naturals = record {
  literal = λ v. if str_eq v "0.0" then 0 else 9;
  of_int = λ n. n;
  add = λ a b. a + b;
  sub = λ a b. a - b;
  mul = λ a b. a * b;
  div = λ a b. a / b;
  le = λ a b. leb a b;
  round = λ x n. x;
  radians = λ x. x;
  sin = λ x. 0;
  cos = λ x. 0;
  asin = λ x. some x;
  sqrt = λ x. some x;
}

abbrev markers : List (Marker ℕ)
markers =
    (1, record { latitude = 3; longitude = 4 }) ∷ (2, record { latitude = 3; longitude = 5 }) ∷ []

cluster_points_lem_example :
    IsClustering naturals markers 2 (cluster_points naturals markers (pos 3))
    × (cluster_points naturals markers (pos (12 + 1)) ≡ ok (map (alone naturals) markers))
cluster_points_lem_example = cluster_points_lem naturals refl markers (pos 3) 2 1
