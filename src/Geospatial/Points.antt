-- ===== src/Geospatial/Points.antt =====
-- Markers and their clusters (backend/src/services/geospatial.py). The floating-point numbers and the
-- functions of Python's `math` on them are a parameter.
use watari.Base.{
  Bool, List, Option, String, none, some, [], if◌then◌else◌, length, ltb, map, not, ℕ, ◌&&◌, ◌++◌,
  ◌==◌, ◌∷◌,
}
use watari.Exec.{Result, err, ok, value_error}

-- `zoom` is an int.
pub data ℤ : Type 0 where
  pos negsuc : ℕ → ℤ

-- `float` with its literals, operations and comparison, `round`, and the functions of `math`, where
-- `none` is the ValueError of an argument outside the domain.
pub record Floats (F : Type 0) : Type 0 where
  pub literal : String → F
  pub of_int : ℕ → F
  pub add : F → F → F
  pub sub : F → F → F
  pub mul : F → F → F
  pub div : F → F → F
  pub le : F → F → Bool
  pub round : F → ℕ → F
  pub radians : F → F
  pub sin : F → F
  pub cos : F → F
  pub asin : F → Option F
  pub sqrt : F → Option F

pub record GeoPoint (F : Type 0) : Type 0 where
  pub latitude : F
  pub longitude : F

pub record Cluster (F : Type 0) : Type 0 where
  pub latitude : F
  pub longitude : F
  pub point_ids : List ℕ

-- A marker of the list: its id and its place.
abbrev pub Marker : Type 0 → Type 0
Marker F = ℕ × GeoPoint F

abbrev pub coord_rounding : ℕ
coord_rounding = 4

module _ {F : Type 0} (floats : Floats F) where
  abbrev pub is_between : String → F → String → Bool
  is_between low x high = floats.le (floats.literal low) x && floats.le x (floats.literal high)

  unfoldable pub normalize_marker : F → F → Result (GeoPoint F)
  normalize_marker lat lng =
      if not (is_between "-90.0" lat "90.0")
      then err value_error
      else if not (is_between "-180.0" lng "180.0")
      then err value_error
      else ok (record {
        latitude = floats.round lat coord_rounding;
        longitude = floats.round lng coord_rounding;
      })

  abbrev pub halved : F → F
  halved x = floats.div x (floats.of_int 2)

  abbrev pub squared : F → F
  squared x = floats.mul x x

  unfoldable pub haversine_km : GeoPoint F → GeoPoint F → Result F
  haversine_km a b =
      let r_earth_km = floats.literal "6371.0088" in
      let lat1 = floats.radians a.latitude in
      let lat2 = floats.radians b.latitude in
      let d_lat = floats.radians (floats.sub b.latitude a.latitude) in
      let d_lng = floats.radians (floats.sub b.longitude a.longitude) in
      let h = floats.add (squared (floats.sin (halved d_lat))) (
        floats.mul (floats.mul (floats.cos lat1) (floats.cos lat2))
          (squared (floats.sin (halved d_lng)))) in
      elim (floats.sqrt h) [
        | none ↦ err value_error
        | some root ↦ elim (floats.asin root) [
          | none ↦ err value_error
          | some angle ↦ ok (floats.mul (floats.mul (floats.of_int 2) r_earth_km) angle)
        ]
      ]

  -- `_ZOOM_RADIUS_KM`, as its literals.
  abbrev pub zoom_radius_km : ℕ → String
  zoom_radius_km zoom =
      if zoom == 0
      then "5000.0"
      else if zoom == 1
      then "2500.0"
      else if zoom == 2
      then "1000.0"
      else if zoom == 3
      then "500.0"
      else if zoom == 4
      then "250.0"
      else if zoom == 5
      then "100.0"
      else if zoom == 6
      then "50.0"
      else if zoom == 7
      then "25.0"
      else if zoom == 8
      then "10.0"
      else if zoom == 9
      then "5.0"
      else if zoom == 10
      then "2.0"
      else "1.0"

  abbrev pub max_zoom_for_clustering : ℕ
  max_zoom_for_clustering = 11

  unfoldable pub cluster_radius_km : ℤ → F
  cluster_radius_km (pos zoom) =
      if ltb max_zoom_for_clustering zoom
      then floats.literal "0.0"
      else floats.literal (zoom_radius_km zoom)
  cluster_radius_km (negsuc n) = floats.literal (zoom_radius_km 0)

  -- `sum(…)`
  abbrev pub sum_from : F → (GeoPoint F → F) → List (Marker F) → F
  sum_from total f [] = total
  sum_from total f ((pid, pt) ∷ group) = sum_from (floats.add total (f pt)) f group

  unfoldable pub centroid : List (Marker F) → GeoPoint F
  centroid group = record {
    latitude =
        floats.div (sum_from (floats.of_int 0) (λ p. p.latitude) group)
          (floats.of_int (length group));
    longitude =
        floats.div (sum_from (floats.of_int 0) (λ p. p.longitude) group)
          (floats.of_int (length group));
  }

  abbrev pub keep_group :
      List (Marker F) → Result (List (List (Marker F))) → Result (List (List (Marker F)))
  keep_group group (ok clusters) = ok (group ∷ clusters)
  keep_group group (err e) = err e

  -- The loop over the clusters: the first whose centroid is near enough takes the marker, or else it
  -- starts one.
  unfoldable pub place : F → Marker F → List (List (Marker F)) → Result (List (List (Marker F)))
  unfolding centroid haversine_km
  place radius m [] = ok ((m ∷ []) ∷ [])
  place radius m (group ∷ clusters) =
      let rest = place radius m clusters in
      elim (haversine_km (centroid group) m.1) [
        | err e ↦ err e
        | ok distance ↦
            if floats.le distance radius
            then ok ((group ++ m ∷ []) ∷ clusters)
            else keep_group group rest
      ]

  abbrev pub add_marker : F → Marker F → List (List (Marker F)) → Result (List (List (Marker F)))
  add_marker radius m clusters =
      if floats.le radius (floats.of_int 0)
      then ok (clusters ++ (m ∷ []) ∷ [])
      else place radius m clusters

  unfoldable pub group_points :
      F → List (Marker F) → List (List (Marker F)) → Result (List (List (Marker F)))
  unfolding place
  group_points radius [] clusters = ok clusters
  group_points radius (m ∷ points) clusters = elim (add_marker radius m clusters) [
    | err e ↦ err e
    | ok clusters' ↦ group_points radius points clusters'
  ]

  abbrev pub ids_of : List (Marker F) → List ℕ
  ids_of group = map (λ (m : Marker F). m.0) group

  abbrev pub cluster_of_group : List (Marker F) → Cluster F
  cluster_of_group group = record {
    latitude = (centroid group).latitude;
    longitude = (centroid group).longitude;
    point_ids = ids_of group;
  }

  abbrev pub to_clusters : Result (List (List (Marker F))) → Result (List (Cluster F))
  to_clusters (ok groups) = ok (map cluster_of_group groups)
  to_clusters (err e) = err e

  unfoldable pub cluster_points : List (Marker F) → ℤ → Result (List (Cluster F))
  unfolding group_points cluster_radius_km
  cluster_points points zoom = to_clusters (group_points (cluster_radius_km zoom) points [])
