-- ===== src/Geospatial/Partition.antt =====
-- The clusters and the markers that they hold (backend/src/services/geospatial.py).
use watari.Base.{
  All, All-append, Bool-cases, List, [], ap, append_assoc, append_nil, arith, if◌then◌else◌, inl,
  inr, length, length-append, ltb, map, refl, suc, sym, true, ℕ, ◌++◌, ◌+◌, ◌==◌, ◌∙◌, ◌∷◌, ◌≡◌,
  ◌≤◌,
}
use watari.Exec.{Error, Result, err, ok}
use watari.Geospatial.Points.{
  GeoPoint, keep_group, to_clusters, Cluster, Floats, Marker, add_marker, centroid,
  cluster_of_group, cluster_points, cluster_radius_km, group_points, haversine_km, ids_of, place,
  pos, ℤ,
}

-- How often the id is in the list.
abbrev pub count : ℕ → List ℕ → ℕ
count i [] = 0
count i (x ∷ xs) = if x == i then suc (count i xs) else count i xs

count-append : (i : ℕ) (xs ys : List ℕ) → count i (xs ++ ys) ≡ count i xs + count i ys
count-append i [] ys = omega arith
count-append i (x ∷ xs) ys = ground (arith, count-append i xs ys)

module _ {F : Type 0} (floats : Floats F) where
  -- How often the id is in the clusters.
  abbrev pub count_in : ℕ → List (Cluster F) → ℕ
  count_in i [] = 0
  count_in i (c ∷ clusters) = count i c.point_ids + count_in i clusters

  abbrev count_groups : ℕ → List (List (Marker F)) → ℕ
  count_groups i [] = 0
  count_groups i (g ∷ groups) = count i (ids_of floats g) + count_groups i groups

  ids-append :
      (g : List (Marker F)) (m : Marker F)
      → ids_of floats (g ++ m ∷ []) ≡ ids_of floats g ++ m.0 ∷ []
  ids-append [] m = refl
  ids-append (x ∷ g) m = ap (λ ids. x.0 ∷ ids) (ids-append g m)

  -- A group that has a marker.
  abbrev HasMarker : List (Marker F) → Type 0
  HasMarker g = 1 ≤ length (ids_of floats g)

  -- Some distance is a ValueError.
  abbrev pub HasNoDistance : Error → Type 0
  HasNoDistance e = (a : GeoPoint F) × (b : GeoPoint F) × (haversine_km floats a b ≡ err e)

  -- Groups that hold the markers of others and those of a list, or the error of a distance.
  abbrev Gains : List (Marker F) → List (List (Marker F)) → Result (List (List (Marker F))) → Type 0
  Gains new groups (err e) = HasNoDistance e
  Gains new groups (ok groups') =
      ((i : ℕ) → count_groups i groups' ≡ count_groups i groups + count i (ids_of floats new))
      × All HasMarker groups'

  Gains-keep_group :
      (m : Marker F) (g : List (Marker F)) (groups : List (List (Marker F)))
      (r : Result (List (List (Marker F))))
      → HasMarker g
      → Gains (m ∷ []) groups r
      → Gains (m ∷ []) (g ∷ groups) (keep_group floats g r)
  Gains-keep_group m g groups (err e) p gains = gains
  Gains-keep_group m g groups (ok groups') p (counts, a) = (λ i. omega (arith, counts i), (p, a))

  -- One round of the loop, where `rest` is what the others make of the marker.
  round-Gains :
      (radius : F) (m : Marker F) (g : List (Marker F)) (groups : List (List (Marker F)))
      (rest : Result (List (List (Marker F)))) (r : Result F)
      → haversine_km floats (centroid floats g) m.1 ≡ r
      → HasMarker g
      → All HasMarker groups
      → Gains (m ∷ []) groups rest
      → Gains (m ∷ []) (g ∷ groups) (elim r [
        | err e ↦ err e
        | ok distance ↦
            if floats.le distance radius
            then ok ((g ++ m ∷ []) ∷ groups)
            else keep_group floats g rest
      ])
  round-Gains radius m g groups rest (err e) h p a gains = (centroid floats g, m.1, h)
  round-Gains radius m g groups rest (ok d) h p a gains = elim (Bool-cases (floats.le d radius)) [
    | inl near ↦ rw near (joined, (grown, a))
    | inr far ↦ rw far (Gains-keep_group m g groups rest p gains)
  ]
    where
      joined :
          (i : ℕ)
          → count_groups i ((g ++ m ∷ []) ∷ groups)
            ≡ count_groups i (g ∷ groups) + count i (m.0 ∷ [])
      joined i =
          let ids = ap (count i) (ids-append g m) ∙ count-append i (ids_of floats g) (m.0 ∷ []) in
          omega (arith, ids)

      grown : HasMarker (g ++ m ∷ [])
      grown = omega (arith, ap length (ids-append g m), length-append (ids_of floats g) (m.0 ∷ []))

  place-Gains :
      (radius : F) (m : Marker F) (groups : List (List (Marker F)))
      → All HasMarker groups
      → Gains (m ∷ []) groups (place floats radius m groups)
  unfolding place
  place-Gains radius m [] a = (λ i. omega arith, (omega arith, tt))
  place-Gains radius m (g ∷ groups) (p, a) =
      round-Gains radius m g groups (place floats radius m groups)
        (haversine_km floats (centroid floats g) m.1) refl p a (place-Gains radius m groups a)

  count-alone :
      (i : ℕ) (m : Marker F) (groups : List (List (Marker F)))
      → count_groups i (groups ++ (m ∷ []) ∷ []) ≡ count_groups i groups + count i (m.0 ∷ [])
  count-alone i m [] = omega arith
  count-alone i m (g ∷ groups) = omega (arith, count-alone i m groups)

  add_marker-Gains :
      (radius : F) (m : Marker F) (groups : List (List (Marker F)))
      → All HasMarker groups
      → Gains (m ∷ []) groups (add_marker floats radius m groups)
  add_marker-Gains radius m groups a = elim (Bool-cases (floats.le radius (floats.of_int 0))) [
    | inl e ↦ rw e (
      λ i. count-alone i m groups,
      All-append HasMarker groups ((m ∷ []) ∷ []) a (omega arith, tt),
    )
    | inr e ↦ rw e (place-Gains radius m groups a)
  ]

  -- The markers of one addition and of those that follow it.
  Gains-then :
      (m : Marker F) (points : List (Marker F)) (groups groups' : List (List (Marker F)))
      (r : Result (List (List (Marker F))))
      → ((i : ℕ) → count_groups i groups' ≡ count_groups i groups + count i (m.0 ∷ []))
      → Gains points groups' r
      → Gains (m ∷ points) groups r
  Gains-then m points groups groups' (err e) first later = later
  Gains-then m points groups groups' (ok groups'') first (later, a) =
      (λ i. omega (arith, first i, later i, count-append i (m.0 ∷ []) (ids_of floats points)), a)

  step-Gains :
      (m : Marker F) (points : List (Marker F)) (groups : List (List (Marker F)))
      (others : List (List (Marker F)) → Result (List (List (Marker F))))
      (r : Result (List (List (Marker F))))
      → Gains (m ∷ []) groups r
      → ((groups' : List (List (Marker F)))
          → All HasMarker groups'
          → Gains points groups' (others groups'))
      → Gains (m ∷ points) groups (elim r [ err e ↦ err e | ok groups' ↦ others groups' ])
  step-Gains m points groups others (err e) gains later = gains
  step-Gains m points groups others (ok groups') (first, a) later =
      Gains-then m points groups groups' (others groups') first (later groups' a)

  group_points-Gains :
      (radius : F) (points : List (Marker F)) (groups : List (List (Marker F)))
      → All HasMarker groups
      → Gains points groups (group_points floats radius points groups)
  unfolding group_points
  group_points-Gains radius [] groups a = (λ i. omega arith, a)
  group_points-Gains radius (m ∷ points) groups a =
      step-Gains m points groups (group_points floats radius points)
        (add_marker floats radius m groups) (add_marker-Gains radius m groups a)
        (group_points-Gains radius points)

  count_clusters :
      (i : ℕ) (groups : List (List (Marker F)))
      → count_in i (map (cluster_of_group floats) groups) ≡ count_groups i groups
  count_clusters i [] = refl
  count_clusters i (g ∷ groups) = ap (λ n. count i (ids_of floats g) + n) (count_clusters i groups)

  -- A marker by itself.
  abbrev pub alone : Marker F → Cluster F
  alone m = cluster_of_group floats (m ∷ [])

  singles :
      (radius : F)
      → floats.le radius (floats.of_int 0) ≡ true
      → (points : List (Marker F)) (groups : List (List (Marker F)))
      → group_points floats radius points groups ≡ ok (groups ++ map (λ m. m ∷ []) points)
  unfolding group_points
  singles radius e [] groups = ap ok (sym (append_nil groups))
  singles radius e (m ∷ points) groups =
      rw (e, group_points)
        (singles radius e points (groups ++ (m ∷ []) ∷ [])
          ∙ ap ok (append_assoc groups ((m ∷ []) ∷ []) (map (λ m. m ∷ []) points)))

  map-map :
      (points : List (Marker F))
      → map (cluster_of_group floats) (map (λ m. m ∷ []) points) ≡ map alone points
  map-map [] = refl
  map-map (m ∷ points) = ap (λ cs. alone m ∷ cs) (map-map points)

  filled :
      (groups : List (List (Marker F)))
      → All HasMarker groups
      → All (λ (c : Cluster F). 1 ≤ length c.point_ids) (map (cluster_of_group floats) groups)
  filled [] a = tt
  filled (g ∷ groups) (p, a) = (p, filled groups a)

  -- The clusters of the markers, or the error of a distance.
  abbrev pub IsClustering : List (Marker F) → ℕ → Result (List (Cluster F)) → Type 0
  IsClustering points i (err e) = HasNoDistance e
  IsClustering points i (ok clusters) =
      (count_in i clusters ≡ count i (ids_of floats points))
      × All (λ (c : Cluster F). 1 ≤ length c.point_ids) clusters

  to_clusters-IsClustering :
      (points : List (Marker F)) (i : ℕ) (r : Result (List (List (Marker F))))
      → Gains points [] r
      → IsClustering points i (to_clusters floats r)
  to_clusters-IsClustering points i (err e) gains = gains
  to_clusters-IsClustering points i (ok groups) (counts, a) =
      (count_clusters i groups ∙ counts i ∙ omega arith, filled groups a)

  -- If `0.0 <= 0`, then at every zoom `cluster_points` raises only an error that `haversine_km`
  -- raises on two points; else each id is in the clusters as often as among the markers and no
  -- cluster is empty. Above zoom 11 it returns, and each marker is a cluster by itself, in the
  -- order of the list.
  pub cluster_points_lem :
      floats.le (floats.literal "0.0") (floats.of_int 0) ≡ true
      → (points : List (Marker F)) (zoom : ℤ) (i n : ℕ)
      → IsClustering points i (cluster_points floats points zoom)
        × (cluster_points floats points (pos (12 + n)) ≡ ok (map alone points))
  unfolding cluster_points cluster_radius_km
  cluster_points_lem zero_le points zoom i n =
      let radius = cluster_radius_km floats zoom in
      let far = cluster_radius_km floats (pos (12 + n)) in
      let is_far : ltb 11 (12 + n) ≡ true = ground arith in
      let far_le : floats.le far (floats.of_int 0) ≡ true = rw is_far zero_le in
      (
        to_clusters-IsClustering points i (group_points floats radius points [])
            (group_points-Gains radius points [] tt),
        ap (to_clusters floats) (singles far far_le points []) ∙ ap ok (map-map points),
      )
