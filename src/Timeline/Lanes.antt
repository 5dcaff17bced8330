-- ===== src/Timeline/Lanes.antt =====
-- What the lanes of a swimlane hold (backend/src/services/timeline.py).
use watari.Base.{
  All, All-keep_if, All-reverse, All-take, Bool-cases, List, String, [], ap, append_assoc,
  append_nil, arith, false, if◌then◌else◌, inl, inr, keep_if, leb, length, length-take, refl,
  str_eq, str_eq_iff, sym, take, true, ℕ, ◌++◌, ◌↔◌, ◌∙◌, ◌∷◌, ◌≡◌, ◌≤◌,
}
use watari.Timeline.Swimlane.{
  Lane, Lanes, append_to, append_to_all, build_swimlane, fill_lanes, lane_eq, lanes_of_entry,
  list_entries, ordered,
}
use watari.Timeline.Clustering.{find_clusters, insert_entry, sorted}
use watari.Exec.{ok}
use watari.Store.{Session, TimelineAssetLink, TimelineEntry}
use watari.Timeline.Service.{TimelineFilters, is_shown}

-- `lanes.get(k, [])`
abbrev pub lane : Lane → Lanes → List ℕ
lane k [] = []
lane k ((l, ids) ∷ lanes) = if lane_eq l k then ids else lane k lanes

-- The id once for each time that the lane is among those given.
abbrev pub copies : Lane → List Lane → ℕ → List ℕ
copies k [] id = []
copies k (l ∷ ls) id = (if lane_eq l k then id ∷ [] else []) ++ copies k ls id

-- The ids of the entries that belong in a lane, in the order of the entries.
abbrev pub belonging : Lane → List TimelineAssetLink → List TimelineEntry → List ℕ
belonging k links [] = []
belonging k links (e ∷ es) = copies k (lanes_of_entry links e) e.id ++ belonging k links es

lane_eq_iff : (a b : Lane) → (lane_eq a b ≡ true) ↔ (a ≡ b)
lane_eq_iff (Lane.asset a) (Lane.asset b) = ground arith
lane_eq_iff (Lane.asset a) (Lane.user b) = ground arith
lane_eq_iff (Lane.asset a) (Lane.category b) = ground arith
lane_eq_iff (Lane.user a) (Lane.asset b) = ground arith
lane_eq_iff (Lane.user a) (Lane.user b) = ground arith
lane_eq_iff (Lane.user a) (Lane.category b) = ground arith
lane_eq_iff (Lane.category a) (Lane.asset b) = ground arith
lane_eq_iff (Lane.category a) (Lane.user b) = ground arith
lane_eq_iff (Lane.category a) (Lane.category b) =
    (λ h. ap Lane.category ((str_eq_iff a b).0 h), λ h. (str_eq_iff a b).1 (ap label h))
  where
    label : Lane → String
    label (Lane.category t) = t
    label _ = ""

-- Two lanes of which a third is equal to one and not to the other.
lane_eq_differs : (k l m : Lane) → lane_eq m l ≡ false → lane_eq m k ≡ true → lane_eq l k ≡ false
lane_eq_differs k l m differs same_lane = elim (Bool-cases (lane_eq l k)) [
  | inr h ↦ h
  | inl h ↦
      let same : m ≡ l = (lane_eq_iff m k).0 same_lane ∙ sym ((lane_eq_iff l k).0 h) in
      let it : lane_eq m l ≡ true = (lane_eq_iff m l).1 same in absurd (ground arith)
]

lane-append_to :
    (k l : Lane) (id : ℕ) (lanes : Lanes)
    → lane k (append_to l id lanes) ≡ lane k lanes ++ (if lane_eq l k then id ∷ [] else [])
unfolding append_to
lane-append_to k l id [] = ground arith
lane-append_to k l id ((m, ids) ∷ lanes) =
    let ih = lane-append_to k l id lanes in
    elim (Bool-cases (lane_eq m l)) [
      | inl e ↦
          let same : lane_eq m k ≡ lane_eq l k = ap (λ x. lane_eq x k) ((lane_eq_iff m l).0 e) in
          elim (Bool-cases (lane_eq m k)) [
            | inl h ↦ ground arith
            | inr h ↦ ground (arith, append_nil (lane k lanes))
          ]
      | inr e ↦ elim (Bool-cases (lane_eq m k)) [
        | inl h ↦ ground (arith, lane_eq_differs k l m e h, append_nil ids)
        | inr h ↦ ground arith
      ]
    ]

lane-append_to_all :
    (k : Lane) (ls : List Lane) (id : ℕ) (lanes : Lanes)
    → lane k (append_to_all ls id lanes) ≡ lane k lanes ++ copies k ls id
unfolding append_to_all
lane-append_to_all k [] id lanes = sym (append_nil (lane k lanes))
lane-append_to_all k (l ∷ ls) id lanes =
    let here = if lane_eq l k then id ∷ [] else [] in
    lane-append_to_all k ls id (append_to l id lanes)
    ∙ ap (λ us. us ++ copies k ls id) (lane-append_to k l id lanes)
    ∙ append_assoc (lane k lanes) here (copies k ls id)

lane-fill_lanes :
    (k : Lane) (links : List TimelineAssetLink) (es : List TimelineEntry) (lanes : Lanes)
    → lane k (fill_lanes links es lanes) ≡ lane k lanes ++ belonging k links es
unfolding fill_lanes
lane-fill_lanes k links [] lanes = sym (append_nil (lane k lanes))
lane-fill_lanes k links (e ∷ es) lanes =
    let here = copies k (lanes_of_entry links e) e.id in
    lane-fill_lanes k links es (append_to_all (lanes_of_entry links e) e.id lanes)
    ∙ ap (λ us. us ++ belonging k links es)
        (lane-append_to_all k (lanes_of_entry links e) e.id lanes)
    ∙ append_assoc (lane k lanes) here (belonging k links es)

insert_entry-All :
    (P : TimelineEntry → Type 0) (e : TimelineEntry) (xs : List TimelineEntry)
    → P e
    → All P xs
    → All P (insert_entry e xs)
unfolding insert_entry
insert_entry-All P e [] p h = (p, tt)
insert_entry-All P e (x ∷ xs) p (k, h) =
    elim (Bool-cases (leb e.event_timestamp x.event_timestamp)) [
      | inl le ↦ rw le (p, (k, h))
      | inr gt ↦ rw gt (k, insert_entry-All P e xs p h)
    ]

sorted-All : (P : TimelineEntry → Type 0) (xs : List TimelineEntry) → All P xs → All P (sorted xs)
unfolding sorted
sorted-All P [] h = tt
sorted-All P (x ∷ xs) (p, h) = insert_entry-All P x (sorted xs) p (sorted-All P xs h)

ordered-All :
    (P : TimelineEntry → Type 0) (order : String) (xs : List TimelineEntry)
    → All P xs
    → All P (ordered order xs)
ordered-All P order xs h = elim (Bool-cases (str_eq order "asc")) [
  | inl e ↦ rw e (sorted-All P xs h)
  | inr e ↦ rw e (All-reverse P (sorted xs) (sorted-All P xs h))
]

-- `build_swimlane` returns at most 2000 entries, all of which the filters show, their clusters,
-- and lanes of which each holds the ids of exactly the entries that belong in it, in their order
-- and as often as they belong; and it leaves the session as it was.
pub build_swimlane_lanes :
    (case_id threshold : ℕ) (filters : TimelineFilters) (s : Session)
    → (es : List TimelineEntry) × (lanes : Lanes) × (build_swimlane case_id filters threshold s
        ≡ (ok (es, find_clusters threshold es, lanes), s))
      × ((k : Lane) → lane k lanes ≡ belonging k s.asset_links es)
      × (length es ≤ 2000)
      × All (λ e. is_shown case_id filters e ≡ true) es
unfolding build_swimlane list_entries
build_swimlane_lanes case_id threshold filters s =
    let shown = keep_if (is_shown case_id filters) s.entries in
    let es = take 2000 (ordered filters.order shown) in
    (
      es,
      fill_lanes s.asset_links es [],
      refl,
      (λ k. lane-fill_lanes k s.asset_links es []),
      length-take 2000 (ordered filters.order shown),
      All-take (λ e. is_shown case_id filters e ≡ true) 2000 (ordered filters.order shown)
          (ordered-All (λ e. is_shown case_id filters e ≡ true) filters.order shown
            (All-keep_if (is_shown case_id filters) s.entries)),
    )
