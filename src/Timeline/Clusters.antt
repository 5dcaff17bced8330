-- ===== src/Timeline/Clusters.antt =====
-- What `find_clusters` (backend/src/services/clustering.py) gives.
use watari.Base.{
  All, Bool, Bool-cases, List, [], ap, append_assoc, arith, empty_cases, false, inl, inr, keep_if,
  leb, length, map, refl, sym, true, ℕ, ◌++◌, ◌+◌, ◌<◌, ◌∙◌, ◌∷◌, ◌≡◌, ◌≤◌, ◌⊎◌,
}
use watari.Timeline.Clustering.{
  cluster_of, clusters_from, find_clusters, flush, insert_entry, last, sorted,
}
use watari.Store.{TimelineEntry}

-- A group of entries: the first, and the others.
abbrev pub Group : Type 0
Group = TimelineEntry × List TimelineEntry

abbrev pub flatten : List Group → List TimelineEntry
flatten [] = []
flatten ((first, more) ∷ gs) = (first ∷ more) ++ flatten gs

abbrev pub is_plural : Group → Bool
is_plural (first, []) = false
is_plural (first, x ∷ xs) = true

-- No entry is earlier than the one before.
abbrev pub StartsAfter : ℕ → List TimelineEntry → Type 0
StartsAfter t [] = Unit {0}
StartsAfter t (x ∷ xs) = t ≤ x.event_timestamp

abbrev pub IsSorted : List TimelineEntry → Type 0
IsSorted [] = Unit {0}
IsSorted (x ∷ xs) = StartsAfter x.event_timestamp xs × IsSorted xs

module _ (threshold : ℕ) where
  -- Each entry comes at most the threshold after the one before.
  abbrev pub IsChain : TimelineEntry → List TimelineEntry → Type 0
  IsChain first [] = Unit {0}
  IsChain first (x ∷ xs) = (x.event_timestamp ≤ first.event_timestamp + threshold) × IsChain x xs

  -- Each group starts later than the threshold after the end of the one before.
  abbrev pub AreApart : List Group → Type 0
  AreApart [] = Unit {0}
  AreApart (g ∷ []) = Unit {0}
  AreApart (g ∷ h ∷ gs) =
      ((last g.0 g.1).event_timestamp + threshold < h.0.event_timestamp) × AreApart (h ∷ gs)

  append-IsChain :
      (first : TimelineEntry) (more : List TimelineEntry) (e : TimelineEntry)
      → IsChain first more
      → e.event_timestamp ≤ (last first more).event_timestamp + threshold
      → IsChain first (more ++ e ∷ [])
  append-IsChain first [] e h le = (le, tt)
  append-IsChain first (x ∷ xs) e (p, h) le = (p, append-IsChain x xs e h le)

  abbrev is_near : TimelineEntry → List TimelineEntry → TimelineEntry → Bool
  is_near first more e = leb e.event_timestamp ((last first more).event_timestamp + threshold)

  step_cases :
      (first : TimelineEntry) (more : List TimelineEntry) (e : TimelineEntry)
      (es : List TimelineEntry)
      → ((e.event_timestamp ≤ (last first more).event_timestamp + threshold)
          × (clusters_from threshold first more (e ∷ es)
              ≡ clusters_from threshold first (more ++ e ∷ []) es))
        ⊎ (((last first more).event_timestamp + threshold < e.event_timestamp)
            × (clusters_from threshold first more (e ∷ es)
                ≡ flush first more (clusters_from threshold e [] es)))
  unfolding clusters_from
  step_cases first more e es = elim (Bool-cases (is_near first more e)) [
    | inl near ↦ inl (ground arith, rw (near, clusters_from) refl)
    | inr far ↦ inr (ground arith, rw (far, clusters_from) refl)
  ]

  -- The groups of the entries `first ∷ more`, which are one chain, and those that follow.
  abbrev IsGrouping : TimelineEntry → List TimelineEntry → List TimelineEntry → Type 0
  IsGrouping first more es =
      (g : Group) × (gs : List Group) × (g.0 ≡ first)
      × (flatten (g ∷ gs) ≡ (first ∷ more) ++ es)
      × All (λ h. IsChain h.0 h.1) (g ∷ gs)
      × AreApart (g ∷ gs)
      × (clusters_from threshold first more es ≡ map cluster_of (keep_if is_plural (g ∷ gs)))

  flush_lem :
      (first : TimelineEntry) (more : List TimelineEntry) (gs : List Group)
      → flush first more (map cluster_of (keep_if is_plural gs))
        ≡ map cluster_of (keep_if is_plural ((first, more) ∷ gs))
  unfolding flush
  flush_lem first [] gs = refl
  flush_lem first (x ∷ xs) gs = refl

  grouping :
      (es more : List TimelineEntry) (first : TimelineEntry)
      → IsChain first more
      → IsGrouping first more es
  unfolding clusters_from
  grouping [] more first chain =
      ((first, more), [], refl, refl, (chain, tt), tt, flush_lem first more [])
  grouping (e ∷ es) more first chain = elim (step_cases first more e es) [
    | inl (near, step) ↦
        let (g, gs, head, all_of, chains, apart, same) =
          grouping es (more ++ e ∷ []) first (append-IsChain first more e chain near) in
        (g, gs, head, all_of ∙ append_assoc (first ∷ more) (e ∷ []) es, chains, apart, step ∙ same)
    | inr (far, step) ↦
        let (g, gs, head, all_of, chains, apart, same) = grouping es [] e tt in
        (
          (first, more),
          g ∷ gs,
          refl,
          ap (λ xs. (first ∷ more) ++ xs) all_of,
          (chain, chains),
          (rw head far, apart),
          step ∙ ap (flush first more) same ∙ flush_lem first more (g ∷ gs),
        )
  ]

insert_entry-StartsAfter :
    (e : TimelineEntry) (t : ℕ) (xs : List TimelineEntry)
    → t ≤ e.event_timestamp
    → StartsAfter t xs
    → StartsAfter t (insert_entry e xs)
unfolding insert_entry
insert_entry-StartsAfter e t [] le h = le
insert_entry-StartsAfter e t (x ∷ xs) le h =
    elim (Bool-cases (leb e.event_timestamp x.event_timestamp)) [
      | inl before ↦ rw before le
      | inr after ↦ rw after h
    ]

insert_entry-IsSorted :
    (e : TimelineEntry) (xs : List TimelineEntry) → IsSorted xs → IsSorted (insert_entry e xs)
unfolding insert_entry
insert_entry-IsSorted e [] h = (tt, tt)
insert_entry-IsSorted e (x ∷ xs) (p, h) =
    elim (Bool-cases (leb e.event_timestamp x.event_timestamp)) [
      | inl le ↦ rw le (ground arith, (p, h))
      | inr gt ↦ rw gt (
        insert_entry-StartsAfter e x.event_timestamp xs (ground arith) p,
        insert_entry-IsSorted e xs h,
      )
    ]

sorted-IsSorted : (xs : List TimelineEntry) → IsSorted (sorted xs)
unfolding sorted
sorted-IsSorted [] = tt
sorted-IsSorted (x ∷ xs) = insert_entry-IsSorted x (sorted xs) (sorted-IsSorted xs)

insert_entry-count :
    (q : TimelineEntry → Bool) (e : TimelineEntry) (xs : List TimelineEntry)
    → length (keep_if q (insert_entry e xs)) ≡ length (keep_if q (e ∷ xs))
unfolding insert_entry
insert_entry-count q e [] = refl
insert_entry-count q e (x ∷ xs) = ground (arith, insert_entry-count q e xs)

sorted-count :
    (q : TimelineEntry → Bool) (xs : List TimelineEntry)
    → length (keep_if q (sorted xs)) ≡ length (keep_if q xs)
unfolding sorted
sorted-count q [] = refl
sorted-count q (x ∷ xs) = ground (arith, insert_entry-count q x (sorted xs), sorted-count q xs)

-- The entries, sorted by date, which leaves their number with any property unchanged, are a
-- sequence of groups in each of which an entry comes at most the threshold after the one before,
-- and between which more than the threshold passes; the clusters are the groups of two entries and
-- more.
pub find_clusters_lem :
    (threshold : ℕ) (entries : List TimelineEntry)
    → (gs : List Group) × (flatten gs ≡ sorted entries)
      × IsSorted (sorted entries)
      × ((q : TimelineEntry → Bool)
          → length (keep_if q (sorted entries)) ≡ length (keep_if q entries))
      × All (λ g. IsChain threshold g.0 g.1) gs
      × AreApart threshold gs
      × (find_clusters threshold entries ≡ map cluster_of (keep_if is_plural gs))
unfolding find_clusters
find_clusters_lem threshold entries = elim (empty_cases (sorted entries)) [
  | inl e ↦ ([], sym e, sorted-IsSorted entries, (λ q. sorted-count q entries), tt, tt, rw e refl)
  | inr (x, xs, e) ↦
      let (g, gs, head, all_of, chains, apart, same) = grouping threshold xs [] x tt in
      (
        g ∷ gs,
        all_of ∙ sym e,
        sorted-IsSorted entries,
        (λ q. sorted-count q entries),
        chains,
        apart,
        rw e same,
      )
]
