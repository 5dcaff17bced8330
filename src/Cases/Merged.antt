-- ===== src/Cases/Merged.antt =====
-- `merge_cases` (backend/src/services/cases.py) as a whole.
use watari.Base.{
  ==_iff, All, Bool-cases, List, [], ap, arith, contains, false, inl, inr, map, refl, some, subst,
  true, ℕ, ◌++◌, ◌==◌, ◌∙◌, ◌∷◌, ◌≡◌, ◌≢◌, ◌⊎◌,
}
use watari.Cases.Merge.{
  add_merged_from, case_ids, close_at, close_sources, collect_sources, merge_cases, merge_event,
  transfer_all,
}
use watari.Cases.Merging.{
  IsSource, close_sources-closes, close_sources-other, close_sources-rest, collect_sources-IsSource,
  collect_sources-session, merged_case, transfer_all-cases, transfer_all-entries,
  transfer_all-observables,
}
use watari.Store.{Case, Observable, Session, TimelineEntry, case_key}
use watari.Table.{add_row, find-update_ne, find-update_self, find_row, update_row}
use watari.Timeline.Recorder.{
  automatic_entry, record_event, record_event-entries, record_event-kept, record_event-ok,
}
use watari.Exec.{Error, Result-cases, err, ok}
use watari.Cases.Create.{refresh_case}

-- The session once the rows have moved and the target names its sources.
abbrev pub moved : Session → ℕ → List Case → Session
moved s target sources =
    let s' = transfer_all target sources s in
    record s' { cases = update_row case_key target (add_merged_from (case_ids sources)) s'.cases }

-- The session at the end.
abbrev pub merged : Session → Case → List Case → ℕ → Session
merged s target sources actor =
    let s' = moved s target.id sources in
    (close_sources sources
      (record_event (merge_event s'.world.number_text target sources actor) s').1).1

sources-ne-target :
    (s : Session) (target : Case) (sources : List Case)
    → All (IsSource s target) sources
    → contains target.id (case_ids sources) ≡ false
sources-ne-target s target [] h = refl
sources-ne-target s target (c ∷ cs) ((_, _, ne), h) =
    ground (arith, sources-ne-target s target cs h)

IsSource-found :
    (s : Session) (target : Case) (j : ℕ) (sources : List Case)
    → All (IsSource s target) sources
    → contains j (case_ids sources) ≡ true
    → (c : Case) × (find_row case_key j s.cases ≡ some c) × IsSource s target c
IsSource-found s target j [] h e = absurd (cc)
IsSource-found s target j (c ∷ cs) (p, h) e = elim (Bool-cases (c.id == j)) [
  | inl here ↦
      (c, subst (λ k. find_row case_key k s.cases ≡ some c) ((==_iff c.id j).0 here) p.0, p)
  | inr later ↦ IsSource-found s target j cs h (ground arith)
]

module _ (ids : List ℕ) (actor : ℕ) (s : Session) (target : Case)
    (found : find_row case_key target.id s.cases ≡ some target) where
  merge_refused :
      {e : Error}
      → (collect_sources target ids s).0 ≡ err e
      → merge_cases target.id ids actor s ≡ (err e, s)
  unfolding merge_cases
  merge_refused {e} h = ground (arith, collect_sources-session target ids s)

  merge_runs :
      (sources : List Case)
      → (collect_sources target ids s).0 ≡ ok sources
      → merge_cases target.id ids actor s ≡ refresh_case target.id (merged s target sources actor)
  unfolding merge_cases refresh_case
  merge_runs sources h =
      let s' = moved s target.id sources in
      let event = merge_event s'.world.number_text target sources actor in
      ground (
        arith,
        collect_sources-session target ids s,
        record_event-ok event s',
        close_sources-rest sources (record_event event s').1,
      )

  merged-target :
      (sources : List Case)
      → All (IsSource s target) sources
      → find_row case_key target.id (merged s target sources actor).cases
        ≡ some (add_merged_from (case_ids sources) target)
  unfolding add_merged_from
  merged-target sources each =
      let s' = moved s target.id sources in
      let event = merge_event s'.world.number_text target sources actor in
      let named : find_row case_key target.id s'.cases
          ≡ some (add_merged_from (case_ids sources) target) =
        rw ((transfer_all-cases target.id sources s).0) (
          find-update_self case_key target.id (add_merged_from (case_ids sources)) s.cases
            (λ y. refl) found) in
      close_sources-other target.id sources (record_event event s').1
        (sources-ne-target s target sources each)
      ∙ ap (λ k. find_row case_key target.id k.cases) (record_event-kept event s')
      ∙ named

  -- A merge into a case that exists raises and leaves the session as it was, or returns the target
  -- with the ids of the sources appended to `merged_from`, and then every source is in the table,
  -- has the tenant of the target, and is not the target.
  pub merge_cases_result :
      ((e : Error) × (merge_cases target.id ids actor s ≡ (err e, s)))
      ⊎ ((sources : List Case) × (case_ids sources ≡ ids)
          × All (IsSource s target) sources
          × ((merge_cases target.id ids actor s).0
              ≡ ok (record target { merged_from = target.merged_from ++ ids }))
          × ((merge_cases target.id ids actor s).1 ≡ merged s target sources actor))
  unfolding refresh_case add_merged_from
  merge_cases_result = elim (Result-cases (collect_sources target ids s).0) [
    | inr (e, h) ↦ inl (e, merge_refused h)
    | inl (sources, h) ↦
        let (each, same) = collect_sources-IsSource target ids s sources h in
        let run = merge_runs sources h in
        let row = merged-target sources each in
        inr (sources, same, each, ground (arith, run, row, same), ground (arith, run, row))
  ]

  record_event-observables_of_moved :
      (sources : List Case)
      → (merged s target sources actor).observables ≡ (moved s target.id sources).observables
  unfolding record_event
  record_event-observables_of_moved sources =
      let s' = moved s target.id sources in
      let event = merge_event s'.world.number_text target sources actor in
      (close_sources-rest sources (record_event event s').1).1 ∙ ground arith

  -- If the target exists and the merge returns, the observables and timeline entries of the
  -- sources belong to the target, every other such row is as it was, and one entry of type
  -- cases_merged is appended to the timeline, for the target.
  pub merge_cases_moves :
      {c : Case}
      → (merge_cases target.id ids actor s).0 ≡ ok c
      → let s' = (merge_cases target.id ids actor s).1 in
        (s'.observables
          ≡ map
              (λ (o : Observable). record o { case_id = merged_case target.id ids o.case_id })
              s.observables)
        × (e : TimelineEntry) × (e.event_type ≡ "cases_merged")
        × (e.case_id ≡ target.id)
        × (s'.entries
            ≡ map
                (λ (x : TimelineEntry). record x { case_id = merged_case target.id ids x.case_id })
                s.entries
              ++ e ∷ [])
  unfolding add_row
  merge_cases_moves {c} returned_ok = elim merge_cases_result [
    | inl (e, refused) ↦ absurd (cc)
    | inr (sources, same, each, _, state) ↦
        let m = moved s target.id sources in
        let event = merge_event m.world.number_text target sources actor in
        let entry = automatic_entry event m.next_id (m.world.clock m.clock_calls) in
        rw (state, ← same)
          (
            record_event-observables_of_moved sources
                ∙ transfer_all-observables target.id sources s,
            entry,
            refl,
            refl,
            (close_sources-rest sources (record_event event m).1).2
                ∙ (record_event-entries event m
                    ∙ ap (λ l. l ++ entry ∷ []) (transfer_all-entries target.id sources s)),
          )
  ]

  named_id :
      (sources : List Case) (y : Case)
      → case_key (add_merged_from (case_ids sources) y) ≡ case_key y
  unfolding add_merged_from
  named_id sources y = refl

  apart :
      (sources : List Case)
      → All (IsSource s target) sources
      → (j : ℕ) → contains j (case_ids sources) ≡ true
      → j ≢ target.id
  apart sources each j here e =
      let missing = sources-ne-target s target sources each in
      cc (subst (λ k. contains k (case_ids sources) ≡ true) e here)

  -- If the target exists and the merge returns, each source has status closed and some instant as
  -- its `closed_at`, and the rest of its row is as it was: an outcome that is missing stays
  -- missing.
  pub merge_cases_closes :
      (j : ℕ) {c source : Case}
      → (merge_cases target.id ids actor s).0 ≡ ok c
      → contains j ids ≡ true
      → find_row case_key j s.cases ≡ some source
      → (t : ℕ) × (find_row case_key j (merge_cases target.id ids actor s).1.cases
          ≡ some (close_at t source))
  merge_cases_closes j {c} {source} returned_ok listed present = elim merge_cases_result [
    | inl (e, refused) ↦ absurd (cc)
    | inr (sources, same, each, _, state) ↦
        let m = moved s target.id sources in
        let event = merge_event m.world.number_text target sources actor in
        let s' = (record_event event m).1 in
        let here : contains j (case_ids sources) ≡ true = rw same listed in
        let still : find_row case_key j s'.cases ≡ some source =
          ap (λ k. find_row case_key j k.cases) (record_event-kept event m)
          ∙ (ap (find_row case_key j) (
                ap (update_row case_key target.id (add_merged_from (case_ids sources)))
                  (transfer_all-cases target.id sources s).0)
              ∙ (find-update_ne case_key j target.id (add_merged_from (case_ids sources)) s.cases
                    (named_id sources) (apart sources each j here)
                  ∙ present)) in
        rw state (close_sources-closes j sources s' still here)
  ]
