-- ===== src/Cases/Merge.antt =====
-- `merge_cases` (backend/src/services/cases.py).
use watari.Base.{List, String, [], if◌then◌else◌, length, map, not, some, ℕ, ◌++◌, ◌==◌, ◌∷◌}
use watari.Exec.{Action, for_each, gets, http, modify, now, pure, raise_if, ◌>>=◌, ◌>>◌}
use watari.Store.{Case, CaseStatus, Metadata, Observable, Session, TimelineEntry, case_key}
use watari.Timeline.Recorder.{Recorded, record_event}
use Prim.Native.String
use watari.Table.{update_row}
use watari.Cases.Create.{get_case_or_404, refresh_case}

-- The loop that collects the sources: each exists, is not the target and has the target's tenant.
unfoldable pub collect_sources : Case → List ℕ → Action (List Case)
unfolding get_case_or_404
collect_sources target [] = pure []
collect_sources target (source_id ∷ ids) = do
  raise_if (source_id == target.id) (http 400)
  src ← get_case_or_404 source_id
  raise_if (not (src.tenant_id == target.tenant_id)) (http 400)
  rest ← collect_sources target ids
  pure (src ∷ rest)

-- `obs.case_id = target.id` for the observables of a source, and the same for its entries.
unfoldable pub move_observables : ℕ → ℕ → List Observable → List Observable
move_observables source target =
    map
      (λ (o : Observable). record o { case_id = if o.case_id == source then target else o.case_id })

unfoldable pub move_entries : ℕ → ℕ → List TimelineEntry → List TimelineEntry
move_entries source target = map (λ (e : TimelineEntry). record e {
  case_id = if e.case_id == source then target else e.case_id;
})

unfoldable pub transfer : ℕ → ℕ → Session → Session
unfolding move_observables move_entries
transfer target source s = record s {
  observables = move_observables source target s.observables;
  entries = move_entries source target s.entries;
}

-- The loop over the sources.
unfoldable pub transfer_all : ℕ → List Case → Session → Session
unfolding transfer
transfer_all target [] s = s
transfer_all target (src ∷ srcs) s = transfer_all target srcs (transfer target src.id s)

-- `existing.extend([s.id for s in sources])`
unfoldable pub add_merged_from : List ℕ → Case → Case
add_merged_from ids c = record c { merged_from = c.merged_from ++ ids }

unfoldable pub close_at : ℕ → Case → Case
close_at t c = record c { status = CaseStatus.closed; closed_at = some t }

-- The loop that closes the each at its own instant.
unfoldable pub close_sources : List Case → Action (Unit {0})
unfolding update_row close_at
close_sources = for_each λ (src : Case). do
  t ← now
  modify (λ s. record s { cases = update_row case_key src.id (close_at t) s.cases })

abbrev pub case_ids : List Case → List ℕ
case_ids = map (λ (c : Case). c.id)

abbrev pub merge_event : (ℕ → String) → Case → List Case → ℕ → Recorded
merge_event number_text target sources actor = record {
  tenant_id = target.tenant_id;
  case_id = target.id;
  event_type = "cases_merged";
  description =
      String.◌++◌ "Merged " (String.◌++◌ (number_text (length sources)) " case(s) into this one");
  category = some "lifecycle";
  actor_id = some actor;
  metadata = Metadata.merged_sources (case_ids sources);
}

unfoldable pub merge_cases : ℕ → List ℕ → ℕ → Action Case
unfolding get_case_or_404 refresh_case collect_sources transfer_all close_sources add_merged_from
    update_row
merge_cases target_id source_ids actor = do
  target ← get_case_or_404 target_id
  sources ← collect_sources target source_ids
  modify (transfer_all target.id sources)
  modify (λ s. record s {
    cases = update_row case_key target.id (add_merged_from (case_ids sources)) s.cases;
  })
  number_text ← gets (λ s. s.world.number_text)
  record_event (merge_event number_text target sources actor)
  close_sources sources
  refresh_case target_id
