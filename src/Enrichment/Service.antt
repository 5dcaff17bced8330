-- ===== src/Enrichment/Service.antt =====
-- Enrichment sources, and the triggering of jobs (backend/src/services/enrichment.py,
-- schemas/enrichment.py, worker/tasks.py). `config` is kept as its text.
use Prim.Native.String
use watari.Base.{
  Bool, List, Option, String, [], any, contains, is_empty, keep_if, map, none, not, some, str_eq,
  true, ℕ, ◌&&◌, ◌++◌, ◌+◌, ◌==◌, ◌||◌, ◌∷◌,
}
use watari.Cases.Update.{Patch, assign, assign_json, is_null}
use watari.Exec.{
  Action, fresh_id, gets, http, integrity_error, modify, now, ok, or_raise, pure, raise_if, when,
  ◌>>=◌, ◌>>◌,
}
use watari.Store.{
  EnrichmentResult, EnrichmentSource, Metadata, Observable, ObservableType, observable_key,
  result_key, source_key, type_text,
}
use watari.Table.{add_row, delete_row, find_row, save_row}
use watari.Timeline.Recorder.{Recorded, record_event}

-- `EnrichmentSourceCreate`
pub record EnrichmentSourceCreate : Type 0 where
  pub name : String
  pub type : String
  pub config : String
  pub supported_observable_types : List ObservableType
  pub is_enabled : Bool
  pub timeout_seconds : ℕ

-- `EnrichmentSourceUpdate`
pub record EnrichmentSourceUpdate : Type 0 where
  pub name : Patch String
  pub config : Patch String
  pub supported_observable_types : Patch (List ObservableType)
  pub is_enabled : Patch Bool
  pub timeout_seconds : Patch ℕ

-- `EnrichmentRequest`
pub record EnrichmentRequest : Type 0 where
  pub observable_ids : List ℕ
  pub source_ids : Option (List ℕ)

-- `_get_source_or_404`
unfoldable pub get_source_or_404 : ℕ → Action EnrichmentSource
unfolding find_row
get_source_or_404 source_id = do
  found ← gets (λ s. find_row source_key source_id s.enrichment_sources)
  or_raise (http 404) found

abbrev pub new_source : ℕ → ℕ → EnrichmentSourceCreate → EnrichmentSource
new_source id tenant_id p = record {
  id = id;
  tenant_id = tenant_id;
  name = p.name;
  type = p.type;
  config = p.config;
  supported_observable_types = map type_text p.supported_observable_types;
  is_enabled = p.is_enabled;
  timeout_seconds = p.timeout_seconds;
}

unfoldable pub create_source : ℕ → EnrichmentSourceCreate → Action EnrichmentSource
unfolding add_row get_source_or_404
create_source tenant_id p = do
  id ← fresh_id
  modify (λ s. record s {
    enrichment_sources = add_row source_key (new_source id tenant_id p) s.enrichment_sources;
  })
  get_source_or_404 id

abbrev pub assign_types : Patch (List ObservableType) → List String → List String
assign_types (Patch.set types) old = map type_text types
assign_types _ old = old

-- The loop over `payload.model_dump(exclude_unset=True)`.
unfoldable pub apply_source : EnrichmentSourceUpdate → EnrichmentSource → EnrichmentSource
apply_source u x = record x {
  name = assign u.name x.name;
  config = assign_json "null" u.config x.config;
  supported_observable_types =
      assign_types u.supported_observable_types x.supported_observable_types;
  is_enabled = assign u.is_enabled x.is_enabled;
  timeout_seconds = assign u.timeout_seconds x.timeout_seconds;
}

-- The columns but for `config` may not be null.
unfoldable pub update_source : ℕ → EnrichmentSourceUpdate → Action EnrichmentSource
unfolding get_source_or_404 apply_source save_row
update_source source_id u = do
  x ← get_source_or_404 source_id
  modify (λ s. record s {
    enrichment_sources = save_row source_key (apply_source u x) s.enrichment_sources;
  })
  raise_if
      (is_null u.name
        || (is_null u.supported_observable_types
            || (is_null u.is_enabled || is_null u.timeout_seconds)))
      integrity_error
  get_source_or_404 source_id

-- The flush would set the `source_id` of results, which may not be null, to null.
abbrev pub has_results : ℕ → List EnrichmentResult → Bool
has_results source_id = any (λ (x : EnrichmentResult). x.source_id == source_id)

unfoldable pub delete_source : ℕ → Action (Unit {0})
unfolding get_source_or_404 delete_row
delete_source source_id = do
  x ← get_source_or_404 source_id
  used ← gets (λ s. has_results x.id s.enrichment_results)
  raise_if used integrity_error
  modify (λ s. record s { enrichment_sources = delete_row source_key x.id s.enrichment_sources })

-- `EnrichmentSource.id.in_(payload.source_ids)`, if there are any.
abbrev pub is_wanted : Option (List ℕ) → ℕ → Bool
is_wanted none id = true
is_wanted (some ids) id = is_empty ids || contains id ids

-- An enabled source of the tenant.
abbrev pub is_usable : ℕ → Option (List ℕ) → EnrichmentSource → Bool
is_usable tenant_id source_ids x =
    x.tenant_id == tenant_id && (x.is_enabled && is_wanted source_ids x.id)

-- `obs.type in s.supported_observable_types`
abbrev pub supports : Observable → EnrichmentSource → Bool
supports o x = any (λ v. str_eq v (type_text o.type)) x.supported_observable_types

abbrev pub new_result : ℕ → ℕ → Observable → EnrichmentSource → ℕ → EnrichmentResult
new_result id tenant_id o x t = record {
  id = id;
  tenant_id = tenant_id;
  observable_id = o.id;
  source_id = x.id;
  status = "success";
  result_data = some (x.name, o.value);
  queried_at = t;
}

-- The fallback of an environment without a worker.
abbrev pub add_stub : ℕ → Observable → EnrichmentSource → Action (List String)
add_stub tenant_id o x = do
  t ← now
  id ← fresh_id
  modify (λ s. record s {
    enrichment_results = add_row result_key (new_result id tenant_id o x t) s.enrichment_results;
  })
  pure []

-- Celery takes the job, whose id is returned, or the fallback is written.
unfoldable pub queue_job : ℕ → Observable → EnrichmentSource → Action (List String)
unfolding add_row
queue_job tenant_id o x s =
    let s' = record s { celery_calls = s.celery_calls + 1 } in
    elim (s.world.celery s.celery_calls) [
      | some task_id ↦ (ok (task_id ∷ []), s')
      | none ↦ add_stub tenant_id o x s'
    ]

unfoldable pub queue_jobs : ℕ → Observable → List EnrichmentSource → Action (List String)
unfolding queue_job
queue_jobs tenant_id o [] = pure []
queue_jobs tenant_id o (x ∷ sources) = do
  job ← queue_job tenant_id o x
  jobs ← queue_jobs tenant_id o sources
  pure (job ++ jobs)

abbrev pub triggered_event : ℕ → Observable → List EnrichmentSource → ℕ → Recorded
triggered_event tenant_id o sources actor_id = record {
  tenant_id = tenant_id;
  case_id = o.case_id;
  event_type = "enrichment_triggered";
  description =
      String.◌++◌ "Enrichment triggered for "
        (String.◌++◌ (type_text o.type) (String.◌++◌ "=" o.value));
  category = some "enrichment";
  actor_id = some actor_id;
  metadata = Metadata.enrichment_triggered o.id (map source_key sources);
}

-- One round of the outer loop.
unfoldable pub enrich_one : ℕ → List EnrichmentSource → ℕ → Observable → Action (List String)
unfolding queue_jobs
enrich_one tenant_id sources actor_id o = do
  let matching = keep_if (supports o) sources
  jobs ← queue_jobs tenant_id o matching
  when (not (is_empty matching))
      (do record_event (triggered_event tenant_id o matching actor_id); pure tt)
  pure jobs

unfoldable pub enrich_all : ℕ → List EnrichmentSource → ℕ → List Observable → Action (List String)
unfolding enrich_one
enrich_all tenant_id sources actor_id [] = pure []
enrich_all tenant_id sources actor_id (o ∷ observables) = do
  jobs ← enrich_one tenant_id sources actor_id o
  rest ← enrich_all tenant_id sources actor_id observables
  pure (jobs ++ rest)

unfoldable pub trigger_enrichment : ℕ → EnrichmentRequest → ℕ → Action (List String)
unfolding enrich_all
trigger_enrichment tenant_id r actor_id = do
  observables ←
      gets (λ s. keep_if (λ (o : Observable). contains o.id r.observable_ids) s.observables)
  raise_if (is_empty observables) (http 404)
  sources ← gets (λ s. keep_if (is_usable tenant_id r.source_ids) s.enrichment_sources)
  enrich_all tenant_id sources actor_id observables

-- What the task `enrichment.execute` returns.
pub data TaskAnswer : Type 0 where
  failed : String → TaskAnswer
  succeeded : ℕ → TaskAnswer

-- The result of the task names the source by its type.
abbrev pub task_result : ℕ → Observable → EnrichmentSource → ℕ → EnrichmentResult
task_result id o x t = record {
  id = id;
  tenant_id = o.tenant_id;
  observable_id = o.id;
  source_id = x.id;
  status = "success";
  result_data = some (x.type, o.value);
  queried_at = t;
}

abbrev pub answer_task : Option Observable → Option EnrichmentSource → Action TaskAnswer
answer_task (some o) (some x) = do
  t ← now
  id ← fresh_id
  modify (λ s. record s {
    enrichment_results = add_row result_key (task_result id o x t) s.enrichment_results;
  })
  pure (succeeded id)
answer_task _ _ = pure (failed "observable or source not found")

-- `_execute_enrichment`, in a session of its own that it commits.
unfoldable pub execute_enrichment : (observable_id source_id : ℕ) → Action TaskAnswer
unfolding find_row add_row
execute_enrichment observable_id source_id = do
  found ← gets (λ s. find_row observable_key observable_id s.observables)
  source ← gets (λ s. find_row source_key source_id s.enrichment_sources)
  answer_task found source
