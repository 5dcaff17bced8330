-- ===== src/Modules/Confined.antt =====
-- What programs on `SessionModuleAPI` (backend/src/modules/runtime_api.py) write: its operations, one
-- by one, and their sequences.
use watari.Assets.Service.{
  AssetUpdate, apply_asset, bool_ne, compromise_event, flush_asset, get_asset_or_404, is_name_taken,
  note_compromise, update_asset,
}
use watari.Base.{
  Bool, Bool-cases, Option, Option-cases, String, arith, false, inl, inr, none, refl, some, true, ℕ,
  ◌&&◌, ◌+◌, ◌||◌, ◌≡◌,
}
use watari.Modules.RuntimeApi.{
  ModuleEntry, ModuleTask, api_add_observable, api_add_task, api_add_timeline_entry,
  api_update_asset, manual_payload, or_default, recorded_entry, resolve_tenant, tenant_or_resolve,
}
use watari.Observables.Service.{
  ObservableCreate, add_observable, added_event, create_observable, get_observable_or_404,
  insert_observable, new_observable,
}
use watari.Store.{
  Asset, Case, Observable, PlatformEvent, Session, asset_key, case_key, kept, observable_key,
}
use watari.Timeline.Recorder.{
  Recorded, record_event, record_event-kept, record_event-observables, record_event-ok,
}
use watari.Timeline.Service.{
  TimelineEntryCreate, create_manual_entry, get_entry_or_404, replace_asset_links,
}
use watari.Exec.{now, Result-cases, ok, or_raise, pure, value_error, ◌>>=◌}
use watari.Modules.Dispatch.{EventPayload, Installed}
use watari.Cases.Update.{is_null, is_set}
use watari.Modules.Adds.{OnlyAdds, fire-Has}
use watari.Modules.Keeps.{UsesModuleApi, fire-ok}
use watari.Observables.Creation.{create_observable-kept}
use watari.Observables.Validators.{validate_observable}
use watari.Table.{find-add_old, find_row, save_row}
use watari.Cases.Create.{get_case_or_404}
use watari.Tasks.Service.{TaskCreate, create_task, get_task_or_404}

-- Nothing that modules may not write has changed, and no observable.
abbrev pub Spares : Session → Session → Type 0
Spares s s' = (kept s' ≡ kept s) × (s'.observables ≡ s.observables)

record_event-Spares : (e : Recorded) (s : Session) → Spares s (record_event e s).1
record_event-Spares e s = (record_event-kept e s, record_event-observables e s)

create_task-Spares :
    (case_id actor : ℕ) (p : TaskCreate) (s : Session) → Spares s (create_task case_id actor p s).1
unfolding create_task get_task_or_404 get_case_or_404
create_task-Spares case_id actor p s = elim (Option-cases (find_row case_key case_id s.cases)) [
  | inl h ↦ (ground arith, ground arith)
  | inr (c, h) ↦ (
    grind (arith, record_event-kept, record_event-ok),
    grind (arith, record_event-observables, record_event-ok),
  )
]

pub api_add_task-Spares :
    (actor case_id : ℕ) (t : ModuleTask) (s : Session) → Spares s (api_add_task actor case_id t s).1
unfolding api_add_task
api_add_task-Spares actor case_id t s = create_task-Spares case_id actor _ s

create_manual_entry-Spares :
    (case_id actor : ℕ) (p : TimelineEntryCreate) (s : Session)
    → Spares s (create_manual_entry case_id actor p s).1
unfolding create_manual_entry get_entry_or_404 get_case_or_404 replace_asset_links
create_manual_entry-Spares case_id actor p s =
    elim (Option-cases (find_row case_key case_id s.cases)) [
      | inl h ↦ (ground arith, ground arith)
      | inr (c, h) ↦ (ground arith, ground arith)
    ]

pub api_add_timeline_entry-Spares :
    (actor case_id : ℕ) (e : ModuleEntry) (s : Session)
    → Spares s (api_add_timeline_entry actor case_id e s).1
unfolding api_add_timeline_entry resolve_tenant
api_add_timeline_entry-Spares actor case_id e s =
    elim (Bool-cases (or_default true e.is_automatic)) [
      | inr manual ↦ rw manual (
          create_manual_entry-Spares case_id actor (manual_payload (s.world.clock s.clock_calls) e)
            (now s).1)
      | inl automatic ↦ rw automatic (recorded e.tenant_id)
    ]
  where
    resolved :
        (o : Option Case)
        → Spares s
            ((or_raise value_error o >>= (λ c. pure c.tenant_id) >>= λ tenant_id.
                record_event (recorded_entry tenant_id case_id actor e))
              s).1
    resolved none = (refl, refl)
    resolved (some c) = record_event-Spares (recorded_entry c.tenant_id case_id actor e) s

    recorded :
        (t : Option ℕ)
        → Spares s
            ((tenant_or_resolve t case_id >>= λ tenant_id.
                record_event (recorded_entry tenant_id case_id actor e))
              s).1
    recorded (some tenant_id) = record_event-Spares (recorded_entry tenant_id case_id actor e) s
    recorded none = resolved (find_row case_key case_id s.cases)

note_compromise-Spares :
    (b : Bool) (a : Asset) (actor : ℕ) (s : Session) → Spares s (note_compromise b a actor s).1
note_compromise-Spares false a actor s = (refl, refl)
note_compromise-Spares true a actor s =
    let (same, rows) = record_event-Spares (compromise_event a actor) s in
    let answer = record_event-ok (compromise_event a actor) s in (ground arith, ground arith)

note_compromise-ok :
    (b : Bool) (a : Asset) (actor : ℕ) (s : Session) → (note_compromise b a actor s).0 ≡ ok tt
note_compromise-ok false a actor s = refl
note_compromise-ok true a actor s = ground (arith, record_event-ok (compromise_event a actor) s)

update_asset-Spares :
    (asset_id : ℕ) (u : AssetUpdate) (actor : ℕ) (s : Session)
    → Spares s (update_asset asset_id u actor s).1
unfolding update_asset get_asset_or_404 flush_asset
update_asset-Spares asset_id u actor s =
    elim (Option-cases (find_row asset_key asset_id s.assets)) [
      | inl missing ↦ (ground arith, ground arith)
      | inr (a, found) ↦
          let a' = apply_asset u a in
          let nulls = is_null u.name || is_null u.type || is_null u.is_compromised in
          elim (Bool-cases (nulls || is_name_taken a' s.assets)) [
            | inl refused ↦ (ground arith, ground arith)
            | inr allowed ↦
                let s1 = record s { assets = save_row asset_key a' s.assets } in
                let changed =
                  is_set u.is_compromised && bool_ne a'.is_compromised a.is_compromised in
                let (same, rows) = note_compromise-Spares changed a' actor s1 in
                let answer = note_compromise-ok changed a' actor s1 in (ground arith, ground arith)
          ]
    ]

pub api_update_asset-Spares :
    (actor case_id asset_id : ℕ) (u : AssetUpdate) (s : Session)
    → Spares s (api_update_asset actor case_id asset_id u s).1
unfolding api_update_asset
api_update_asset-Spares actor case_id asset_id u s =
    let (same, rows) = update_asset-Spares asset_id u actor s in
    elim (Result-cases (update_asset asset_id u actor s).0) [
      | inl (a, e) ↦ (ground arith, ground arith)
      | inr (x, e) ↦ (ground arith, ground arith)
    ]

module _ (installed : Installed) where
  pub api_add_observable-kept :
      UsesModuleApi installed
      → (actor case_id : ℕ) (p : ObservableCreate) (s : Session)
      → kept (api_add_observable installed actor case_id p s).1 ≡ kept s
  unfolding api_add_observable
  api_add_observable-kept api actor case_id p s =
      let same = create_observable-kept installed api case_id actor p s in
      elim (Result-cases (create_observable installed case_id actor p s).0) [
        | inl (o, e) ↦ ground arith
        | inr (x, e) ↦ ground arith
      ]

  -- The observable with the id `k` is in the table of a session.
  abbrev pub HasObservable : ℕ → Observable → Session → Type 0
  HasObservable k o s = find_row observable_key k s.observables ≡ some o

  insert_observable-Has :
      OnlyAdds installed
      → (k : ℕ) (o : Observable) (c : Case) (p : ObservableCreate) (v : String) (actor : ℕ)
        (s : Session)
      → HasObservable k o s
      → HasObservable k o (insert_observable installed c p v actor s).1
  unfolding insert_observable get_observable_or_404 add_observable
  insert_observable-Has adds k o c p v actor s h =
      let x = new_observable s.next_id c p v actor in
      let added = add_observable x (record s { next_id = s.next_id + 1 }) in
      let recorded = (record_event (added_event x) added).1 in
      let here : HasObservable k o recorded =
        rw (record_event-observables (added_event x) added)
          (find-add_old observable_key k x s.observables h) in
      let event : EventPayload = record { case_id = some c.id; subject = s.next_id } in
      let there =
        fire-Has installed adds k o c.tenant_id PlatformEvent.observable_created event recorded
          here in
      ground (
        arith,
        record_event-ok (added_event x) added,
        there,
        fire-ok installed c.tenant_id PlatformEvent.observable_created event recorded,
      )

  create_observable-Has :
      OnlyAdds installed
      → (k : ℕ) (o : Observable) (case_id actor : ℕ) (p : ObservableCreate) (s : Session)
      → HasObservable k o s
      → HasObservable k o (create_observable installed case_id actor p s).1
  unfolding create_observable
  create_observable-Has adds k o case_id actor p s h =
      elim (Option-cases (find_row case_key case_id s.cases)) [
        | inl e ↦ ground arith
        | inr (c, e) ↦ elim (Option-cases (validate_observable s.world.library p.type p.value)) [
          | inl f ↦ ground arith
          | inr (w, f) ↦ ground (arith, insert_observable-Has adds k o c p w actor s h)
        ]
      ]

  pub api_add_observable-Has :
      OnlyAdds installed
      → (k : ℕ) (o : Observable) (actor case_id : ℕ) (p : ObservableCreate) (s : Session)
      → HasObservable k o s
      → HasObservable k o (api_add_observable installed actor case_id p s).1
  unfolding api_add_observable
  api_add_observable-Has adds k o actor case_id p s h =
      let there = create_observable-Has adds k o case_id actor p s h in
      elim (Result-cases (create_observable installed case_id actor p s).0) [
        | inl (x, e) ↦ ground arith
        | inr (x, e) ↦ ground arith
      ]
