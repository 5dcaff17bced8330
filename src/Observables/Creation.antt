-- ===== src/Observables/Creation.antt =====
-- `create_observable` branch by branch, and the bulk creation as one transaction
-- (backend/src/services/observables.py).
use watari.Base.{
  Bool, List, Option, Option-cases, String, [], any, ap, arith, false, inl, inr, is_some, none, not,
  refl, some, true, ℕ, ◌+◌, ◌∷◌, ◌≡◌,
}
use watari.Observables.Service.{
  ObservableCreate, add_observable, added_event, create_observable, create_observables_bulk,
  get_observable_or_404, insert_observable, new_observable,
}
use watari.Store.{
  Case, Kept, Library, Observable, PlatformEvent, Session, case_key, kept, observable_key,
}
use watari.Timeline.Recorder.{
  record_event, record_event-kept, record_event-observables, record_event-ok,
}
use watari.Exec.{Error, Result, Result-cases, err, http, ok, rollback, transaction}
use watari.Modules.Keeps.{UsesModuleApi, fire-kept, fire-ok}
use watari.Modules.Adds.{OnlyAdds, fire-Has}
use watari.Table.{KeysBelow, find-add_new, find_row}
use watari.Modules.Dispatch.{Installed}
use watari.Observables.Validators.{validate_observable}

-- The result that the case and the value call for.
abbrev pub creation : Option Case → ObservableCreate → Option String → ℕ → ℕ → Result Observable
creation none p o id actor = err (http 404)
creation (some c) p none id actor = err (http 400)
creation (some c) p (some normalized) id actor = ok (record {
  id = id;
  tenant_id = c.tenant_id;
  case_id = c.id;
  type = p.type;
  value = normalized;
  tlp = p.tlp;
  is_ioc = p.is_ioc;
  tags = p.tags;
  description = p.description;
  created_by = actor;
})

module _ (installed : Installed) where
  module _ (adds : OnlyAdds installed) where
    insert_observable-ok :
        (c : Case) (p : ObservableCreate) (normalized : String) (actor : ℕ) (s : Session)
        → KeysBelow observable_key s.next_id s.observables
        → (insert_observable installed c p normalized actor s).0
          ≡ ok (new_observable s.next_id c p normalized actor)
    unfolding insert_observable add_observable
    insert_observable-ok c p normalized actor s below =
        let o = new_observable s.next_id c p normalized actor in
        let added = add_observable o (record s { next_id = s.next_id + 1 }) in
        let recorded = (record_event (added_event o) added).1 in
        let here : find_row observable_key s.next_id recorded.observables ≡ some o =
          rw (record_event-observables (added_event o) added)
            (find-add_new observable_key s.next_id o s.observables below refl) in
        let there =
          fire-Has installed adds s.next_id o c.tenant_id PlatformEvent.observable_created
            (record { case_id = some c.id; subject = s.next_id }) recorded here in
        ground (
          arith,
          record_event-ok (added_event o) added,
          there,
          fire-ok installed c.tenant_id PlatformEvent.observable_created
              (record { case_id = some c.id; subject = s.next_id }) recorded,
        )

    -- If modules only add observables and the ids in the table of observables are below the next
    -- id, `create_observable` is, on every branch: a 404 if the case does not exist, else a 400 if
    -- the value is refused, else a row with the next id, the normalized value, the case and its
    -- tenant, the actor, and the other fields as they were sent; and if it raises, the session is
    -- as it was.
    pub create_observable_result :
        (case_id actor : ℕ) (p : ObservableCreate) (s : Session)
        → KeysBelow observable_key s.next_id s.observables
        → let (r, s') = create_observable installed case_id actor p s in
          (r
            ≡ creation
                (find_row case_key case_id s.cases)
                p
                (validate_observable s.world.library p.type p.value)
                s.next_id
                actor)
          × ((e : Error) → r ≡ err e → s' ≡ s)
    unfolding create_observable
    create_observable_result case_id actor p s below =
        elim (Option-cases (find_row case_key case_id s.cases)) [
          | inl h ↦ (ground arith, λ e r. ground arith)
          | inr (c, h) ↦ elim (Option-cases (validate_observable s.world.library p.type p.value)) [
            | inl e ↦ (ground arith, λ e' r. ground arith)
            | inr (w, e) ↦ (
              ground (arith, insert_observable-ok c p w actor s below),
              λ e' r. ground (arith, insert_observable-ok c p w actor s below),
            )
          ]
        ]

  module _ (api : UsesModuleApi installed) where
    insert_observable-kept :
        (c : Case) (p : ObservableCreate) (normalized : String) (actor : ℕ) (s : Session)
        → kept (insert_observable installed c p normalized actor s).1 ≡ kept s
    unfolding insert_observable add_observable get_observable_or_404
    insert_observable-kept c p normalized actor s =
        grind (arith, record_event-kept, record_event-ok, fire-kept, fire-ok)

    pub create_observable-kept :
        (case_id actor : ℕ) (p : ObservableCreate) (s : Session)
        → kept (create_observable installed case_id actor p s).1 ≡ kept s
    unfolding create_observable
    create_observable-kept case_id actor p s =
        elim (Option-cases (find_row case_key case_id s.cases)) [
          | inl h ↦ ground arith
          | inr (c, h) ↦ elim (Option-cases (validate_observable s.world.library p.type p.value)) [
            | inl e ↦ ground arith
            | inr (w, e) ↦ ground (arith, insert_observable-kept c p w actor s)
          ]
        ]

    -- The validators refuse the value.
    abbrev pub is_refused : Library → ObservableCreate → Bool
    is_refused lib p = not (is_some (validate_observable lib p.type p.value))

    accepted_of_created :
        (case_id actor : ℕ) (p : ObservableCreate) (s : Session) {o : Observable}
        → (create_observable installed case_id actor p s).0 ≡ ok o
        → is_refused s.world.library p ≡ false
    unfolding create_observable
    accepted_of_created case_id actor p s {o} h =
        elim (Option-cases (validate_observable s.world.library p.type p.value)) [
          | inr (w, e) ↦ rw e refl
          | inl e ↦ elim (Option-cases (find_row case_key case_id s.cases)) [
            | inl k ↦ ground arith
            | inr (c, k) ↦ ground arith
          ]
        ]

    bulk_raises :
        (case_id actor : ℕ) (items : List ObservableCreate) (s : Session)
        → any (is_refused s.world.library) items ≡ true
        → (e : Error) × ((create_observables_bulk installed case_id actor items s).0 ≡ err e)
    unfolding create_observables_bulk
    bulk_raises case_id actor [] s h = ground arith
    bulk_raises case_id actor (p ∷ items) s h =
        elim (Result-cases (create_observable installed case_id actor p s).0) [
          | inr (e, r) ↦ rw r (e, refl)
          | inl (o, r) ↦
              let s' = (create_observable installed case_id actor p s).1 in
              let same : s'.world ≡ s.world =
                ap (λ (k : Kept). k.world) (create_observable-kept case_id actor p s) in
              let later : any (is_refused s'.world.library) items ≡ true =
                rw same (ground (arith, accepted_of_created case_id actor p s r, h)) in
              let (e, q) = bulk_raises case_id actor items s' later in (e, ground arith)
        ]

    -- If the modules use `ModuleAPI` alone and the validators refuse the value of some item, the
    -- bulk creation raises, and the transaction puts every table back to what it was.
    pub bulk_refused :
        (case_id actor : ℕ) (items : List ObservableCreate) (s : Session)
        → any (is_refused s.world.library) items ≡ true
        → let m = create_observables_bulk installed case_id actor items in
          (e : Error) × (transaction m s ≡ (err e, rollback s (m s).1))
    unfolding transaction
    bulk_refused case_id actor items s h =
        let (e, r) = bulk_raises case_id actor items s h in (e, rw r refl)
