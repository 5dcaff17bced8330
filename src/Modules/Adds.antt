-- ===== src/Modules/Adds.antt =====
-- What firing a platform event (backend/src/services/events.py) does to observables in the table.
use watari.Base.{
  Bool-cases, List, Option, Option-cases, String, [], arith, inl, inr, some, ℕ, ◌∷◌, ◌≡◌,
}
use watari.Modules.Dispatch.{
  EventPayload, Installed, dispatch_all, dispatch_event, dispatch_one, execute_module, fire,
  run_entry,
}
use watari.Store.{
  Module, ModuleExecution, Observable, PlatformEvent, Session, module_key, observable_key,
}
use watari.Table.{find_row}

-- `ModuleAPI.add_observable` is the one operation by which a module writes observables.
abbrev pub OnlyAdds : Installed → Type 0
OnlyAdds installed =
    (entry_point : String) (p : EventPayload) (k : ℕ) (o : Observable) (s : Session)
    → find_row observable_key k s.observables ≡ some o
    → find_row observable_key k (installed.run entry_point p s).1.observables ≡ some o

module _ (installed : Installed) (adds : OnlyAdds installed) (k : ℕ) (o : Observable) where
  -- The observable is in the table of a session.
  abbrev Has : Session → Type 0
  Has s = find_row observable_key k s.observables ≡ some o

  run_entry-Has :
      (ep : String) (p : EventPayload) (x : ModuleExecution) (s : Session)
      → Has s
      → Has (run_entry installed ep p x s).1
  run_entry-Has ep p x s h = elim (Bool-cases (installed.registry ep)) [
    | inl e ↦ rw e (adds ep p k o s h)
    | inr e ↦ rw e h
  ]

  execute_module-Has :
      (m t : ℕ) (c : Option ℕ) (p : EventPayload) (ev : Option PlatformEvent) (s : Session)
      → Has s
      → Has (execute_module installed m t c p ev s).1
  unfolding execute_module
  execute_module-Has m t c p ev s h = elim (Option-cases (find_row module_key m s.modules)) [
    | inl e ↦ ground arith
    | inr (found, e) ↦ grind (arith, run_entry-Has)
  ]

  dispatch_one-Has :
      (t : ℕ) (ev : PlatformEvent) (p : EventPayload) (m : Module) (s : Session)
      → Has s
      → Has (dispatch_one installed t ev p m s).1
  unfolding dispatch_one
  dispatch_one-Has t ev p m s h = elim (Option-cases (s.world.celery s.celery_calls)) [
    | inl e ↦ grind (arith, execute_module-Has)
    | inr (task_id, e) ↦ ground arith
  ]

  dispatch_all-Has :
      (t : ℕ) (ev : PlatformEvent) (p : EventPayload) (ms : List Module) (s : Session)
      → Has s
      → Has (dispatch_all installed t ev p ms s).1
  unfolding dispatch_all
  dispatch_all-Has t ev p [] s h = h
  dispatch_all-Has t ev p (m ∷ ms) s h = grind (arith, dispatch_one-Has, dispatch_all-Has t ev p ms)

  pub fire-Has :
      (t : ℕ) (ev : PlatformEvent) (p : EventPayload) (s : Session)
      → Has s
      → Has (fire installed t ev p s).1
  unfolding fire dispatch_event
  fire-Has t ev p s h = dispatch_all-Has t ev p _ s h
