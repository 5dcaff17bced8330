-- ===== src/Modules/Keeps.antt =====
-- What firing a platform event leaves alone, from what the installed modules leave alone.
use watari.Base.{
  Bool-cases, List, Option, Option-cases, String, [], arith, inl, inr, refl, ℕ, ◌∷◌, ◌≡◌,
}
use watari.Exec.{ok}
use watari.Modules.Dispatch.{
  EventPayload, Installed, dispatch_all, dispatch_event, dispatch_one, execute_module, fire,
  run_entry,
}
use watari.Store.{Module, ModuleExecution, PlatformEvent, Session, kept, module_key}
use watari.Table.{find_row}

-- The modules write through `ModuleAPI` alone.
abbrev pub UsesModuleApi : Installed → Type 0
UsesModuleApi installed =
    (entry_point : String) (p : EventPayload) (s : Session)
    → kept (installed.run entry_point p s).1 ≡ kept s

module _ (installed : Installed) (api : UsesModuleApi installed) where
  run_entry-kept :
      (ep : String) (p : EventPayload) (x : ModuleExecution) (s : Session)
      → kept (run_entry installed ep p x s).1 ≡ kept s
  run_entry-kept ep p x s = elim (Bool-cases (installed.registry ep)) [
    | inl e ↦ rw e (api ep p s)
    | inr e ↦ rw e refl
  ]

  pub execute_module-kept :
      (m t : ℕ) (c : Option ℕ) (p : EventPayload) (ev : Option PlatformEvent) (s : Session)
      → kept (execute_module installed m t c p ev s).1 ≡ kept s
  unfolding execute_module
  execute_module-kept m t c p ev s = elim (Option-cases (find_row module_key m s.modules)) [
    | inl e ↦ ground arith
    | inr (found, e) ↦ grind (arith, run_entry-kept)
  ]

  pub dispatch_one-kept :
      (t : ℕ) (ev : PlatformEvent) (p : EventPayload) (m : Module) (s : Session)
      → kept (dispatch_one installed t ev p m s).1 ≡ kept s
  unfolding dispatch_one
  dispatch_one-kept t ev p m s = elim (Option-cases (s.world.celery s.celery_calls)) [
    | inl e ↦ grind (arith, execute_module-kept)
    | inr (task_id, e) ↦ ground arith
  ]

  dispatch_all-kept :
      (t : ℕ) (ev : PlatformEvent) (p : EventPayload) (ms : List Module) (s : Session)
      → kept (dispatch_all installed t ev p ms s).1 ≡ kept s
  unfolding dispatch_all
  dispatch_all-kept t ev p [] s = refl
  dispatch_all-kept t ev p (m ∷ ms) s =
      grind (arith, dispatch_one-kept, dispatch_all-kept t ev p ms)

  -- Firing an event leaves the tables alone that modules may not write, and never raises.
  pub fire-kept :
      (t : ℕ) (ev : PlatformEvent) (p : EventPayload) (s : Session)
      → kept (fire installed t ev p s).1 ≡ kept s
  unfolding fire dispatch_event
  fire-kept t ev p s = dispatch_all-kept t ev p _ s

pub fire-ok :
    (installed : Installed) (t : ℕ) (ev : PlatformEvent) (p : EventPayload) (s : Session)
    → (fire installed t ev p s).0 ≡ ok tt
unfolding fire
fire-ok installed t ev p s = refl
