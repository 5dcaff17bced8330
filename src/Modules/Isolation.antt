-- ===== src/Modules/Isolation.antt =====
-- Failure isolation: `execute_module` and `dispatch_event` (backend/src/services/modules.py) when
-- modules fail.
use watari.Base.{
  All, Bool, Bool-cases, List, Option, Option-cases, String, [], ap, arith, eq-some_of_is_some, inl,
  inr, is_some, keep_if, length, none, refl, some, subst, suc, sym, true, ℕ, ◌+◌, ◌∷◌, ◌≡◌, ◌≢◌,
  ◌⊎◌,
}
use watari.Exec.{ok}
use watari.Geospatial.Partition.{count}
use watari.Modules.Dispatch.{
  EventPayload, Installed, Outcome, dispatch_all, dispatch_event, dispatch_one, execute_module,
  aborted, is_matched, raised, returned, run_entry, settle_execution, started,
}
use watari.Store.{
  ExecutionStatus, Module, ModuleExecution, PlatformEvent, Session, execution_key, module_key,
}
use watari.Table.{add_row, find_row}
use watari.Modules.Keeps.{UsesModuleApi, dispatch_one-kept}

-- No statement of a module fails in the database, so that none leaves the session to be rolled back.
abbrev pub NeverAborts : Installed → Type 0
NeverAborts installed =
    (ep : String) (p : EventPayload) (s : Session) → (installed.run ep p s).0 ≢ aborted

-- How an execution ends: it has a date, and its status says whether the module returned.
abbrev pub IsFinished : ModuleExecution → Type 0
IsFinished x =
    (x.completed_at ≢ none)
    × ((x.status ≡ ExecutionStatus.completed)
        ⊎ ((x.status ≡ ExecutionStatus.failed) × (x.error_message ≢ none)))

module _ (installed : Installed) (never : NeverAborts installed) where
  run_entry_settles :
      (ep : String) (p : EventPayload) (x : ModuleExecution) (s : Session)
      → (y : ModuleExecution) × ((run_entry installed ep p x s).0 ≡ ok y)
        × ((y.status ≡ ExecutionStatus.completed)
            ⊎ ((y.status ≡ ExecutionStatus.failed) × (y.error_message ≢ none)))
  run_entry_settles ep p x s = elim (Bool-cases (installed.registry ep)) [
    | inl e ↦ rw e (settles (installed.run ep p s).0 (never ep p s))
    | inr e ↦ rw e (_, refl, inr (refl, cc))
  ]
    where
      settles :
          (o : Outcome)
          → o ≢ aborted
          → (y : ModuleExecution) × (settle_execution o x ≡ ok y)
            × ((y.status ≡ ExecutionStatus.completed)
                ⊎ ((y.status ≡ ExecutionStatus.failed) × (y.error_message ≢ none)))
      settles (returned r) h = (_, refl, inl refl)
      settles (raised e) h = (_, refl, inr (refl, cc))
      settles aborted h = absurd (h refl)

  -- `execute_module` on a module that is in the table returns an execution with a completion date,
  -- which is completed or failed with an error message.
  pub execute_module-IsFinished :
      (m t : ℕ) (c : Option ℕ) (p : EventPayload) (ev : Option PlatformEvent) (s : Session)
      {row : Module}
      → find_row module_key m s.modules ≡ some row
      → (x : ModuleExecution) × ((execute_module installed m t c p ev s).0 ≡ ok x) × IsFinished x
  unfolding execute_module
  execute_module-IsFinished m t c p ev s {row} e =
      let x = started s.next_id m t c ev (s.world.clock s.clock_calls) in
      let s' : Session = record s {
        next_id = s.next_id + 1;
        clock_calls = s.clock_calls + 1;
        executions = add_row execution_key x s.executions;
      } in
      let (y, settled, ends) = run_entry_settles row.entry_point p x s' in
      let t = (run_entry installed row.entry_point p x s').1 in
      (record y { completed_at = some (t.world.clock t.clock_calls) }, ground arith, (cc, ends))

  -- A module that Celery takes, or that is in the table, gives the event one execution.
  dispatch_one_total :
      (t : ℕ) (ev : PlatformEvent) (p : EventPayload) (m : Module) (s : Session) {row : Module}
      → find_row module_key m.id s.modules ≡ some row
      → (id : ℕ) × ((dispatch_one installed t ev p m s).0 ≡ ok id)
  unfolding dispatch_one
  dispatch_one_total t ev p m s {row} e = elim (Option-cases (s.world.celery s.celery_calls)) [
    | inl down ↦
        let s' : Session = record s { celery_calls = s.celery_calls + 1 } in
        let (x, done, _) = execute_module-IsFinished m.id t p.case_id p (some ev) s' e in
        (x.id, ground arith)
    | inr (task_id, up) ↦ (s.next_id, ground arith)
  ]

  -- Each of the modules is in the table.
  abbrev Listed : List Module → List Module → Type 0
  Listed table = All (λ m. is_some (find_row module_key m.id table) ≡ true)

  module _ (api : UsesModuleApi installed) where
    dispatch_all_total :
        (t : ℕ) (ev : PlatformEvent) (p : EventPayload) (ms : List Module) (s : Session)
        → Listed s.modules ms
        → (ids : List ℕ) × ((dispatch_all installed t ev p ms s).0 ≡ ok ids)
          × (length ids ≡ length ms)
    unfolding dispatch_all
    dispatch_all_total t ev p [] s h = ([], refl, refl)
    dispatch_all_total t ev p (m ∷ ms) s (here, later) =
        let (row, found) = eq-some_of_is_some (find_row module_key m.id s.modules) here in
        let (id, one) = dispatch_one_total t ev p m s found in
        let s' = (dispatch_one installed t ev p m s).1 in
        let same : s'.modules ≡ s.modules =
          ap (λ k. k.modules) (dispatch_one-kept installed api t ev p m s) in
        let (ids, rest, count) =
          dispatch_all_total t ev p ms s' (subst (λ l. Listed l ms) (sym same) later) in
        (id ∷ ids, ground arith, ap suc count)

  Listed-cons : (m : Module) (table ms : List Module) → Listed table ms → Listed (m ∷ table) ms
  unfolding find_row
  Listed-cons m table [] h = tt
  Listed-cons m table (x ∷ ms) (p, h) = (ground arith, Listed-cons m table ms h)

  Listed-keep_if : (test : Module → Bool) (table : List Module) → Listed table (keep_if test table)
  unfolding find_row
  Listed-keep_if test [] = tt
  Listed-keep_if test (m ∷ table) = elim (Bool-cases (test m)) [
    | inl e ↦ rw e (ground arith, Listed-cons m table _ (Listed-keep_if test table))
    | inr e ↦ rw e (Listed-cons m table _ (Listed-keep_if test table))
  ]

  -- The number of ids that `dispatch_event` returns.
  pub dispatch_event_total :
      UsesModuleApi installed
      → (t : ℕ) (ev : PlatformEvent) (p : EventPayload) (s : Session)
      → (ids : List ℕ) × ((dispatch_event installed t ev p s).0 ≡ ok ids)
        × (length ids ≡ length (keep_if (is_matched ev) s.modules))
  unfolding dispatch_event
  dispatch_event_total api t ev p s =
      dispatch_all_total api t ev p (keep_if (is_matched ev) s.modules) s
        (Listed-keep_if (is_matched ev) s.modules)

  -- If the modules use `ModuleAPI` alone and no statement of a module fails in the database,
  -- `execute_module` on a module that is in the table returns an execution with a completion date,
  -- which is completed, or failed with an error message, whatever the module returns or raises;
  -- and `dispatch_event` does not raise and returns as many execution ids as there are enabled
  -- processor modules that subscribe to the event, whether Celery takes the jobs or not.
  pub modules_finish :
      UsesModuleApi installed
      → (t m : ℕ) (c : Option ℕ) (ev : PlatformEvent) (p : EventPayload) (s : Session)
        {row : Module}
      → find_row module_key m s.modules ≡ some row
      → ((x : ModuleExecution) × ((execute_module installed m t c p (some ev) s).0 ≡ ok x)
          × IsFinished x)
        × ((ids : List ℕ) × ((dispatch_event installed t ev p s).0 ≡ ok ids)
            × (length ids ≡ length (keep_if (is_matched ev) s.modules)))
  modules_finish api t m c ev p s {row} found =
      (execute_module-IsFinished m t c p (some ev) s found, dispatch_event_total api t ev p s)
