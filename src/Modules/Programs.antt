-- ===== src/Modules/Programs.antt =====
-- Modules as programs: what a module does with the operations of `SessionModuleAPI`
-- (backend/src/modules/runtime_api.py, base.py) and what it does with their results is data, which
-- `run_program` runs on a session. Each operation hands the module its result or the exception.
use watari.Assets.Service.{AssetUpdate}
use watari.Base.{List, Option, String, is_some, none, some, suc, zero, ℕ}
use watari.Modules.Dispatch.{EventPayload, Installed, Outcome, raised, unregistered}
use watari.Modules.RuntimeApi.{
  AssetView, CaseView, EntryView, ModuleEntry, ModuleTask, ObservableView, api_add_observable,
  api_add_task, api_add_timeline_entry, api_get_assets, api_get_case, api_get_observables,
  api_get_timeline, api_update_asset,
}
use watari.Exec.{Result}
use watari.Observables.Service.{ObservableCreate}
use watari.Store.{Session, Task, TimelineEntry}

-- `execute` of a module: it ends, or calls an operation and goes on with the result. The results are
-- the dicts that the operations return, or the exceptions, which the module may catch.
pub data Program : Type 0 where
  finish : Outcome → Program
  get_case : ℕ → (Option CaseView → Program) → Program
  get_observables : ℕ → (List ObservableView → Program) → Program
  get_assets : ℕ → (List AssetView → Program) → Program
  get_timeline : ℕ → (Result (List EntryView) → Program) → Program
  add_observable : ℕ → ObservableCreate → (Result ObservableView → Program) → Program
  add_timeline_entry : ℕ → ModuleEntry → (Result TimelineEntry → Program) → Program
  add_task : ℕ → ModuleTask → (Result Task → Program) → Program
  update_asset : (case_id asset_id : ℕ) → AssetUpdate → (Result AssetView → Program) → Program

module _ (installed : Installed) (actor_id : ℕ) where
  unfoldable pub run_program : Program → Session → Outcome × Session
  unfolding api_get_case api_get_observables api_get_assets api_get_timeline api_add_timeline_entry
      api_add_observable api_add_task api_update_asset
  run_program (finish o) s = (o, s)
  run_program (get_case case_id k) s = run_program (k (api_get_case case_id s)) s
  run_program (get_observables case_id k) s = run_program (k (api_get_observables case_id s)) s
  run_program (get_assets case_id k) s = run_program (k (api_get_assets case_id s)) s
  run_program (get_timeline case_id k) s =
      let (r, s') = api_get_timeline case_id s in run_program (k r) s'
  run_program (add_observable case_id p k) s =
      let (r, s') = api_add_observable installed actor_id case_id p s in run_program (k r) s'
  run_program (add_timeline_entry case_id e k) s =
      let (r, s') = api_add_timeline_entry actor_id case_id e s in run_program (k r) s'
  run_program (add_task case_id t k) s =
      let (r, s') = api_add_task actor_id case_id t s in run_program (k r) s'
  run_program (update_asset case_id asset_id u k) s =
      let (r, s') = api_update_asset actor_id case_id asset_id u s in run_program (k r) s'

-- The classes that the registry holds, by entry point.
abbrev pub Registry : Type 0
Registry = String → Option (EventPayload → Program)

module _ (registry : Registry) (actor_id : ℕ) where
  -- Running a class of the registry, where `lower` are the modules that the events of its writes run.
  unfoldable pub run_class : Installed → String → EventPayload → Session → Outcome × Session
  unfolding run_program
  run_class lower entry_point p s = elim (registry entry_point) [
    | none ↦ (raised (unregistered entry_point), s)
    | some module_class ↦ run_program lower actor_id (module_class p) s
  ]

  -- The modules, where those that run one another through the events of their writes do so to a depth:
  -- below it Python's recursion limit is met, whose exception is caught like others.
  abbrev pub installed_to : ℕ → Installed
  installed_to zero = record {
    registry = λ entry_point. is_some (registry entry_point);
    run = λ entry_point p s. (raised "maximum recursion depth exceeded", s);
  }
  installed_to (suc depth) = record {
    registry = λ entry_point. is_some (registry entry_point);
    run = run_class (installed_to depth);
  }
