-- ===== src/Modules/Dispatch.antt =====
-- `execute_module` and `dispatch_event` (backend/src/services/modules.py), and `events.fire`.
use Prim.Native.String
use watari.Base.{
  ℕ, ◌+◌, String, Bool, true, false, ◌&&◌, Option, none, some, List, [], ◌∷◌, any, keep_if,
  if◌then◌else◌, str_eq,
}
use watari.Table.{find_row, add_row, save_row}
use watari.Store.{
  Session, Module, ModuleExecution, ModuleType, pipeline, processor, ExecutionStatus, PlatformEvent,
  event_text, module_key, execution_key,
}
use watari.Exec.{
  Action, Result, err, ok, http, pending_rollback, now, fresh_id, gets, or_raise, modify, pure,
  suppress, ◌>>=◌, ◌>>◌,
}

-- The payload of a platform event: the case that it names, and the id of the row that it is about.
pub record EventPayload : Type 0 where
  pub case_id : Option ℕ
  pub subject : ℕ

-- The installed modules: which entry points the registry resolves, and what running one does to the
-- session. It returns a result, which may be None, or raises an exception, given by its text; or a
-- statement of it fails in the database and it leaves the session to be rolled back, whether it
-- catches the exception or not.
pub data Outcome : Type 0 where
  returned : Option String → Outcome
  raised : String → Outcome
  aborted : Outcome

pub record Installed : Type 0 where
  pub registry : String → Bool
  pub run : String → EventPayload → Session → Outcome × Session

abbrev pub is_processor : ModuleType → Bool
is_processor processor = true
is_processor pipeline = false

-- `xs or []`
abbrev pub or_empty : Option (List String) → List String
or_empty none = []
or_empty (some texts) = texts

-- `event.value in (m.subscribed_events or [])`, for an enabled processor.
unfoldable pub is_matched : PlatformEvent → Module → Bool
is_matched event m =
    m.is_enabled
    && is_processor m.type
    && any (λ e. str_eq (event_text event) e) (or_empty m.subscribed_events)

abbrev pub save_execution : ModuleExecution → Session → Session
save_execution x s = record s { executions = save_row execution_key x s.executions }

abbrev pub add_execution : ModuleExecution → Session → Session
add_execution x s = record s { executions = add_row execution_key x s.executions }

-- `execution.status = …` after the module has run. The flush that follows raises if the session is
-- to be rolled back.
abbrev pub settle_execution : Outcome → ModuleExecution → Result ModuleExecution
settle_execution (returned r) x = ok (record x { status = ExecutionStatus.completed; result = r })
settle_execution (raised e) x =
    ok (record x { status = ExecutionStatus.failed; error_message = some e })
settle_execution aborted x = err pending_rollback

-- `ModuleExecution(…)` as `execute_module` creates it.
abbrev pub started : ℕ → ℕ → ℕ → Option ℕ → Option PlatformEvent → ℕ → ModuleExecution
started id module_id tenant_id case_id trigger_event t = record {
  id = id;
  module_id = module_id;
  tenant_id = tenant_id;
  case_id = case_id;
  status = ExecutionStatus.running;
  trigger_event = trigger_event;
  result = none;
  error_message = none;
  started_at = some t;
  completed_at = none;
}

abbrev pub unregistered : String → String
unregistered entry_point =
    String.◌++◌ "Module entry_point '" (String.◌++◌ entry_point "' is not registered")

-- The placeholder row of a job that Celery has taken.
abbrev pub placeholder : ℕ → ℕ → PlatformEvent → EventPayload → ℕ → String → ModuleExecution
placeholder id tenant_id event payload module_id task_id = record {
  id = id;
  module_id = module_id;
  tenant_id = tenant_id;
  case_id = payload.case_id;
  status = ExecutionStatus.queued;
  trigger_event = some event;
  result = some task_id;
  error_message = none;
  started_at = none;
  completed_at = none;
}

abbrev pub queue : ℕ → PlatformEvent → EventPayload → Module → String → Action ℕ
queue tenant_id event payload m task_id = do
  id ← fresh_id
  modify (add_execution (placeholder id tenant_id event payload m.id task_id))
  pure id

module _ (installed : Installed) where
  -- The `try` of `execute_module`, which catches every exception, and the flush after it.
  abbrev pub run_module : String → EventPayload → ModuleExecution → Action ModuleExecution
  run_module entry_point payload x s =
      let (o, s') = installed.run entry_point payload s in (settle_execution o x, s')

  -- An entry point that no module is registered under: the execution fails.
  abbrev pub run_entry : String → EventPayload → ModuleExecution → Action ModuleExecution
  run_entry entry_point payload x s =
      if installed.registry entry_point then run_module entry_point payload x s else (
        ok (record x {
          status = ExecutionStatus.failed;
          error_message = some (unregistered entry_point);
        }),
        s,
      )

  unfoldable pub execute_module :
      ℕ → ℕ → Option ℕ → EventPayload → Option PlatformEvent → Action ModuleExecution
  unfolding find_row add_row save_row
  execute_module module_id tenant_id case_id payload trigger_event = do
    found ← gets (λ s. find_row module_key module_id s.modules)
    found_module ← or_raise (http 404) found
    id ← fresh_id
    t ← now
    let execution = started id module_id tenant_id case_id trigger_event t
    modify (add_execution execution)
    settled ← run_entry found_module.entry_point payload execution
    t' ← now
    let finished = record settled { completed_at = some t' }
    modify (save_execution finished)
    pure finished

  -- One round of the loop of `dispatch_event`: Celery takes the job, or the module is run here.
  unfoldable pub dispatch_one : ℕ → PlatformEvent → EventPayload → Module → Action ℕ
  unfolding add_row
  dispatch_one tenant_id event payload m s =
      let s' = record s { celery_calls = s.celery_calls + 1 } in
      elim (s.world.celery s.celery_calls) [
        | some task_id ↦ queue tenant_id event payload m task_id s'
        | none ↦
            (do x ← execute_module m.id tenant_id payload.case_id payload (some event); pure x.id)
              s'
      ]

  unfoldable pub dispatch_all : ℕ → PlatformEvent → EventPayload → List Module → Action (List ℕ)
  dispatch_all tenant_id event payload [] = pure []
  dispatch_all tenant_id event payload (m ∷ ms) = do
    id ← dispatch_one tenant_id event payload m
    ids ← dispatch_all tenant_id event payload ms
    pure (id ∷ ids)

  -- The ids of the executions, one for each enabled processor that subscribes to the event.
  unfoldable pub dispatch_event : ℕ → PlatformEvent → EventPayload → Action (List ℕ)
  unfolding dispatch_all is_matched
  dispatch_event tenant_id event payload s =
      dispatch_all tenant_id event payload (keep_if (is_matched event) s.modules) s

  -- `events.fire`: whatever the module system raises is swallowed.
  unfoldable pub fire : ℕ → PlatformEvent → EventPayload → Action (Unit {0})
  unfolding dispatch_event
  fire tenant_id event payload = suppress (dispatch_event tenant_id event payload)
