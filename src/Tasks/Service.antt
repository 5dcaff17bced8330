-- ===== src/Tasks/Service.antt =====
-- The task service (backend/src/services/tasks.py). `sort_order` is kept as a natural.
use Prim.Native.String
use watari.Base.{
  Bool, List, Option, String, false, keep_if, length, not, some, true, ℕ, ◌&&◌, ◌==◌, ◌||◌,
}
use watari.Cases.Create.{get_case_or_404}
use watari.Cases.Update.{Patch, assign, assign_optional, is_null, is_unknown_user}
use watari.Exec.{
  Action, fresh_id, gets, http, integrity_error, modify, or_raise, pure, raise_if, when, ◌>>=◌,
  ◌>>◌,
}
use watari.Store.{Case, Metadata, Task, TaskStatus, task_key, task_ne}
use watari.Table.{add_row, delete_row, find_row, save_row}
use watari.Timeline.Recorder.{Recorded, record_event}

-- `TaskCreate`
pub record TaskCreate : Type 0 where
  pub title : String
  pub description : Option String
  pub assignee_id : Option ℕ
  pub sort_order : ℕ

-- `TaskUpdate`
pub record TaskUpdate : Type 0 where
  pub title : Patch String
  pub description : Patch String
  pub status : Patch TaskStatus
  pub assignee_id : Patch ℕ
  pub sort_order : Patch ℕ

unfoldable pub get_task_or_404 : ℕ → Action Task
unfolding find_row
get_task_or_404 task_id = do
  found ← gets (λ s. find_row task_key task_id s.tasks)
  or_raise (http 404) found

abbrev pub task_text : TaskStatus → String
task_text TaskStatus.todo = "todo"
task_text TaskStatus.in_progress = "in_progress"
task_text TaskStatus.done = "done"
task_text TaskStatus.cancelled = "cancelled"

abbrev pub task_event : Task → String → String → ℕ → Metadata → Recorded
task_event t event_type description actor metadata = record {
  tenant_id = t.tenant_id;
  case_id = t.case_id;
  event_type = event_type;
  description = description;
  category = some "task";
  actor_id = some actor;
  metadata = metadata;
}

abbrev pub new_task : ℕ → Case → TaskCreate → ℕ → Task
new_task id c p created_by = record {
  id = id;
  tenant_id = c.tenant_id;
  case_id = c.id;
  title = p.title;
  description = p.description;
  status = TaskStatus.todo;
  assignee_id = p.assignee_id;
  sort_order = p.sort_order;
  created_by = created_by;
}

unfoldable pub create_task : ℕ → ℕ → TaskCreate → Action Task
unfolding get_case_or_404 add_row get_task_or_404
create_task case_id created_by payload = do
  c ← get_case_or_404 case_id
  id ← fresh_id
  let t = new_task id c payload created_by
  modify (λ s. record s { tasks = add_row task_key t s.tasks })
  record_event (
      task_event t "task_created" (String.◌++◌ "Task created: " t.title) created_by
        (Metadata.about t.id))
  get_task_or_404 id

-- The loop over `payload.model_dump(exclude_unset=True)`.
unfoldable pub apply_task : TaskUpdate → Task → Task
apply_task u t = record t {
  title = assign u.title t.title;
  description = assign_optional u.description t.description;
  status = assign u.status t.status;
  assignee_id = assign_optional u.assignee_id t.assignee_id;
  sort_order = assign u.sort_order t.sort_order;
}

-- Done or cancelled.
abbrev pub is_over : TaskStatus → Bool
is_over TaskStatus.done = true
is_over TaskStatus.cancelled = true
is_over _ = false

-- The number of tasks of the case that are neither.
unfoldable pub remaining : ℕ → List Task → ℕ
remaining case_id tasks =
    length (keep_if (λ (t : Task). t.case_id == case_id && not (is_over t.status)) tasks)

abbrev pub task_status_event : Task → TaskStatus → ℕ → Recorded
task_status_event t old actor =
    task_event t "task_status_changed"
      (String.◌++◌ "Task '" (
        String.◌++◌ t.title (
          String.◌++◌ "' status changed from "
            (String.◌++◌ (task_text old) (String.◌++◌ " to " (task_text t.status))))))
      actor (Metadata.task_change t.id old t.status)

abbrev pub completion_event : Task → ℕ → Recorded
completion_event t actor =
    task_event t "all_tasks_complete" "All tasks for this case have been completed" actor
      Metadata.empty

-- What follows a change of the status.
unfoldable pub announce : Task → TaskStatus → ℕ → Action (Unit {0})
unfolding remaining
announce t old actor = do
  record_event (task_status_event t old actor)
  left ← gets (λ s. remaining t.case_id s.tasks)
  when (left == 0) (do record_event (completion_event t actor); pure tt)

-- The columns `title`, `status` and `sort_order` may not be null, and the assignee is a user: the first
-- flush, which comes before the first event, refuses other updates.
unfoldable pub update_task : ℕ → TaskUpdate → ℕ → Action Task
unfolding get_task_or_404 apply_task find_row save_row announce
update_task task_id u actor = do
  old ← get_task_or_404 task_id
  let t = apply_task u old
  modify (λ s. record s { tasks = save_row task_key t s.tasks })
  unknown ← gets (λ s. is_unknown_user u.assignee_id s.users)
  raise_if (is_null u.title || is_null u.status || is_null u.sort_order || unknown) integrity_error
  when (task_ne t.status old.status) (announce t old.status actor)
  get_task_or_404 task_id

unfoldable pub delete_task : ℕ → ℕ → Action (Unit {0})
unfolding get_task_or_404 delete_row
delete_task task_id actor = do
  t ← get_task_or_404 task_id
  modify (λ s. record s { tasks = delete_row task_key t.id s.tasks })
  record_event
      (task_event t "task_deleted" (String.◌++◌ "Task deleted: " t.title) actor Metadata.empty)
  pure tt
