-- ===== src/Tests/Tasks.antt =====
-- Tasks of the sample session.
use watari.Base.{[], none, refl, ◌∷◌, ◌≡◌}
use watari.Cases.Update.{set, unset}
use watari.Store.{Session, Task, TaskStatus, task_key}
use watari.Table.{save_row}
use watari.Tasks.Completion.{announced}
use watari.Tasks.Service.{TaskUpdate, apply_task}
use watari.Tests.Samples.{session}

abbrev only_task : Task
only_task = record {
  id = 30;
  tenant_id = 7;
  case_id = 1;
  title = "Isolate the host";
  description = none;
  status = TaskStatus.todo;
  assignee_id = none;
  sort_order = 0;
  created_by = 90;
}

abbrev task_session : Session
task_session = record session { tasks = only_task ∷ [] }

abbrev finish : TaskUpdate
finish = record {
  title = unset;
  description = unset;
  status = set TaskStatus.done;
  assignee_id = unset;
  sort_order = unset;
}

both_announced :
    announced
      (apply_task finish only_task)
      TaskStatus.todo
      (save_row task_key (apply_task finish only_task) task_session.tasks)
    ≡ ("task_status_changed", 1) ∷ ("all_tasks_complete", 1) ∷ []
unfolding apply_task save_row
both_announced = refl
