-- ===== src/Tasks/Completion.antt =====
-- The timeline entries of `update_task` (backend/src/services/tasks.py).
use watari.Base.{
  Bool, List, String, [], all, if◌then◌else◌, map, not, ℕ, ◌++◌, ◌==◌, ◌||◌, ◌∷◌, ◌≡◌,
}
use watari.Tasks.Service.{TaskUpdate, is_over}
use watari.Table.{save_row}
use watari.Store.{Session, Task, TaskStatus, TimelineEntry, task_key, task_ne}
use watari.Cases.Effects.{sent, sent_optional}
use watari.Exec.{Result, ok}

-- The kind of an entry and the case that it is of.
abbrev pub headline : TimelineEntry → String × ℕ
headline e = (e.event_type, e.case_id)

-- No task of the case is left to do.
abbrev pub is_complete : ℕ → List Task → Bool
is_complete case_id = all (λ (t : Task). not (t.case_id == case_id) || is_over t.status)

-- What a change of status has to announce, given the tasks as they are then.
abbrev pub announced : Task → TaskStatus → List Task → List (String × ℕ)
announced t old tasks =
    if task_ne t.status old
    then ("task_status_changed", t.case_id)
      ∷ (if is_complete t.case_id tasks then ("all_tasks_complete", t.case_id) ∷ [] else [])
    else []

-- The fields of the row that may be sent, after the update.
abbrev pub sent_task : TaskUpdate → Task → Task
sent_task u old = record old {
  title = sent old.title u.title old.title;
  description = sent_optional u.description old.description;
  status = sent old.status u.status old.status;
  assignee_id = sent_optional u.assignee_id old.assignee_id;
  sort_order = sent old.sort_order u.sort_order old.sort_order;
}

-- What `update_task` answers and leaves, where `t` is the row after the update.
abbrev IsUpdate : Session → Task → Task → Result Task × Session → Type 0
IsUpdate s old t (r, s') =
    (r ≡ ok t)
    × (s'.tasks ≡ save_row task_key t s.tasks)
    × (map headline s'.entries
        ≡ map headline s.entries ++ announced t old.status (save_row task_key t s.tasks))
