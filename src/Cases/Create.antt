-- ===== src/Cases/Create.antt =====
-- `create_case`, and the helpers that every operation on cases uses.
use Prim.Native.String
use watari.Base.{
  Bool, List, Option, String, [], false, if◌then◌else◌, max, none, some, str_eq, true, ℕ, ◌++◌, ◌+◌,
  ◌==◌, ◌∷◌,
}
use watari.Store.{
  Case, CaseSeverity, CaseStatus, CaseTemplate, Fields, Metadata, PlatformEvent, Session, TaskSpec,
  TaskStatus, case_key, task_key, template_key,
}
use watari.Exec.{Action, err, fresh_id, gets, http, modify, ok, or_raise, pure, ◌>>=◌, ◌>>◌}
use watari.Table.{add_row, find_row}
use watari.Timeline.Recorder.{Recorded, record_event}
use watari.Modules.Dispatch.{Installed, fire}

-- `CaseCreate`
pub record CaseCreate : Type 0 where
  pub title : String
  pub description : Option String
  pub severity : CaseSeverity
  pub assignee_id : Option ℕ
  pub template_id : Option ℕ
  pub tags : List String
  pub custom_fields : Fields

-- The database function `next_case_number`: one more than the greatest number of the tenant.
unfoldable pub greatest_number : ℕ → List Case → ℕ
greatest_number tenant_id [] = 0
greatest_number tenant_id (c ∷ cs) =
    if c.tenant_id == tenant_id
    then max c.case_number (greatest_number tenant_id cs)
    else greatest_number tenant_id cs

unfoldable pub next_case_number : ℕ → Session → ℕ
unfolding greatest_number
next_case_number tenant_id s = greatest_number tenant_id s.cases + 1

unfoldable pub get_case_or_404 : ℕ → Action Case
unfolding find_row
get_case_or_404 case_id = do
  found ← gets (λ s. find_row case_key case_id s.cases)
  or_raise (http 404) found

-- `db.refresh`: the row as the database has it now.
unfoldable pub refresh_case : ℕ → Action Case
unfolding get_case_or_404
refresh_case = get_case_or_404

-- `d[k] = v`, and `{**d, **e}`
abbrev pub set_field : String → String → Fields → Fields
set_field k v [] = (k, v) ∷ []
set_field k v ((j, w) ∷ d) = if str_eq j k then (j, v) ∷ d else (j, w) ∷ set_field k v d

abbrev pub merge_fields : Fields → Fields → Fields
merge_fields d [] = d
merge_fields d ((k, v) ∷ e) = merge_fields (set_field k v d) e

abbrev pub is_medium : CaseSeverity → Bool
is_medium CaseSeverity.medium = true
is_medium _ = false

-- What a template gives: tags, custom fields and severity.
pub record Defaults : Type 0 where
  pub tags : List String
  pub custom_fields : Fields
  pub severity : CaseSeverity

abbrev pub template_severity : Option CaseSeverity → CaseSeverity → CaseSeverity
template_severity none given = given
template_severity (some d) given = if is_medium given then d else given

unfoldable pub defaults : (List String → List String) → CaseCreate → Option CaseTemplate → Defaults
defaults set_order p none = record {
  tags = p.tags;
  custom_fields = p.custom_fields;
  severity = p.severity;
}
defaults set_order p (some t) = record {
  tags = set_order (p.tags ++ t.default_tags);
  custom_fields = merge_fields t.custom_fields p.custom_fields;
  severity = template_severity t.default_severity p.severity;
}

-- The template that the payload names, or a 404.
abbrev pub load_template : Option ℕ → Action (Option CaseTemplate)
load_template none s = (ok none, s)
load_template (some id) s = elim (find_row template_key id s.templates) [
  | none ↦ (err (http 404), s)
  | some t ↦ (ok (some t), s)
]

abbrev pub new_case : ℕ → ℕ → ℕ → CaseCreate → Defaults → ℕ → Case
new_case id tenant_id number p d created_by = record {
  id = id;
  tenant_id = tenant_id;
  case_number = number;
  title = p.title;
  description = p.description;
  status = CaseStatus.new;
  severity = d.severity;
  outcome = none;
  assignee_id = p.assignee_id;
  template_id = p.template_id;
  tags = d.tags;
  custom_fields = d.custom_fields;
  merged_from = [];
  created_by = created_by;
  resolved_at = none;
  closed_at = none;
}

abbrev pub or_else {ℓ} : {A : Type ℓ} → Option A → A → A
or_else none d = d
or_else (some a) d = a

-- The loop over `enumerate(template.tasks)`; an element that is no dict is passed over.
unfoldable pub add_template_tasks : (ℕ → String) → ℕ → ℕ → ℕ → ℕ → List TaskSpec → Action (Unit {0})
unfolding add_row
add_template_tasks number_text tenant_id case_id created_by idx [] = pure tt
add_template_tasks number_text tenant_id case_id created_by idx (TaskSpec.not_a_dict ∷ specs) =
    add_template_tasks number_text tenant_id case_id created_by (idx + 1) specs
add_template_tasks number_text tenant_id case_id created_by idx
      (TaskSpec.spec title description sort_order ∷ specs) =
    do
      id ← fresh_id
      modify (λ s. record s {
        tasks =
            add_row task_key
              (record {
                id = id;
                tenant_id = tenant_id;
                case_id = case_id;
                title = or_else title (String.◌++◌ "Task " (number_text (idx + 1)));
                description = description;
                status = TaskStatus.todo;
                assignee_id = none;
                sort_order = or_else sort_order idx;
                created_by = created_by;
              })
              s.tasks;
      })
      add_template_tasks number_text tenant_id case_id created_by (idx + 1) specs

abbrev pub template_tasks : Option CaseTemplate → List TaskSpec
template_tasks none = []
template_tasks (some t) = t.tasks

abbrev pub created_event : Case → ℕ → Recorded
created_event c actor = record {
  tenant_id = c.tenant_id;
  case_id = c.id;
  event_type = "case_created";
  description = String.◌++◌ "Case created: " c.title;
  category = some "lifecycle";
  actor_id = some actor;
  metadata = Metadata.empty;
}

unfoldable pub add_case : Case → Session → Session
unfolding add_row
add_case c s = record s { cases = add_row case_key c s.cases }

module _ (installed : Installed) where
  -- The rest of `create_case`, once the number and the template are known; the row is read back by
  -- the caller.
  unfoldable pub insert_case : ℕ → ℕ → CaseCreate → ℕ → Option CaseTemplate → Action ℕ
  unfolding add_case defaults
  insert_case tenant_id created_by payload number template = do
    w ← gets (λ s. s.world)
    id ← fresh_id
    let c = new_case id tenant_id number payload (defaults w.set_order payload template) created_by
    modify (add_case c)
    record_event (created_event c created_by)
    add_template_tasks w.number_text tenant_id id created_by 0 (template_tasks template)
    fire installed tenant_id PlatformEvent.case_created (record { case_id = some id; subject = id })
    pure id

  unfoldable pub create_case : ℕ → ℕ → CaseCreate → Action Case
  unfolding next_case_number find_row insert_case
  create_case tenant_id created_by payload = do
    number ← gets (next_case_number tenant_id)
    template ← load_template payload.template_id
    id ← insert_case tenant_id created_by payload number template
    refresh_case id
