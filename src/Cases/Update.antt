-- ===== src/Cases/Update.antt =====
-- `update_case` and `close_case` (backend/src/services/cases.py).
use Prim.Native.String
use watari.Base.{
  Bool, List, Option, String, [], false, if◌then◌else◌, is_some, none, not, opt_eq, some, true, ℕ,
  ◌&&◌, ◌||◌,
}
use watari.Exec.{
  Action, gets, http, integrity_error, modify, now, pure, raise_if, when, ◌>>=◌, ◌>>◌,
}
use watari.Store.{
  Case, CaseOutcome, CaseSeverity, CaseStatus, Fields, Metadata, PlatformEvent, Session, User,
  case_key, status_ne, status_text, user_key,
}
use watari.Timeline.Recorder.{Recorded, record_event}
use watari.Table.{find_row, save_row}
use watari.Modules.Dispatch.{Installed, fire}
use watari.Cases.Create.{get_case_or_404, refresh_case}

-- A field of a partial update: left out, sent as null, or sent with a value
-- (`model_dump(exclude_unset=True)` drops the first).
pub data Patch {ℓ} (A : Type ℓ) : Type ℓ where
  unset null : Patch A
  set : A → Patch A

module _ {ℓ} {A : Type ℓ} where
  -- `setattr` on a column that may be null.
  abbrev pub assign_optional : Patch A → Option A → Option A
  assign_optional unset old = old
  assign_optional null old = none
  assign_optional (set a) old = some a

  -- `setattr` on a column that may not: a null stays pending until the flush refuses it, so the old
  -- value stands for it here.
  abbrev pub assign : Patch A → A → A
  assign (set a) old = a
  assign _ old = old

  -- A column of JSON, where null is a value like any other.
  abbrev pub assign_json : A → Patch A → A → A
  assign_json json_null unset old = old
  assign_json json_null null old = json_null
  assign_json json_null (set a) old = a

  abbrev pub is_null : Patch A → Bool
  is_null null = true
  is_null _ = false

  abbrev pub is_set : Patch A → Bool
  is_set unset = false
  is_set _ = true

-- `CaseUpdate`
pub record CaseUpdate : Type 0 where
  pub title : Patch String
  pub description : Patch String
  pub status : Patch CaseStatus
  pub severity : Patch CaseSeverity
  pub outcome : Patch CaseOutcome
  pub assignee_id : Patch ℕ
  pub tags : Patch (List String)
  pub custom_fields : Patch Fields

-- The loop `for key, value in data.items(): setattr(case, key, value)`. The JSON value null of
-- `custom_fields` is kept as no fields.
unfoldable pub apply_update : CaseUpdate → Case → Case
apply_update u c = record c {
  title = assign u.title c.title;
  description = assign_optional u.description c.description;
  status = assign u.status c.status;
  severity = assign u.severity c.severity;
  outcome = assign_optional u.outcome c.outcome;
  assignee_id = assign_optional u.assignee_id c.assignee_id;
  tags = assign u.tags c.tags;
  custom_fields = assign_json [] u.custom_fields c.custom_fields;
}

-- A column that may not be null has been given null, which the next flush refuses.
unfoldable pub nulls_required : CaseUpdate → Bool
nulls_required u = is_null u.title || is_null u.status || is_null u.severity || is_null u.tags

abbrev pub is_resolved : CaseStatus → Bool
is_resolved CaseStatus.resolved = true
is_resolved _ = false

abbrev pub is_closed : CaseStatus → Bool
is_closed CaseStatus.closed = true
is_closed _ = false

unfoldable pub save_case : Case → Session → Session
unfolding save_row
save_case c s = record s { cases = save_row case_key c s.cases }

-- The foreign key of `assignee_id`: a user is named who is not in the table.
abbrev pub is_unknown_user : Patch ℕ → List User → Bool
is_unknown_user (set k) users = not (is_some (find_row user_key k users))
is_unknown_user _ users = false

-- The flush refuses the update.
unfoldable pub is_refused : CaseUpdate → List User → Bool
unfolding nulls_required find_row
is_refused u users = nulls_required u || is_unknown_user u.assignee_id users

-- `db.flush()` of the updated case.
abbrev pub flush_case : CaseUpdate → Action (Unit {0})
flush_case u s = raise_if (is_refused u s.users) integrity_error s

-- `resolved_at` and `closed_at` of a case that has just reached its status.
unfoldable pub stamp : ℕ → Case → Case
stamp t c = record c {
  resolved_at = if is_resolved c.status then some t else c.resolved_at;
  closed_at = if is_closed c.status then some t else c.closed_at;
}

unfoldable pub status_event : Case → CaseStatus → ℕ → Recorded
status_event c old actor = record {
  tenant_id = c.tenant_id;
  case_id = c.id;
  event_type = "status_changed";
  description =
      String.◌++◌ "Status changed from "
        (String.◌++◌ (status_text old) (String.◌++◌ " to " (status_text c.status)));
  category = some "lifecycle";
  actor_id = some actor;
  metadata = Metadata.status_change old c.status;
}

abbrev pub opt_text : (ℕ → String) → Option ℕ → String
opt_text uuid_text none = "None"
opt_text uuid_text (some k) = uuid_text k

unfoldable pub assignee_event : (ℕ → String) → Case → Option ℕ → ℕ → Recorded
assignee_event uuid_text c old actor = record {
  tenant_id = c.tenant_id;
  case_id = c.id;
  event_type = "assignee_changed";
  description = String.◌++◌ "Assignee changed from " (
      String.◌++◌ (opt_text uuid_text old) (String.◌++◌ " to " (opt_text uuid_text c.assignee_id)));
  category = some "lifecycle";
  actor_id = some actor;
  metadata = Metadata.assignee_change old c.assignee_id;
}

-- `CaseUpdate(status=CaseStatus.CLOSED, outcome=payload.outcome)`
abbrev pub closing : CaseOutcome → CaseUpdate
closing outcome = record {
  title = unset;
  description = unset;
  status = set CaseStatus.closed;
  severity = unset;
  outcome = set outcome;
  assignee_id = unset;
  tags = unset;
  custom_fields = unset;
}

module _ (installed : Installed) where
  -- The side effects of a new status: its date, the timeline entry, the platform event.
  unfoldable pub change_status : CaseUpdate → Case → CaseStatus → ℕ → Action (Unit {0})
  unfolding is_refused stamp save_case status_event
  change_status u c old actor = do
    t ← now
    modify (save_case (stamp t c))
    raise_if (is_closed c.status && not (is_some c.outcome)) (http 400)
    flush_case u
    record_event (status_event c old actor)
    fire installed c.tenant_id PlatformEvent.case_status_changed
        (record { case_id = some c.id; subject = c.id })

  -- The timeline entry of a new assignee.
  unfoldable pub change_assignee : CaseUpdate → Case → Option ℕ → ℕ → Action (Unit {0})
  unfolding is_refused assignee_event
  change_assignee u c old actor = do
    flush_case u
    uuid_text ← gets (λ s. s.world.uuid_text)
    record_event (assignee_event uuid_text c old actor)
    pure tt

  -- What follows the assignments: the side effects of the status and of the assignee.
  unfoldable pub update_effects : CaseUpdate → Case → Case → ℕ → Action (Unit {0})
  unfolding is_refused change_status change_assignee
  update_effects u c old actor = do
    when (status_ne c.status old.status) (change_status u c old.status actor)
    when (is_set u.assignee_id && not (opt_eq c.assignee_id old.assignee_id))
        (change_assignee u c old.assignee_id actor)
    flush_case u

  unfoldable pub update_case : ℕ → CaseUpdate → ℕ → Action Case
  unfolding get_case_or_404 apply_update update_effects refresh_case save_case
  update_case case_id u actor = do
    old ← get_case_or_404 case_id
    let c = apply_update u old
    modify (save_case c)
    update_effects u c old actor
    refresh_case case_id

  unfoldable pub close_case : ℕ → CaseOutcome → ℕ → Action Case
  unfolding update_case
  close_case case_id outcome actor = update_case case_id (closing outcome) actor
