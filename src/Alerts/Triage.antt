-- ===== src/Alerts/Triage.antt =====
-- Dismissal and promotion (backend/src/services/alerts.py).
use Prim.Native.String
use watari.Base.{List, Option, String, [], if◌then◌else◌, none, some, str_eq, ℕ, ◌==◌, ◌||◌, ◌∷◌}
use watari.Store.{
  Alert, AlertStatus, CaseSeverity, Library, Metadata, ObservableType, OcsfObservable, Session, Tlp,
  alert_key,
}
use watari.Alerts.Ingest.{get_alert_or_404}
use watari.Cases.Create.{CaseCreate}
use watari.Exec.{Action, Result, err, http, modify, ok, ◌>>=◌, ◌>>◌}
use watari.Observables.Service.{ObservableCreate}
use watari.Table.{save_row}
use watari.Timeline.Recorder.{Recorded}

-- `OCSFStatusId`
pub data OcsfStatusId : Type 0 where
  unknown fresh in_progress suppressed resolved archived deleted unlisted : OcsfStatusId

abbrev pub status_value : OcsfStatusId → ℕ
status_value OcsfStatusId.unknown = 0
status_value OcsfStatusId.fresh = 1
status_value OcsfStatusId.in_progress = 2
status_value OcsfStatusId.suppressed = 3
status_value OcsfStatusId.resolved = 4
status_value OcsfStatusId.archived = 5
status_value OcsfStatusId.deleted = 6
status_value OcsfStatusId.unlisted = 99

-- `ocsf_status_caption` of the value of a member.
abbrev pub ocsf_status_caption : OcsfStatusId → String
ocsf_status_caption OcsfStatusId.unknown = "Unknown"
ocsf_status_caption OcsfStatusId.fresh = "New"
ocsf_status_caption OcsfStatusId.in_progress = "In Progress"
ocsf_status_caption OcsfStatusId.suppressed = "Suppressed"
ocsf_status_caption OcsfStatusId.resolved = "Resolved"
ocsf_status_caption OcsfStatusId.archived = "Archived"
ocsf_status_caption OcsfStatusId.deleted = "Deleted"
ocsf_status_caption OcsfStatusId.unlisted = "Other"

unfoldable pub watari_status_to_ocsf : AlertStatus → OcsfStatusId
watari_status_to_ocsf AlertStatus.pending = OcsfStatusId.fresh
watari_status_to_ocsf AlertStatus.promoted = OcsfStatusId.in_progress
watari_status_to_ocsf AlertStatus.dismissed = OcsfStatusId.suppressed

abbrev pub with_detail : Option String → Option String → Option String
with_detail none old = old
with_detail (some detail) old = some detail

-- `_apply_status_to_payload`
unfoldable pub apply_status_to_payload : OcsfStatusId → Option String → Alert → Alert
apply_status_to_payload status_id status_detail a = record a {
  ocsf_payload = record a.ocsf_payload {
    status_id = some (status_value status_id);
    status = some (ocsf_status_caption status_id);
    status_detail = with_detail status_detail a.ocsf_payload.status_detail;
  };
}

unfoldable pub dismissed_alert : String → Alert → Alert
unfolding apply_status_to_payload
dismissed_alert reason a =
    apply_status_to_payload OcsfStatusId.suppressed (some reason)
      (record a { status = AlertStatus.dismissed; dismiss_reason = some reason })

unfoldable pub promoted_alert : ℕ → Alert → Alert
unfolding apply_status_to_payload
promoted_alert case_id a =
    apply_status_to_payload OcsfStatusId.in_progress none
      (record a { status = AlertStatus.promoted; promoted_to_case_id = some case_id })

unfoldable pub save_alert : Alert → Session → Session
unfolding save_row
save_alert a s = record s { alerts = save_row alert_key a s.alerts }

unfoldable pub dismiss_alert : ℕ → String → Action Alert
unfolding get_alert_or_404 dismissed_alert save_alert
dismiss_alert alert_id reason = do
  a ← get_alert_or_404 alert_id
  modify (save_alert (dismissed_alert reason a))
  get_alert_or_404 alert_id

-- `_severity_id_to_case_severity`
unfoldable pub severity_id_to_case_severity : ℕ → CaseSeverity
severity_id_to_case_severity n =
    if n == 1
    then CaseSeverity.informational
    else if n == 2
    then CaseSeverity.low
    else if n == 3
    then CaseSeverity.medium
    else if n == 4
    then CaseSeverity.high
    else if n == 5 || n == 6
    then CaseSeverity.critical
    else CaseSeverity.medium

-- `_OCSF_TO_WATARI_OBSERVABLE`, as pairs.
abbrev pub ocsf_to_watari_observable : List (ℕ × ObservableType)
ocsf_to_watari_observable =
    (1, ObservableType.hostname)
    ∷ (2, ObservableType.ip)
    ∷ (5, ObservableType.email)
    ∷ (6, ObservableType.url)
    ∷ (23, ObservableType.url)
    ∷ (22, ObservableType.email)
    ∷ (7, ObservableType.filename)
    ∷ (28, ObservableType.registry_key)
    ∷ []

abbrev pub lookup : ℕ → List (ℕ × ObservableType) → Option ObservableType
lookup n [] = none
lookup n ((k, type) ∷ pairs) = if k == n then some type else lookup n pairs

-- OCSF has one type for every hash: the length of the value tells which it is.
unfoldable pub observable_type_of : Library → OcsfObservable → Option ObservableType
observable_type_of lib raw =
    let length = lib.len raw.value in
    if raw.type_id == 8
    then if length == 32
      then some ObservableType.hash_md5
      else if length == 40
      then some ObservableType.hash_sha1
      else if length == 64
      then some ObservableType.hash_sha256
      else none
    else lookup raw.type_id ocsf_to_watari_observable

-- `TLP(v)`, or None for an unknown value.
abbrev pub tlp_of : String → Option Tlp
tlp_of v =
    if str_eq v "red"
    then some Tlp.red
    else if str_eq v "amber"
    then some Tlp.amber
    else if str_eq v "green"
    then some Tlp.green
    else if str_eq v "clear"
    then some Tlp.clear
    else none

abbrev pub raw_tlp : Library → Option String → Option Tlp
raw_tlp lib none = none
raw_tlp lib (some v) = tlp_of (lib.lower v)

abbrev pub raw_create : Library → OcsfObservable → ObservableType → ObservableCreate
raw_create lib raw type = record {
  type = type;
  value = raw.value;
  tlp = raw_tlp lib raw.tlp;
  is_ioc = raw.is_ioc;
  tags = [];
  description = none;
}

-- `_ocsf_to_observable_create`, for an entry that is a dict whose value, if any, is a string.
unfoldable pub ocsf_to_observable_create : Library → OcsfObservable → Option ObservableCreate
unfolding observable_type_of
ocsf_to_observable_create lib raw =
    if str_eq raw.value "" then none else elim (observable_type_of lib raw) [
      | none ↦ none
      | some type ↦ some (raw_create lib raw type)
    ]

-- `except HTTPException: continue`
abbrev pub skip_http : {A : Type 0} → Result A → Result (Unit {0})
skip_http (ok a) = ok tt
skip_http (err (http n)) = ok tt
skip_http (err e) = err e

-- `AlertPromote`
pub record AlertPromote : Type 0 where
  pub case_id : Option ℕ
  pub new_case_title : Option String

abbrev pub promotion_create : Alert → String → CaseCreate
promotion_create a title = record {
  title = title;
  description = a.message;
  severity = severity_id_to_case_severity a.severity_id;
  assignee_id = none;
  template_id = none;
  tags = [];
  custom_fields = [];
}

abbrev pub promoted_event : Alert → ℕ → ℕ → Recorded
promoted_event a case_id actor = record {
  tenant_id = a.tenant_id;
  case_id = case_id;
  event_type = "alert_promoted";
  description = String.◌++◌ "Alert '" (String.◌++◌ a.title "' promoted to this case");
  category = some "alert";
  actor_id = some actor;
  metadata = Metadata.alert_promoted a.id a.source_product a.finding_uid;
}
