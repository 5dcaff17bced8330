-- ===== src/Store/Values.antt =====
-- The string enumerations of backend/src/schemas and backend/src/modules/base.py as data types, and
-- `!=` on them, which the services use on the column values.
use watari.Base.{ℕ, Bool, not, String, ◌==◌}

pub data CaseStatus : Type 0 where
  new in_progress pending resolved closed : CaseStatus

pub data CaseSeverity : Type 0 where
  critical high medium low informational : CaseSeverity

pub data CaseOutcome : Type 0 where
  true_positive false_positive indeterminate not_applicable : CaseOutcome

pub data TaskStatus : Type 0 where
  todo in_progress done cancelled : TaskStatus

pub data ObservableType : Type 0 where
  ip domain hostname url hash_md5 hash_sha1 hash_sha256 email filename registry_key : ObservableType

pub data Tlp : Type 0 where
  red amber green clear : Tlp

pub data AlertStatus : Type 0 where
  pending promoted dismissed : AlertStatus

pub data PlatformEvent : Type 0 where
  observable_created evidence_uploaded case_status_changed alert_ingested case_created :
      PlatformEvent

pub data ModuleType : Type 0 where
  pipeline processor : ModuleType

pub data ExecutionStatus : Type 0 where
  queued running completed failed : ExecutionStatus

pub data Role : Type 0 where
  platform_admin tenant_admin analyst read_only api_service_account : Role

pub data AssetType : Type 0 where
  workstation server network_device mobile_device cloud_resource other : AssetType

-- The place of a value in its enumeration: two values are equal when their places are.
abbrev pub status_index : CaseStatus → ℕ
status_index CaseStatus.new = 0
status_index CaseStatus.in_progress = 1
status_index CaseStatus.pending = 2
status_index CaseStatus.resolved = 3
status_index CaseStatus.closed = 4

abbrev pub task_index : TaskStatus → ℕ
task_index TaskStatus.todo = 0
task_index TaskStatus.in_progress = 1
task_index TaskStatus.done = 2
task_index TaskStatus.cancelled = 3

abbrev pub type_index : ObservableType → ℕ
type_index ObservableType.ip = 0
type_index ObservableType.domain = 1
type_index ObservableType.hostname = 2
type_index ObservableType.url = 3
type_index ObservableType.hash_md5 = 4
type_index ObservableType.hash_sha1 = 5
type_index ObservableType.hash_sha256 = 6
type_index ObservableType.email = 7
type_index ObservableType.filename = 8
type_index ObservableType.registry_key = 9

abbrev pub status_ne : CaseStatus → CaseStatus → Bool
status_ne a b = not (status_index a == status_index b)

abbrev pub task_ne : TaskStatus → TaskStatus → Bool
task_ne a b = not (task_index a == task_index b)

abbrev pub type_eq : ObservableType → ObservableType → Bool
type_eq a b = type_index a == type_index b

-- The strings that `StrEnum` gives, as descriptions show them.
abbrev pub status_text : CaseStatus → String
status_text CaseStatus.new = "new"
status_text CaseStatus.in_progress = "in_progress"
status_text CaseStatus.pending = "pending"
status_text CaseStatus.resolved = "resolved"
status_text CaseStatus.closed = "closed"

abbrev pub type_text : ObservableType → String
type_text ObservableType.ip = "ip"
type_text ObservableType.domain = "domain"
type_text ObservableType.hostname = "hostname"
type_text ObservableType.url = "url"
type_text ObservableType.hash_md5 = "hash_md5"
type_text ObservableType.hash_sha1 = "hash_sha1"
type_text ObservableType.hash_sha256 = "hash_sha256"
type_text ObservableType.email = "email"
type_text ObservableType.filename = "filename"
type_text ObservableType.registry_key = "registry_key"

abbrev pub event_text : PlatformEvent → String
event_text PlatformEvent.observable_created = "observable_created"
event_text PlatformEvent.evidence_uploaded = "evidence_uploaded"
event_text PlatformEvent.case_status_changed = "case_status_changed"
event_text PlatformEvent.alert_ingested = "alert_ingested"
event_text PlatformEvent.case_created = "case_created"

abbrev pub severity_text : CaseSeverity → String
severity_text CaseSeverity.critical = "critical"
severity_text CaseSeverity.high = "high"
severity_text CaseSeverity.medium = "medium"
severity_text CaseSeverity.low = "low"
severity_text CaseSeverity.informational = "informational"
