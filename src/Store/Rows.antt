-- ===== src/Store/Rows.antt =====
-- The rows of the tables (backend/src/models). A UUID is the number of its row, a date the number
-- of its instant; the value of a JSON field is kept as its text. `created_at` and `updated_at`,
-- which the database fills in, are left out.
use watari.Base.{ℕ, Bool, String, Option, List}
use watari.Store.Values.{
  CaseStatus, CaseSeverity, CaseOutcome, TaskStatus, ObservableType, Tlp, AlertStatus,
  PlatformEvent, ModuleType, ExecutionStatus, Role, AssetType,
}

abbrev pub Fields : Type 0
Fields = List (String × String)

pub record Case : Type 0 where
  pub id : ℕ
  pub tenant_id : ℕ
  pub case_number : ℕ
  pub title : String
  pub description : Option String
  pub status : CaseStatus
  pub severity : CaseSeverity
  pub outcome : Option CaseOutcome
  pub assignee_id : Option ℕ
  pub template_id : Option ℕ
  pub tags : List String
  pub custom_fields : Fields
  pub merged_from : List ℕ
  pub created_by : ℕ
  pub resolved_at : Option ℕ
  pub closed_at : Option ℕ

-- An element of `CaseTemplate.tasks`: a dict with some of the three keys, or another JSON value.
pub data TaskSpec : Type 0 where
  spec : (title : Option String) (description : Option String) (sort_order : Option ℕ) → TaskSpec
  not_a_dict : TaskSpec

pub record CaseTemplate : Type 0 where
  pub id : ℕ
  pub tenant_id : Option ℕ
  pub name : String
  pub description : Option String
  pub default_severity : Option CaseSeverity
  pub default_tags : List String
  pub custom_fields : Fields
  pub tasks : List TaskSpec
  pub created_by : ℕ

pub record Task : Type 0 where
  pub id : ℕ
  pub tenant_id : ℕ
  pub case_id : ℕ
  pub title : String
  pub description : Option String
  pub status : TaskStatus
  pub assignee_id : Option ℕ
  pub sort_order : ℕ
  pub created_by : ℕ

pub record Observable : Type 0 where
  pub id : ℕ
  pub tenant_id : ℕ
  pub case_id : ℕ
  pub type : ObservableType
  pub value : String
  pub tlp : Option Tlp
  pub is_ioc : Bool
  pub tags : List String
  pub description : Option String
  pub created_by : ℕ

-- What a timeline entry carries as metadata, by the event that it records.
pub data Metadata : Type 0 where
  empty : Metadata
  about : ℕ → Metadata
  status_change : (from to : CaseStatus) → Metadata
  assignee_change : (from to : Option ℕ) → Metadata
  merged_sources : List ℕ → Metadata
  observable_added : (observable_id : ℕ) (type : ObservableType) (value : String) → Metadata
  alert_promoted : (alert_id : ℕ) (product finding_uid : String) → Metadata
  asset_added : (asset_id : ℕ) (name : String) → Metadata
  compromise_change : (asset_id : ℕ) (is_compromised : Bool) → Metadata
  evidence_registered : (evidence_id : ℕ) (sha256 : String) (size : ℕ) → Metadata
  evidence_uploaded :
      (evidence_id : ℕ) (declared computed : String) (integrity_verified : Bool) → Metadata
  written : String → Metadata
  enrichment_triggered : (observable_id : ℕ) (source_ids : List ℕ) → Metadata
  report_generated : (report_id template_id : ℕ) → Metadata
  task_change : (task_id : ℕ) (from to : TaskStatus) → Metadata

pub record TimelineEntry : Type 0 where
  pub id : ℕ
  pub tenant_id : ℕ
  pub case_id : ℕ
  pub event_type : String
  pub event_timestamp : ℕ
  pub description : String
  pub category : Option String
  pub actor_id : Option ℕ
  pub is_automatic : Bool
  pub metadata : Metadata

pub record NoteFolder : Type 0 where
  pub id : ℕ
  pub tenant_id : ℕ
  pub case_id : ℕ
  pub parent_id : Option ℕ
  pub name : String
  pub sort_order : ℕ

-- An entry of `ocsf_payload["observables"]`, by the fields that promotion reads.
pub record OcsfObservable : Type 0 where
  pub type_id : ℕ
  pub value : String
  pub tlp : Option String
  pub is_ioc : Bool

-- The OCSF document of an alert, by the fields that the service reads or writes.
pub record OcsfPayload : Type 0 where
  pub status_id : Option ℕ
  pub status : Option String
  pub status_detail : Option String
  pub observables : List OcsfObservable

pub record Alert : Type 0 where
  pub id : ℕ
  pub tenant_id : ℕ
  pub severity_id : ℕ
  pub source_product : String
  pub finding_uid : String
  pub title : String
  pub message : Option String
  pub ocsf_payload : OcsfPayload
  pub status : AlertStatus
  pub dismiss_reason : Option String
  pub promoted_to_case_id : Option ℕ
  pub dedup_key : Option String

pub record Module : Type 0 where
  pub id : ℕ
  pub name : String
  pub type : ModuleType
  pub version : String
  pub description : Option String
  pub config_schema : String
  pub entry_point : String
  pub supported_evidence_types : Option (List String)
  pub subscribed_events : Option (List String)
  pub is_enabled : Bool

pub record ModuleExecution : Type 0 where
  pub id : ℕ
  pub module_id : ℕ
  pub tenant_id : ℕ
  pub case_id : Option ℕ
  pub status : ExecutionStatus
  pub trigger_event : Option PlatformEvent
  pub result : Option String
  pub error_message : Option String
  pub started_at : Option ℕ
  pub completed_at : Option ℕ

pub record Tenant : Type 0 where
  pub id : ℕ
  pub name : String
  pub slug : String
  pub settings : String
  pub custom_fields_schema : String
  pub is_active : Bool

-- `permissions` is kept as its text.
pub record User : Type 0 where
  pub id : ℕ
  pub tenant_id : ℕ
  pub username : String
  pub email : String
  pub password_hash : Option String
  pub display_name : String
  pub role : Role
  pub is_active : Bool
  pub is_service_account : Bool
  pub api_key_hash : Option String
  pub permissions : String
  pub last_login_at : Option ℕ
  pub inactivity_timeout_minutes : ℕ

pub record Asset : Type 0 where
  pub id : ℕ
  pub tenant_id : ℕ
  pub case_id : ℕ
  pub name : String
  pub type : AssetType
  pub ip_address : Option String
  pub domain : Option String
  pub is_compromised : Bool
  pub description : Option String
  pub custom_attributes : Fields
  pub created_by : ℕ

pub record TimelineAssetLink : Type 0 where
  pub timeline_entry_id : ℕ
  pub asset_id : ℕ

pub record Evidence : Type 0 where
  pub id : ℕ
  pub tenant_id : ℕ
  pub case_id : ℕ
  pub filename : String
  pub type : String
  pub file_hash_sha256 : String
  pub file_size : ℕ
  pub description : Option String
  pub storage_path : Option String
  pub is_uploaded : Bool
  pub is_encrypted : Bool
  pub integrity_verified : Option Bool
  pub integrity_mismatch : Bool
  pub tags : List String
  pub registered_by : ℕ

pub record Note : Type 0 where
  pub id : ℕ
  pub tenant_id : ℕ
  pub case_id : ℕ
  pub folder_id : Option ℕ
  pub title : String
  pub content : String
  pub author_id : ℕ

-- `created_at` is kept, since the heatmap is filtered by it; severity and status of a case are joined.
pub record AttackMapping : Type 0 where
  pub id : ℕ
  pub tenant_id : ℕ
  pub case_id : Option ℕ
  pub observable_id : Option ℕ
  pub timeline_entry_id : Option ℕ
  pub tactic_id : String
  pub technique_id : String
  pub sub_technique_id : Option String
  pub created_by : ℕ
  pub created_at : ℕ

-- `type` and `format` are texts, which constraints of the table check.
pub record ReportTemplate : Type 0 where
  pub id : ℕ
  pub tenant_id : Option ℕ
  pub name : String
  pub type : String
  pub format : String
  pub template_content : String
  pub tag_schema : String
  pub created_by : ℕ

pub record Report : Type 0 where
  pub id : ℕ
  pub tenant_id : ℕ
  pub case_id : ℕ
  pub template_id : ℕ
  pub format : String
  pub storage_path : Option String
  pub generated_by : ℕ

pub record AuditLog : Type 0 where
  pub id : ℕ
  pub tenant_id : ℕ
  pub user_id : ℕ
  pub action : String
  pub resource_type : String
  pub resource_id : Option ℕ
  pub details : String
  pub source_ip : Option String
  pub user_agent : Option String
  pub is_service_account : Bool
  pub created_at : ℕ

pub record EnrichmentSource : Type 0 where
  pub id : ℕ
  pub tenant_id : ℕ
  pub name : String
  pub type : String
  pub config : String
  pub supported_observable_types : List String
  pub is_enabled : Bool
  pub timeout_seconds : ℕ

-- `result_data` by its keys `source` and `value`.
pub record EnrichmentResult : Type 0 where
  pub id : ℕ
  pub tenant_id : ℕ
  pub observable_id : ℕ
  pub source_id : ℕ
  pub status : String
  pub result_data : Option (String × String)
  pub queried_at : ℕ

abbrev pub source_key : EnrichmentSource → ℕ
source_key r = r.id

abbrev pub result_key : EnrichmentResult → ℕ
result_key r = r.id

abbrev pub note_key : Note → ℕ
note_key r = r.id

abbrev pub mapping_key : AttackMapping → ℕ
mapping_key r = r.id

abbrev pub report_template_key : ReportTemplate → ℕ
report_template_key r = r.id

abbrev pub report_key : Report → ℕ
report_key r = r.id

abbrev pub audit_key : AuditLog → ℕ
audit_key r = r.id

abbrev pub tenant_key : Tenant → ℕ
tenant_key r = r.id

abbrev pub user_key : User → ℕ
user_key r = r.id

abbrev pub asset_key : Asset → ℕ
asset_key r = r.id

abbrev pub evidence_key : Evidence → ℕ
evidence_key r = r.id

abbrev pub case_key : Case → ℕ
case_key r = r.id

abbrev pub template_key : CaseTemplate → ℕ
template_key r = r.id

abbrev pub task_key : Task → ℕ
task_key r = r.id

abbrev pub observable_key : Observable → ℕ
observable_key r = r.id

abbrev pub entry_key : TimelineEntry → ℕ
entry_key r = r.id

abbrev pub folder_key : NoteFolder → ℕ
folder_key r = r.id

abbrev pub alert_key : Alert → ℕ
alert_key r = r.id

abbrev pub module_key : Module → ℕ
module_key r = r.id

abbrev pub execution_key : ModuleExecution → ℕ
execution_key r = r.id
