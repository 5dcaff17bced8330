-- ===== src/Store/State.antt =====
-- What the services reach outside the tables, and the session that holds both.
use watari.Base.{ℕ, Bool, String, Option, List}
use watari.Store.Rows.{
  Case, CaseTemplate, Task, Observable, TimelineEntry, NoteFolder, Alert, Module, ModuleExecution,
  Metadata, Tenant, User, Asset, TimelineAssetLink, Evidence, Note, AttackMapping, ReportTemplate,
  Report, AuditLog, EnrichmentSource, EnrichmentResult,
}

-- The compiled patterns of backend/src/services/validators.py.
pub data Pattern : Type 0 where
  domain_re hostname_re email_re md5_re sha1_re sha256_re registry_key_re filename_re : Pattern

-- What the validators use of Python's library: `str.strip`, `str.lower`, `str.rstrip(".")`, `len`, the
-- match of a compiled pattern, `str(ipaddress.ip_address(v))` and the parts of `urlparse(v)`.
pub record Library : Type 0 where
  pub strip : String → String
  pub lower : String → String
  pub rstrip_dots : String → String
  pub len : String → ℕ
  pub matches : Pattern → String → Bool
  pub ip_address : String → Option String
  pub scheme : String → String
  pub netloc : String → String

-- The code that is not Watari's, as functions that answer the n-th call: the clock, Redis, Celery;
-- `str` of a UUID and of a number, and the list that Python makes of the set of some strings.
pub record World : Type 0 where
  pub clock : ℕ → ℕ
  pub redis_up : ℕ → Bool
  pub celery : ℕ → Option String
  pub uuid_text : ℕ → String
  pub number_text : ℕ → String
  pub set_order : List String → List String
  pub library : Library

pub data Channel : Type 0 where
  case_channel : ℕ → Channel
  tenant_channel : ℕ → Channel

-- `RealtimeEvent`
pub record Message : Type 0 where
  pub type : String
  pub case_id : Option ℕ
  pub tenant_id : ℕ
  pub entry_id : Option ℕ
  pub description : String
  pub category : Option String
  pub metadata : Metadata
  pub actor_id : Option ℕ
  pub timestamp : ℕ

-- The first fields are not undone by a rollback: the number of calls made so far, the next unused
-- UUID, and what has been handed to Redis. The others are the tables.
pub record Session : Type 0 where
  pub world : World
  pub clock_calls : ℕ
  pub redis_calls : ℕ
  pub celery_calls : ℕ
  pub next_id : ℕ
  pub published : List (Channel × Message)
  pub cases : List Case
  pub templates : List CaseTemplate
  pub tasks : List Task
  pub observables : List Observable
  pub entries : List TimelineEntry
  pub folders : List NoteFolder
  pub alerts : List Alert
  pub modules : List Module
  pub executions : List ModuleExecution
  pub tenants : List Tenant
  pub users : List User
  pub assets : List Asset
  pub asset_links : List TimelineAssetLink
  pub evidence : List Evidence
  pub enrichment_sources : List EnrichmentSource
  pub enrichment_results : List EnrichmentResult
  pub notes : List Note
  pub attack_mappings : List AttackMapping
  pub report_templates : List ReportTemplate
  pub reports : List Report
  pub audit_logs : List AuditLog
