-- ===== src/Tests/Samples.antt =====
-- A session with two open cases of one tenant and one of another, a world in which Redis is up, and
-- the inputs that the tests share.

use watari.Store.{Role}
use watari.Alerts.Ingest.{DetectionFindingIngest}
use watari.Auth.Rbac.{AuthContext}
use watari.Base.{String, [], false, none, not, refl, some, str_eq, true, ℕ, ◌+◌, ◌∷◌}
use watari.Modules.Adds.{OnlyAdds}
use watari.Observables.Service.{ObservableCreate}
use watari.Store.{
  Alert, AlertStatus, Case, CaseSeverity, CaseStatus, Library, Module, ModuleType, Observable,
  ObservableType, Session, World,
}
use watari.Cases.Create.{CaseCreate}
use watari.Modules.Dispatch.{Installed, raised}
use watari.Modules.Keeps.{UsesModuleApi}

-- Texts that are already stripped and in lower case; every pattern matches.
abbrev pub library : Library
library = record {
  strip = λ v. v;
  lower = λ v. v;
  rstrip_dots = λ v. v;
  len = λ v. 10;
  matches = λ pattern v. not (str_eq v "bad");
  ip_address = λ v. some v;
  scheme = λ v. "https";
  netloc = λ v. "example.org";
}

abbrev pub world : World
world = record {
  clock = λ n. 1000 + n;
  redis_up = λ n. true;
  celery = λ n. none;
  uuid_text = λ n. "uuid";
  number_text = λ n. "1";
  set_order = λ tags. tags;
  library = library;
}

abbrev pub case_of : ℕ → ℕ → ℕ → Case
case_of id tenant number = record {
  id = id;
  tenant_id = tenant;
  case_number = number;
  title = "Phishing";
  description = none;
  status = CaseStatus.new;
  severity = CaseSeverity.high;
  outcome = none;
  assignee_id = none;
  template_id = none;
  tags = [];
  custom_fields = [];
  merged_from = [];
  created_by = 90;
  resolved_at = none;
  closed_at = none;
}

abbrev pub observable_of : ℕ → ℕ → Observable
observable_of id case_id = record {
  id = id;
  tenant_id = 7;
  case_id = case_id;
  type = ObservableType.ip;
  value = "10.0.0.1";
  tlp = none;
  is_ioc = false;
  tags = [];
  description = none;
  created_by = 90;
}

abbrev pub notifier : Module
notifier = record {
  id = 40;
  name = "notify";
  type = ModuleType.processor;
  version = "1.0";
  description = none;
  config_schema = "{}";
  entry_point = "notify.run";
  supported_evidence_types = none;
  subscribed_events = some ("case_created" ∷ "case_status_changed" ∷ []);
  is_enabled = true;
}

abbrev pub session : Session
session = record {
  world = world;
  clock_calls = 0;
  redis_calls = 0;
  celery_calls = 0;
  next_id = 100;
  published = [];
  cases = case_of 1 7 1 ∷ case_of 2 7 2 ∷ case_of 3 8 1 ∷ [];
  templates = [];
  tasks = [];
  observables = observable_of 20 1 ∷ observable_of 21 2 ∷ [];
  entries = [];
  folders = [];
  alerts = [];
  modules = notifier ∷ [];
  executions = [];
  tenants = [];
  users = [];
  assets = [];
  asset_links = [];
  evidence = [];
  enrichment_sources = [];
  enrichment_results = [];
  notes = [];
  attack_mappings = [];
  report_templates = [];
  reports = [];
  audit_logs = [];
}

-- One module is registered, and it raises.
abbrev pub installed : Installed
installed = record {
  registry = λ entry_point. str_eq entry_point "notify.run";
  run = λ entry_point p s. (raised "timeout", s);
}

pub installed-UsesModuleApi : UsesModuleApi installed
installed-UsesModuleApi entry_point p s = refl

abbrev pub case_create : CaseCreate
case_create = record {
  title = "Malware";
  description = none;
  severity = CaseSeverity.low;
  assignee_id = none;
  template_id = none;
  tags = [];
  custom_fields = [];
}

pub installed-OnlyAdds : OnlyAdds installed
installed-OnlyAdds entry_point p k o s h = h

abbrev pub finding : DetectionFindingIngest
finding = record {
  severity_id = 4;
  product_name = "sensor";
  uid = "f-1";
  uid_alt = none;
  finding_title = none;
  message = none;
  dedup_key = some "";
  document = record { status_id = none; status = none; status_detail = none; observables = [] };
}

abbrev pub pending_alert : Alert
pending_alert = record {
  id = 50;
  tenant_id = 7;
  severity_id = 4;
  source_product = "sensor";
  finding_uid = "f-0";
  title = "Beacon";
  message = none;
  ocsf_payload = record {
    status_id = some 1;
    status = none;
    status_detail = none;
    observables =
        (record { type_id = 2; value = "10.0.0.9"; tlp = none; is_ioc = true })
        ∷ (record { type_id = 1; value = "bad"; tlp = none; is_ioc = false })
        ∷ [];
  };
  status = AlertStatus.pending;
  dismiss_reason = none;
  promoted_to_case_id = none;
  dedup_key = some "f-0";
}

-- The session with one pending alert.
abbrev pub alert_session : Session
alert_session = record session { alerts = pending_alert ∷ [] }

abbrev pub observable_create : ObservableType → String → ObservableCreate
observable_create type value = record {
  type = type;
  value = value;
  tlp = none;
  is_ioc = false;
  tags = [];
  description = none;
}

abbrev pub analyst_auth : AuthContext
analyst_auth = record {
  user_id = 90;
  tenant_id = 7;
  role = Role.analyst;
  is_service_account = false;
}

abbrev pub service_auth : AuthContext
service_auth = record {
  user_id = 91;
  tenant_id = 7;
  role = Role.api_service_account;
  is_service_account = true;
}
