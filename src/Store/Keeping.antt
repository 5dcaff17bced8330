-- ===== src/Store/Keeping.antt =====
-- The part of a session that modules may not write.
use watari.Base.{List}
use watari.Store.Rows.{
  Case, CaseTemplate, Alert, Module, NoteFolder, Tenant, User, Evidence, Note, AttackMapping,
  ReportTemplate, Report, AuditLog, EnrichmentSource, EnrichmentResult,
}
use watari.Store.State.{Session, World}

-- The tables that the interface of modules (`ModuleAPI`) has no operation to write.
pub record Kept : Type 0 where
  pub world : World
  pub cases : List Case
  pub templates : List CaseTemplate
  pub alerts : List Alert
  pub modules : List Module
  pub folders : List NoteFolder
  pub tenants : List Tenant
  pub users : List User
  pub evidence : List Evidence
  pub enrichment_sources : List EnrichmentSource
  pub enrichment_results : List EnrichmentResult
  pub notes : List Note
  pub attack_mappings : List AttackMapping
  pub report_templates : List ReportTemplate
  pub reports : List Report
  pub audit_logs : List AuditLog

abbrev pub kept : Session → Kept
kept s = record {
  world = s.world;
  cases = s.cases;
  templates = s.templates;
  alerts = s.alerts;
  modules = s.modules;
  folders = s.folders;
  tenants = s.tenants;
  users = s.users;
  evidence = s.evidence;
  enrichment_sources = s.enrichment_sources;
  enrichment_results = s.enrichment_results;
  notes = s.notes;
  attack_mappings = s.attack_mappings;
  report_templates = s.report_templates;
  reports = s.reports;
  audit_logs = s.audit_logs;
}
