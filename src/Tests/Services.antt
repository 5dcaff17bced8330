-- ===== src/Tests/Services.antt =====
-- The deletion of a case, the audit log and a report.
use watari.Audit.Service.{Handler, Method, Request, dispatch}
use watari.Audit.Trail.{dispatch_lem, trail}
use watari.Base.{
  List, Option, String, [], false, if◌then◌else◌, none, refl, some, str_eq, str_eq_iff, subst, true,
  ℕ, ◌++◌, ◌∷◌, ◌≡◌,
}
use watari.Cases.Delete.{delete_case}
use watari.Evidence.Storage.{Cloud, IsCloud}
use watari.Exec.{err, integrity_error, rollback}
use watari.Reports.Service.{Rendering, generate_report}
use watari.Reports.Stored.{IsStored, generate_report_result, rendered}
use watari.Store.{Metadata, ReportTemplate, Session, TimelineEntry, case_key, report_template_key}
use watari.Table.{find_row}
use watari.Tests.Samples.{analyst_auth, session}

abbrev an_entry : TimelineEntry
an_entry = record {
  id = 30;
  tenant_id = 7;
  case_id = 1;
  event_type = "case_created";
  event_timestamp = 3;
  description = "Case created";
  category = some "lifecycle";
  actor_id = some 90;
  is_automatic = true;
  metadata = Metadata.empty;
}

abbrev dated_session : Session
dated_session = record session { entries = an_entry ∷ [] }

-- The entry of its creation holds the case.
held_by_its_entry : (delete_case 1 dated_session).0 ≡ err integrity_error
unfolding delete_case
held_by_its_entry = refl

abbrev post_request : Request
post_request = record {
  method = Method.post;
  path = "/cases";
  segments = "cases" ∷ [];
  client_host = none;
  user_agent = none;
  auth_context = some analyst_auth;
}

abbrev handler : Handler
handler r s = (201, s)

dispatch_lem_example :
    ((dispatch (λ v. false) (λ n v. v) handler post_request session).0 ≡ 201)
    × ((dispatch (λ v. false) (λ n v. v) handler post_request session).1.audit_logs
        ≡ session.audit_logs
          ++ trail (λ v. false) (λ n v. v) post_request 201 session (some analyst_auth))
    × (rollback session (dispatch (λ v. false) (λ n v. v) handler post_request session).1
        ≡ record (dispatch (λ v. false) (λ n v. v) handler post_request session).1 {
          audit_logs = session.audit_logs;
        })
dispatch_lem_example = dispatch_lem (λ v. false) (λ n v. v) handler post_request session

-- One object is kept, under its key.
abbrev Objects : Type 0
Objects = Option (String × List ℕ)

abbrev got : String → Objects → Option (List ℕ)
got k none = none
got k (some (k', content)) = if str_eq k' k then some content else none

abbrev one_object : Cloud Objects
one_object = record {
  put_object = λ k content b. some (some (k, content));
  get_object = got;
  delete = λ k b. none;
}

one_object-IsCloud : IsCloud one_object
one_object-IsCloud k content b b' h =
    subst (λ o. got_from k content o) h (rw ((str_eq_iff k k).1 refl) refl)
  where
    got_from : String → List ℕ → Option Objects → Type 0
    got_from k content none = Unit {0}
    got_from k content (some b) = got k b ≡ some content

abbrev rendering : Rendering
rendering = record {
  render = λ template context. some template;
  encode = λ v. 1 ∷ 2 ∷ [];
  split = λ v. v ∷ [];
  document = λ paragraphs. 3 ∷ [];
}

abbrev summary : ReportTemplate
summary = record {
  id = 60;
  tenant_id = none;
  name = "Summary";
  type = "activity";
  format = "markdown";
  template_content = "# Case";
  tag_schema = "[]";
  created_by = 90;
}

abbrev report_session : Session
report_session = record session { report_templates = summary ∷ [] }

generate_report_result_example :
    IsStored rendering one_object
      (rendered rendering one_object
        (find_row case_key 1 report_session.cases)
        (find_row report_template_key 60 report_session.report_templates)
        none
        report_session)
      report_session
      none
      (generate_report rendering one_object 1 60 none (some 90) report_session none)
generate_report_result_example =
    generate_report_result rendering one_object one_object-IsCloud 1 60 none (some 90)
      report_session none tt
