-- ===== src/Reports/Service.antt =====
-- The rendering and storing of reports, and their templates (backend/src/services/reports.py,
-- schemas/reports.py).
use Prim.Native.String
use watari.Base.{
  Bool, List, Option, String, if◌then◌else◌, is_some, keep_if, none, not, opt_eq, some, str_eq, ℕ,
  ◌&&◌, ◌||◌,
}
use watari.Exec.{
  Action, Result, client_error, err, fresh_id, gets, http, integrity_error, modify, ok, or_raise,
  pure, raise_if, template_error, ◌>>=◌, ◌>>◌,
}
use watari.Store.{
  Case, Metadata, Report, ReportTemplate, Session, case_key, report_key, report_template_key,
}
use watari.Alerts.Ingest.{or_text}
use watari.Evidence.Storage.{Bytes, Cloud}
use watari.Reports.Context.{Context, build_activity_context, build_context}
use watari.Table.{add_row, find_row}
use watari.Timeline.Recorder.{Recorded, record_event}

-- What is used of Jinja, of `str` and of python-docx: rendering a template, where `none` is an
-- exception, `encode("utf-8")`, `split("\n\n")`, and the bytes of a document of some paragraphs.
pub record Rendering : Type 0 where
  pub render : String → Context → Option String
  pub encode : String → Bytes
  pub split : String → List String
  pub document : List String → Bytes

-- `ReportFormat` and `ReportType` are the texts that the columns hold.
abbrev pub is_investigation : ReportTemplate → Bool
is_investigation t = str_eq t.type "investigation"

unfoldable pub context_of : ReportTemplate → Case → Session → Context
unfolding build_context build_activity_context
context_of t c s = if is_investigation t then build_context c s else build_activity_context c s

abbrev pub get_case_row : ℕ → Action Case
get_case_row case_id = do
  found ← gets (λ s. find_row case_key case_id s.cases)
  or_raise (http 404) found

abbrev pub get_template_row : ℕ → Action ReportTemplate
get_template_row template_id = do
  found ← gets (λ s. find_row report_template_key template_id s.report_templates)
  or_raise (http 404) found

-- `reports/{tenant}/{case}/{uuid}.{format}`
abbrev pub report_path : (tenant_id case_id uuid format : String) → String
report_path tenant_id case_id uuid format = String.◌++◌ "reports/" (
    String.◌++◌ tenant_id (
      String.◌++◌ "/"
        (String.◌++◌ case_id (String.◌++◌ "/" (String.◌++◌ uuid (String.◌++◌ "." format))))))

abbrev pub or_value : Option ℕ → ℕ → ℕ
or_value none b = b
or_value (some a) b = a

-- What is to be stored.
pub record Prepared : Type 0 where
  pub case : Case
  pub template : ReportTemplate
  pub format : String
  pub storage_key : String
  pub content : Bytes

abbrev pub report_event : Prepared → ℕ → Option ℕ → Recorded
report_event p report_id actor_id = record {
  tenant_id = p.case.tenant_id;
  case_id = p.case.id;
  event_type = "report_generated";
  description =
      String.◌++◌ "Report generated (" (String.◌++◌ p.format (String.◌++◌ "): " p.template.name));
  category = some "report";
  actor_id = actor_id;
  metadata = Metadata.report_generated report_id p.template.id;
}

abbrev pub new_report : Prepared → ℕ → Option ℕ → Report
new_report p id generated_by = record {
  id = id;
  tenant_id = p.case.tenant_id;
  case_id = p.case.id;
  template_id = p.template.id;
  format = p.format;
  storage_path = some p.storage_key;
  generated_by = or_value generated_by p.case.created_by;
}

abbrev pub get_report : ℕ → Action Report
get_report id = do found ← gets (λ s. find_row report_key id s.reports); or_raise (http 404) found

-- `generate_report` from the upload on.
unfoldable pub finish_report : Prepared → Option ℕ → Action Report
unfolding add_row find_row
finish_report p generated_by = do
  id ← fresh_id
  modify (λ s. record s { reports = add_row report_key (new_report p id generated_by) s.reports })
  record_event (report_event p id generated_by)
  get_report id

module _ (lib : Rendering) where
  unfoldable pub render_markdown : String → Context → Result String
  render_markdown template context = elim (lib.render template context) [
    | none ↦ err template_error
    | some v ↦ ok v
  ]

  unfoldable pub render_html : String → Context → Result String
  unfolding render_markdown
  render_html template context = render_markdown template context

  abbrev pub map_result : (String → Bytes) → Result String → Result Bytes
  map_result f (ok v) = ok (f v)
  map_result f (err e) = err e

  unfoldable pub render_docx : String → Context → Result Bytes
  unfolding render_markdown
  render_docx template context =
      map_result (λ v. lib.document (lib.split v)) (render_markdown template context)

  -- The content in the chosen format.
  unfoldable pub render_format : String → String → Context → Result Bytes
  unfolding render_markdown render_html render_docx
  render_format format template context =
      if str_eq format "markdown"
      then map_result lib.encode (render_markdown template context)
      else if str_eq format "html"
      then map_result lib.encode (render_html template context)
      else if str_eq format "docx"
      then render_docx template context
      else err (http 400)

  -- `generate_report` up to the upload.
  unfoldable pub prepare_report : ℕ → ℕ → Option String → Action Prepared
  unfolding find_row context_of render_format
  prepare_report case_id template_id format_override = do
    c ← get_case_row case_id
    t ← get_template_row template_id
    context ← gets (context_of t c)
    let format = or_text format_override t.format
    content ← (λ s. (render_format format t.template_content context, s))
    uuid ← fresh_id
    w ← gets (λ s. s.world)
    pure (record {
      case = c;
      template = t;
      format = format;
      storage_key =
          report_path (w.uuid_text c.tenant_id) (w.uuid_text c.id) (w.uuid_text uuid) format;
      content = content;
    })

  unfoldable pub preview_report : ℕ → ℕ → Action String
  unfolding find_row context_of render_markdown
  preview_report case_id template_id = do
    c ← get_case_row case_id
    t ← get_template_row template_id
    context ← gets (context_of t c)
    (λ s. (render_markdown t.template_content context, s))

  module _ {B : Type 0} (cloud : Cloud B) where
    -- `storage.upload_bytes`, where a ClientError ends the call.
    abbrev pub upload_and_finish :
        Option ℕ → Result Prepared → Session → B → Result Report × Session × B
    upload_and_finish generated_by (err e) s b = (err e, s, b)
    upload_and_finish generated_by (ok p) s b = elim (cloud.put_object p.storage_key p.content b) [
      | none ↦ (err client_error, s, b)
      | some b' ↦ let (r, s') = finish_report p generated_by s in (r, s', b')
    ]

    unfoldable pub generate_report :
        ℕ → ℕ → Option String → Option ℕ → Session → B → Result Report × Session × B
    unfolding prepare_report finish_report
    generate_report case_id template_id format_override generated_by s b =
        let (r, s') = prepare_report case_id template_id format_override s in
        upload_and_finish generated_by r s' b

-- The templates of the tenant, and those of no tenant.
abbrev pub is_visible_template : ℕ → ReportTemplate → Bool
is_visible_template tenant_id t = not (is_some t.tenant_id) || opt_eq t.tenant_id (some tenant_id)

unfoldable pub list_report_templates : ℕ → Action (List ReportTemplate)
list_report_templates tenant_id =
    gets (λ s. keep_if (is_visible_template tenant_id) s.report_templates)

-- The constraints of the table on the two texts.
abbrev pub is_valid_template : (type format : String) → Bool
is_valid_template type format =
    (str_eq type "investigation" || str_eq type "activity")
    && (str_eq format "docx" || (str_eq format "markdown" || str_eq format "html"))

unfoldable pub create_report_template :
    (tenant_id : ℕ) (name type format template_content tag_schema : String) (created_by : ℕ)
    → Action ReportTemplate
unfolding add_row find_row
create_report_template tenant_id name type format template_content tag_schema created_by = do
  id ← fresh_id
  raise_if (not (is_valid_template type format)) integrity_error
  modify (λ s. record s {
    report_templates =
        add_row report_template_key
          (record {
            id = id;
            tenant_id = some tenant_id;
            name = name;
            type = type;
            format = format;
            template_content = template_content;
            tag_schema = tag_schema;
            created_by = created_by;
          })
          s.report_templates;
  })
  get_template_row id
