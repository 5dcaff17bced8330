-- ===== src/Reports/Stored.antt =====
-- A report that was generated can be downloaded (backend/src/services/reports.py).
use watari.Alerts.Ingest.{or_text}
use watari.Base.{
  Option, Option-cases, String, ap, arith, inl, inr, none, refl, some, subst, sym, ℕ, ◌+◌, ◌≡◌, ◌⊎◌,
}
use watari.Reports.Service.{
  Prepared, Rendering, context_of, finish_report, generate_report, new_report, prepare_report,
  render_format, report_event, report_path, upload_and_finish,
}
use watari.Store.{
  Case, Kept, Report, ReportTemplate, Session, case_key, report_key, report_template_key,
}
use watari.Exec.{Result, Result-cases, client_error, err, http, ok}
use watari.Table.{KeysBelow, KeysBelow-weaken, add_row, find-add_new, find_row}
use watari.Evidence.Storage.{Bytes, Cloud, IsCloud}
use watari.Timeline.Recorder.{Recorded, record_event, record_event-kept, record_event-ok}

module _ (p : Prepared) (generated_by : Option ℕ) (s : Session) where
  record_event-reports : (e : Recorded) (x : Session) → (record_event e x).1.reports ≡ x.reports
  record_event-reports e x = ap (λ (k : Kept). k.reports) (record_event-kept e x)

  -- From the upload on, a report is added.
  pub finish_report_result :
      KeysBelow report_key s.next_id s.reports
      → ((finish_report p generated_by s).0 ≡ ok (new_report p s.next_id generated_by))
        × ((finish_report p generated_by s).1.reports
            ≡ add_row report_key (new_report p s.next_id generated_by) s.reports)
  unfolding finish_report
  finish_report_result below =
      let r = new_report p s.next_id generated_by in
      let x = record s { next_id = s.next_id + 1; reports = add_row report_key r s.reports } in
      let e = report_event p s.next_id generated_by in
      let rows = record_event-reports e x in
      let answer = record_event-ok e x in
      let there = find-add_new report_key s.next_id r s.reports below refl in
      (ground (arith, rows, answer, there), ground (arith, rows, answer, there))

module _ {B : Type 0} (lib : Rendering) (cloud : Cloud B) where
  -- The content of the report that is asked for.
  abbrev pub rendered : Option Case → Option ReportTemplate → Option String → Session → Result Bytes
  rendered none t format_override s = err (http 404)
  rendered (some c) none format_override s = err (http 404)
  rendered (some c) (some t) format_override s =
      render_format lib (or_text format_override t.format) t.template_content (context_of t c s)

  -- Without content nothing is stored; with it, the report is in the table and its content in the
  -- object store, or the store has refused it and nothing is stored.
  abbrev pub IsStored : Result Bytes → Session → B → Result Report × Session × B → Type 0
  IsStored (err e) s b (r, s', b') =
      (r ≡ err e) × (s'.reports ≡ s.reports) × (s'.entries ≡ s.entries) × (b' ≡ b)
  IsStored (ok content) s b (r, s', b') =
      ((r ≡ err client_error) × (s'.reports ≡ s.reports) × (s'.entries ≡ s.entries) × (b' ≡ b))
      ⊎ ((report : Report) × (path : String) × (r ≡ ok report)
          × (report.storage_path ≡ some path)
          × (cloud.get_object path b' ≡ some content)
          × (s'.reports ≡ add_row report_key report s.reports))

  upload_and_finish-IsStored :
      IsCloud cloud
      → (p : Prepared) (generated_by : Option ℕ) (s : Session) (b : B)
      → KeysBelow report_key s.next_id s.reports
      → IsStored
          (ok p.content)
          s
          b
          (upload_and_finish lib cloud generated_by (ok p) (record s { next_id = s.next_id + 1 }) b)
  upload_and_finish-IsStored stores p generated_by s b below =
      go (cloud.put_object p.storage_key p.content b) refl
    where
      s1 : Session
      s1 = record s { next_id = s.next_id + 1 }

      after : Option B → Result Report × Session × B
      after none = (err client_error, s1, b)
      after (some b') = let (r, s') = finish_report p generated_by s1 in (r, s', b')

      go :
          (o : Option B)
          → cloud.put_object p.storage_key p.content b ≡ o
          → IsStored (ok p.content) s b (after o)
      go none e = inl (refl, refl, refl, refl)
      go (some b') e =
          let (answer, rows) =
            finish_report_result p generated_by s1
              (KeysBelow-weaken report_key s.next_id s.reports below) in
          inr (
            new_report p s1.next_id generated_by,
            p.storage_key,
            answer,
            refl,
            stores p.storage_key p.content b b' e,
            rows,
          )

  abbrev prepared : Session → Case → ReportTemplate → String → Bytes → Prepared
  prepared s c t format content = record {
    case = c;
    template = t;
    format = format;
    storage_key =
        report_path (s.world.uuid_text c.tenant_id) (s.world.uuid_text c.id)
          (s.world.uuid_text s.next_id) format;
    content = content;
  }

  abbrev with_content :
      Result Bytes → Case → ReportTemplate → String → Session → Result Prepared × Session
  with_content (err e) c t format s = (err e, s)
  with_content (ok content) c t format s =
      (ok (prepared s c t format content), record s { next_id = s.next_id + 1 })

  -- `prepare_report`, by the rows that it finds.
  abbrev preparation :
      Option Case → Option ReportTemplate → Option String → Session → Result Prepared × Session
  preparation none t format_override s = (err (http 404), s)
  preparation (some c) none format_override s = (err (http 404), s)
  preparation (some c) (some t) format_override s =
      with_content (rendered (some c) (some t) format_override s) c t
        (or_text format_override t.format) s

  prepare_report_result :
      (case_id template_id : ℕ) (format_override : Option String) (s : Session)
      → prepare_report lib case_id template_id format_override s
        ≡ preparation
            (find_row case_key case_id s.cases)
            (find_row report_template_key template_id s.report_templates)
            format_override
            s
  unfolding prepare_report
  prepare_report_result case_id template_id format_override s =
      elim (Option-cases (find_row case_key case_id s.cases)) [
        | inl e ↦ ground (arith, e)
        | inr (c, e) ↦
            elim (Option-cases (find_row report_template_key template_id s.report_templates)) [
              | inl f ↦ ground (arith, e, f)
              | inr (t, f) ↦ elim (Result-cases (rendered (some c) (some t) format_override s)) [
                | inr (x, g) ↦ ground (arith, e, f, g)
                | inl (content, g) ↦ ground (arith, e, f, g)
              ]
            ]
      ]

  preparation-IsStored :
      IsCloud cloud
      → (found : Option Case) (template : Option ReportTemplate) (format_override : Option String)
        (generated_by : Option ℕ) (s : Session) (b : B)
      → KeysBelow report_key s.next_id s.reports
      → let (r, s') = preparation found template format_override s in
        IsStored
          (rendered found template format_override s)
          s
          b
          (upload_and_finish lib cloud generated_by r s' b)
  preparation-IsStored stores none t o g s b below = (refl, refl, refl, refl)
  preparation-IsStored stores (some c) none o g s b below = (refl, refl, refl, refl)
  preparation-IsStored stores (some c) (some t) o g s b below =
      by_content (rendered (some c) (some t) o s)
    where
      by_content :
          (content : Result Bytes)
          → let (r, s') = with_content content c t (or_text o t.format) s in
            IsStored content s b (upload_and_finish lib cloud g r s' b)
      by_content (err e) = (refl, refl, refl, refl)
      by_content (ok content) =
          upload_and_finish-IsStored stores (prepared s c t (or_text o t.format) content) g s b
            below

  -- If the object store gives back what was put into it and the ids of the reports are below the
  -- next one, `generate_report` is the 404 or 400 or the exception of the template engine that
  -- stands in the way of a content, and stores nothing; or the store refuses the object, and
  -- nothing is stored; or it returns a report that is the new row of the table and whose object is
  -- the content.
  pub generate_report_result :
      IsCloud cloud
      → (case_id template_id : ℕ) (format_override : Option String) (generated_by : Option ℕ)
        (s : Session) (b : B)
      → KeysBelow report_key s.next_id s.reports
      → IsStored
          (rendered
            (find_row case_key case_id s.cases)
            (find_row report_template_key template_id s.report_templates)
            format_override
            s)
          s
          b
          (generate_report lib cloud case_id template_id format_override generated_by s b)
  unfolding generate_report
  generate_report_result stores case_id template_id format_override generated_by s b below =
      let found = find_row case_key case_id s.cases in
      let template = find_row report_template_key template_id s.report_templates in
      subst
        (λ (x : Result Prepared × Session).
          IsStored (rendered found template format_override s) s b
            (upload_and_finish lib cloud generated_by x.0 x.1 b))
        (sym (prepare_report_result case_id template_id format_override s))
        (preparation-IsStored stores found template format_override generated_by s b below)
