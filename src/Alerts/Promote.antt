-- ===== src/Alerts/Promote.antt =====
-- `promote_alert` (backend/src/services/alerts.py).
use watari.Alerts.Ingest.{get_alert_or_404}
use watari.Alerts.Triage.{
  AlertPromote, ocsf_to_observable_create, promoted_alert, promoted_event, promotion_create,
  save_alert, skip_http,
}
use watari.Base.{if◌then◌else◌, ltb, none, some, str_eq, ℕ, ◌==◌}
use watari.Cases.Create.{create_case}
use watari.Exec.{Action, err, for_each, http, modify, ok, pure, raise_if, value_error, ◌>>=◌, ◌>>◌}
use watari.Modules.Dispatch.{Installed}
use watari.Observables.Service.{create_observable}
use watari.Store.{Alert, Case, OcsfObservable, case_key}
use watari.Table.{find_row}
use watari.Timeline.Recorder.{record_event}

module _ (installed : Installed) where
  -- The case that is named, or a new one. A title that is too long for `CaseCreate` is a
  -- `ValidationError`, which is a `ValueError`.
  unfoldable pub target_case : Alert → AlertPromote → ℕ → Action Case
  unfolding find_row create_case
  target_case a payload actor s = elim payload.case_id [
    | some case_id ↦ elim (find_row case_key case_id s.cases) [
      | none ↦ (err (http 404), s)
      | some c ↦ (if c.tenant_id == a.tenant_id then ok c else err (http 400), s)
    ]
    | none ↦ elim payload.new_case_title [
      | none ↦ (err (http 400), s)
      | some title ↦
          (do
            raise_if (str_eq title "") (http 400)
            raise_if (ltb 500 (s.world.library.len title)) value_error
            create_case installed a.tenant_id actor (promotion_create a title))
            s
    ]
  ]

  -- One round of the loop over the observables of the document.
  unfoldable pub copy_one : ℕ → ℕ → OcsfObservable → Action (Unit {0})
  unfolding ocsf_to_observable_create create_observable
  copy_one case_id actor raw s = elim (ocsf_to_observable_create s.world.library raw) [
    | none ↦ (ok tt, s)
    | some p ↦ let (r, s') = create_observable installed case_id actor p s in (skip_http r, s')
  ]

  unfoldable pub promote_alert : ℕ → AlertPromote → ℕ → Action (Alert × Case)
  unfolding get_alert_or_404 target_case copy_one promoted_alert save_alert
  promote_alert alert_id payload actor = do
    a ← get_alert_or_404 alert_id
    c ← target_case a payload actor
    for_each (copy_one c.id actor) a.ocsf_payload.observables
    modify (save_alert (promoted_alert c.id a))
    record_event (promoted_event a c.id actor)
    a' ← get_alert_or_404 alert_id
    pure (a', c)
