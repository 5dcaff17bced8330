-- ===== src/Tests/Alerts.antt =====
-- Alerts of the sample session.
use watari.Alerts.Dedup.{HasOnePending}
use watari.Alerts.Triaged.{alerts-HasOnePending, dismiss_alert_result}
use watari.Store.{AlertStatus}
use watari.Table.{find_row}
use watari.Tests.Samples.{
  alert_session, finding, installed, installed-UsesModuleApi, pending_alert, session,
}
use watari.Alerts.Ingest.{ingest_alert}
use watari.Alerts.Promote.{promote_alert}
use watari.Alerts.Triage.{AlertPromote, dismiss_alert}
use watari.Base.{arith, none, refl, some, ℕ, ◌≡◌}
use watari.Exec.{ok}

dismiss_alert_result_example :
    let (r, s') = dismiss_alert 50 "noise" alert_session in
    (r
      ≡ ok (record pending_alert {
        status = AlertStatus.dismissed;
        dismiss_reason = some "noise";
        ocsf_payload = record pending_alert.ocsf_payload {
          status_id = some 3;
          status = some "Suppressed";
          status_detail = some "noise";
        };
      }))
    × (HasOnePending alert_session.alerts → HasOnePending s'.alerts)
unfolding find_row
dismiss_alert_result_example = dismiss_alert_result 50 "noise" alert_session pending_alert refl

abbrev into_case : ℕ → AlertPromote
into_case n = record { case_id = some n; new_case_title = none }

alerts-HasOnePending_example :
    HasOnePending (ingest_alert installed 7 finding session).1.alerts
    × ((alert_id actor : ℕ) (payload : AlertPromote)
        → HasOnePending (promote_alert installed alert_id payload actor session).1.alerts)
alerts-HasOnePending_example =
    alerts-HasOnePending installed installed-UsesModuleApi session (λ t k h. omega arith) 7 finding
      refl
