-- ===== src/Alerts/Triaged.antt =====
-- Triage (`dismiss_alert`, `promote_alert` of backend/src/services/alerts.py): the stored document, the
-- tenants, and the pending alerts.
use watari.Alerts.Dedup.{HasOnePending, ingest_alert-HasOnePending}
use watari.Alerts.Ingest.{
  DetectionFindingIngest, get_alert_or_404, ingest_alert, is_existing, is_pending,
}
use watari.Alerts.Triage.{
  AlertPromote, apply_status_to_payload, dismiss_alert, dismissed_alert, ocsf_status_caption,
  promoted_alert, save_alert, status_value, watari_status_to_ocsf,
}
use watari.Base.{
  List, Option-cases, String, [], arith, false, inl, inr, keep_if, length, refl, some, str_eq,
  subst, sym, ℕ, ◌∷◌, ◌≡◌, ◌≤◌,
}
use watari.Modules.Dispatch.{Installed}
use watari.Alerts.Workflow.{promote_alert_missing, promote_alert_raises, promote_alert_returns}
use watari.Exec.{Result-cases, ok}
use watari.Alerts.Promote.{promote_alert, target_case}
use watari.Modules.Keeps.{UsesModuleApi}
use watari.Store.{Alert, AlertStatus, Session, alert_key}
use watari.Table.{find-save_self, find_row, key-find, save_row}

-- The status in the stored document is the one of the row.
abbrev pub Mirrors : Alert → Type 0
Mirrors a =
    (a.ocsf_payload.status_id ≡ some (status_value (watari_status_to_ocsf a.status)))
    × (a.ocsf_payload.status ≡ some (ocsf_status_caption (watari_status_to_ocsf a.status)))

dismissed_alert-Mirrors : (reason : String) (a : Alert) → Mirrors (dismissed_alert reason a)
unfolding dismissed_alert watari_status_to_ocsf apply_status_to_payload
dismissed_alert-Mirrors reason a = (refl, refl)

-- Writing a row that is not pending adds no pending row.
save_row-existing :
    (t : ℕ) (k : String) (r : Alert) (xs : List Alert)
    → is_pending r ≡ false
    → length (keep_if (is_existing t k) (save_row alert_key r xs))
      ≤ length (keep_if (is_existing t k) xs)
unfolding save_row is_existing
save_row-existing t k r [] h = omega arith
save_row-existing t k r (x ∷ xs) h = ground (arith, save_row-existing t k r xs h)

save_row-HasOnePending :
    (r : Alert) (xs : List Alert)
    → is_pending r ≡ false
    → HasOnePending xs
    → HasOnePending (save_row alert_key r xs)
save_row-HasOnePending r xs h one t k nonempty =
    omega (arith, save_row-existing t k r xs h, one t k nonempty)

-- Dismissing an alert that exists returns it with status dismissed and the reason, and nothing
-- else changed but that the stored document shows the status `Suppressed` and the reason; and if a
-- tenant has at most one pending alert with any key but the empty one before, it has so
-- afterwards.
pub dismiss_alert_result :
    (alert_id : ℕ) (reason : String) (s : Session) (a : Alert)
    → find_row alert_key alert_id s.alerts ≡ some a
    → let (r, s') = dismiss_alert alert_id reason s in
      (r
        ≡ ok (record a {
          status = AlertStatus.dismissed;
          dismiss_reason = some reason;
          ocsf_payload = record a.ocsf_payload {
            status_id = some 3;
            status = some "Suppressed";
            status_detail = some reason;
          };
        }))
      × (HasOnePending s.alerts → HasOnePending s'.alerts)
unfolding dismiss_alert get_alert_or_404 save_alert dismissed_alert apply_status_to_payload
dismiss_alert_result alert_id reason s a found =
    let r = dismissed_alert reason a in
    let same = key-find alert_key alert_id s.alerts found in
    let there : find_row alert_key alert_id (save_row alert_key r s.alerts) ≡ some r =
      subst (λ k. find_row alert_key k (save_row alert_key r s.alerts) ≡ some r) same
        (find-save_self alert_key r s.alerts
          (subst (λ k. find_row alert_key k s.alerts ≡ some a) (sym same) found)) in
    let saved : (dismiss_alert alert_id reason s).1.alerts ≡ save_row alert_key r s.alerts =
      ground arith in
    (
      ground arith,
      λ one. subst HasOnePending (sym saved) (save_row-HasOnePending r s.alerts refl one),
    )

module _ (installed : Installed) (api : UsesModuleApi installed) where
  promoted-HasOnePending :
      (n : ℕ) (a : Alert) (xs : List Alert)
      → HasOnePending xs
      → HasOnePending (save_row alert_key (promoted_alert n a) xs)
  unfolding promoted_alert apply_status_to_payload
  promoted-HasOnePending n a xs one = save_row-HasOnePending (promoted_alert n a) xs refl one

  -- If the modules use `ModuleAPI` alone and a tenant has at most one pending alert with any key
  -- but the empty one, this still holds after `promote_alert`, whether it returns or raises.
  pub promote_alert-HasOnePending :
      (alert_id actor : ℕ) (payload : AlertPromote) (s : Session)
      → HasOnePending s.alerts
      → HasOnePending (promote_alert installed alert_id payload actor s).1.alerts
  promote_alert-HasOnePending alert_id actor payload s one =
      elim (Option-cases (find_row alert_key alert_id s.alerts)) [
        | inl missing ↦
            rw (promote_alert_missing installed api alert_id actor payload s missing) one
        | inr (a, found) ↦ elim (Result-cases (target_case installed a payload actor s).0) [
          | inr (e, q) ↦
              rw (promote_alert_raises installed api alert_id actor payload s a e found q).1 one
          | inl (d, q) ↦
              rw (promote_alert_returns installed api alert_id actor payload s a d found q).1
                (promoted-HasOnePending d.id a s.alerts one)
        ]
      ]

  -- If the modules use `ModuleAPI` alone and a tenant has at most one pending alert with any key
  -- but the empty one, this still holds after `ingest_alert` of a finding that has a `uid`, and
  -- after `promote_alert`, whether it returns or raises.
  pub alerts-HasOnePending :
      (s : Session)
      → HasOnePending s.alerts
      → (tenant_id : ℕ) (p : DetectionFindingIngest) → str_eq p.uid "" ≡ false
      → HasOnePending (ingest_alert installed tenant_id p s).1.alerts
        × ((alert_id actor : ℕ) (payload : AlertPromote)
            → HasOnePending (promote_alert installed alert_id payload actor s).1.alerts)
  alerts-HasOnePending s one tenant_id p uid = (
    ingest_alert-HasOnePending installed api tenant_id p s uid one,
    λ alert_id actor payload. promote_alert-HasOnePending alert_id actor payload s one,
  )
