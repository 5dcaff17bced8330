-- ===== src/Alerts/Workflow.antt =====
-- The course of a promotion (`promote_alert` of backend/src/services/alerts.py), step by step.
use watari.Alerts.Ingest.{get_alert_or_404}
use watari.Alerts.Triage.{
  AlertPromote, ocsf_to_observable_create, promoted_alert, promoted_event, promotion_create,
  save_alert, skip_http,
}
use watari.Base.{
  List, Option-cases, String, [], ap, arith, inl, inr, none, refl, some, subst, sym, ℕ, ◌∙◌, ◌∷◌,
  ◌≡◌,
}
use watari.Observables.Service.{
  ObservableCreate, create_observable, get_observable_or_404, insert_observable,
}
use watari.Store.{
  Alert, Case, Kept, Observable, OcsfObservable, Session, alert_key, case_key, kept, observable_key,
}
use watari.Exec.{Action, Error, Result, err, for_each, http, modify, ok, pure, ◌>>=◌, ◌>>◌}
use watari.Cases.Numbers.{create_case-alerts}
use watari.Table.{find-save_self, find_row, key-find, save_row}
use watari.Timeline.Recorder.{record_event, record_event-kept, record_event-ok}
use watari.Alerts.Promote.{copy_one, promote_alert, target_case}
use watari.Modules.Keeps.{UsesModuleApi, fire-ok}
use watari.Modules.Dispatch.{Installed}
use watari.Observables.Creation.{create_observable-kept}
use watari.Observables.Validators.{validate_observable}

module _ (f : OcsfObservable → Action (Unit {0})) where
  for_each-ok :
      (xs : List OcsfObservable) (s : Session)
      → ((x : OcsfObservable) (t : Session) → (f x t).0 ≡ ok tt)
      → (for_each f xs s).0 ≡ ok tt
  for_each-ok [] s h = refl
  for_each-ok (x ∷ xs) s h = ground (arith, h x s, for_each-ok xs (f x s).1 h)

  for_each-kept :
      (xs : List OcsfObservable) (s : Session)
      → ((x : OcsfObservable) (t : Session) → kept (f x t).1 ≡ kept t)
      → ((x : OcsfObservable) (t : Session) → (f x t).0 ≡ ok tt)
      → kept (for_each f xs s).1 ≡ kept s
  for_each-kept [] s h k = refl
  for_each-kept (x ∷ xs) s h k = ground (arith, h x s, k x s, for_each-kept xs (f x s).1 h k)

module _ (installed : Installed) (api : UsesModuleApi installed) where
  get_observable_or_404-http :
      (k : ℕ) (s : Session) → skip_http (get_observable_or_404 k s).0 ≡ ok tt
  unfolding get_observable_or_404
  get_observable_or_404-http k s = elim (Option-cases (find_row observable_key k s.observables)) [
    | inl e ↦ ground arith
    | inr (o, e) ↦ ground arith
  ]

  insert_observable-http :
      (c : Case) (p : ObservableCreate) (normalized : String) (actor : ℕ) (s : Session)
      → skip_http (insert_observable installed c p normalized actor s).0 ≡ ok tt
  unfolding insert_observable
  insert_observable-http c p normalized actor s =
      grind (arith, record_event-ok, fire-ok, get_observable_or_404-http)

  into_insert :
      (case_id actor : ℕ) (p : ObservableCreate) (s : Session) {c : Case} {w : String}
      → find_row case_key case_id s.cases ≡ some c
      → validate_observable s.world.library p.type p.value ≡ some w
      → create_observable installed case_id actor p s ≡ insert_observable installed c p w actor s
  unfolding create_observable
  into_insert case_id actor p s h e = ground (arith, h, e)

  -- All that `create_observable` raises are HTTP errors.
  create_observable-http :
      (case_id actor : ℕ) (p : ObservableCreate) (s : Session)
      → skip_http (create_observable installed case_id actor p s).0 ≡ ok tt
  unfolding create_observable
  create_observable-http case_id actor p s =
      elim (Option-cases (find_row case_key case_id s.cases)) [
        | inl h ↦ ground arith
        | inr (c, h) ↦ elim (Option-cases (validate_observable s.world.library p.type p.value)) [
          | inl e ↦ ground arith
          | inr (w, e) ↦
              ap (λ (x : Result Observable × Session). skip_http x.0)
                (into_insert case_id actor p s h e)
              ∙ insert_observable-http c p w actor s
        ]
      ]

  copy_one-ok :
      (case_id actor : ℕ) (raw : OcsfObservable) (s : Session)
      → (copy_one installed case_id actor raw s).0 ≡ ok tt
  unfolding copy_one
  copy_one-ok case_id actor raw s =
      elim (Option-cases (ocsf_to_observable_create s.world.library raw)) [
        | inl e ↦ ground arith
        | inr (p, e) ↦ ground (arith, create_observable-http case_id actor p s)
      ]

  copy_one-kept :
      (case_id actor : ℕ) (raw : OcsfObservable) (s : Session)
      → kept (copy_one installed case_id actor raw s).1 ≡ kept s
  unfolding copy_one
  copy_one-kept case_id actor raw s =
      elim (Option-cases (ocsf_to_observable_create s.world.library raw)) [
        | inl e ↦ ground arith
        | inr (p, e) ↦ ground (arith, create_observable-kept installed api case_id actor p s)
      ]

  target_case-alerts :
      (a : Alert) (payload : AlertPromote) (actor : ℕ) (s : Session)
      → (target_case installed a payload actor s).1.alerts ≡ s.alerts
  unfolding target_case
  target_case-alerts a payload actor s = elim (Option-cases payload.case_id) [
    | inr (case_id, e) ↦ elim (Option-cases (find_row case_key case_id s.cases)) [
      | inl h ↦ ground arith
      | inr (c, h) ↦ ground arith
    ]
    | inl e ↦ elim (Option-cases payload.new_case_title) [
      | inl h ↦ ground arith
      | inr (title, h) ↦
          ground
            (arith, create_case-alerts installed api a.tenant_id actor (promotion_create a title) s)
    ]
  ]

  -- The alert after the loop over its observables has been run from the session `s`.
  copied-alerts :
      (a : Alert) (c : Case) (actor : ℕ) (s : Session)
      → (for_each (copy_one installed c.id actor) a.ocsf_payload.observables s).1.alerts ≡ s.alerts
  copied-alerts a c actor s =
      ap (λ (k : Kept). k.alerts)
        (for_each-kept (copy_one installed c.id actor) a.ocsf_payload.observables s
          (copy_one-kept c.id actor) (copy_one-ok c.id actor))

  -- The rest of a promotion, after the loop.
  abbrev conclude : ℕ → Alert → Case → ℕ → Action (Alert × Case)
  conclude alert_id a c actor = do
    modify (save_alert (promoted_alert c.id a))
    record_event (promoted_event a c.id actor)
    a' ← get_alert_or_404 alert_id
    pure (a', c)

  conclude_lem :
      (alert_id actor : ℕ) (a : Alert) (c : Case) (s : Session)
      → find_row alert_key alert_id s.alerts ≡ some a
      → let (r, s') = conclude alert_id a c actor s in
        (r ≡ ok (promoted_alert c.id a, c))
        × (s'.alerts ≡ save_row alert_key (promoted_alert c.id a) s.alerts)
  unfolding get_alert_or_404 save_alert promoted_alert
  conclude_lem alert_id actor a c s found =
      let saved = save_alert (promoted_alert c.id a) s in
      let after = (record_event (promoted_event a c.id actor) saved).1 in
      let same : after.alerts ≡ saved.alerts =
        ap (λ (k : Kept). k.alerts) (record_event-kept (promoted_event a c.id actor) saved) in
      let there : find_row alert_key a.id (save_row alert_key (promoted_alert c.id a) s.alerts)
          ≡ some (promoted_alert c.id a) =
        find-save_self alert_key (promoted_alert c.id a) s.alerts (
          subst (λ k. find_row alert_key k s.alerts ≡ some a)
            (sym (key-find alert_key alert_id s.alerts found)) found) in
      let aid = key-find alert_key alert_id s.alerts found in
      let there' : find_row alert_key alert_id after.alerts ≡ some (promoted_alert c.id a) =
        rw same (
          subst (λ k. find_row alert_key k saved.alerts ≡ some (promoted_alert c.id a)) aid
            there) in
      (
        ground (arith, record_event-ok (promoted_event a c.id actor) saved, there'),
        ground (arith, record_event-ok (promoted_event a c.id actor) saved, there', same),
      )

  -- If the modules use `ModuleAPI` alone, the alert exists and there is a case to promote it into,
  -- `promote_alert` returns the alert with status promoted and the id of that case, and the case,
  -- whatever the observables of the document are; the row of the alert is all that is written to
  -- the alerts.
  pub promote_alert_returns :
      (alert_id actor : ℕ) (payload : AlertPromote) (s : Session) (a : Alert) (c : Case)
      → find_row alert_key alert_id s.alerts ≡ some a
      → (target_case installed a payload actor s).0 ≡ ok c
      → let (r, s') = promote_alert installed alert_id payload actor s in
        (r ≡ ok (promoted_alert c.id a, c))
        × (s'.alerts ≡ save_row alert_key (promoted_alert c.id a) s.alerts)
  unfolding promote_alert get_alert_or_404
  promote_alert_returns alert_id actor payload s a c found target =
      let s1 = (target_case installed a payload actor s).1 in
      let copy = for_each (copy_one installed c.id actor) a.ocsf_payload.observables in
      let s2 = (copy s1).1 in
      let copied : (copy s1).0 ≡ ok tt =
        for_each-ok (copy_one installed c.id actor) a.ocsf_payload.observables s1
          (copy_one-ok c.id actor) in
      let same : s2.alerts ≡ s.alerts =
        copied-alerts a c actor s1 ∙ target_case-alerts a payload actor s in
      let step : promote_alert installed alert_id payload actor s ≡ conclude alert_id a c actor s2 =
        ground arith in
      let (result, alerts) = conclude_lem alert_id actor a c s2 (rw same found) in
      rw step (result, alerts ∙ ap (save_row alert_key (promoted_alert c.id a)) same)

  -- If there is no case to promote into, the alerts stay as they are.
  pub promote_alert_raises :
      (alert_id actor : ℕ) (payload : AlertPromote) (s : Session) (a : Alert) (e : Error)
      → find_row alert_key alert_id s.alerts ≡ some a
      → (target_case installed a payload actor s).0 ≡ err e
      → let (r, s') = promote_alert installed alert_id payload actor s in
        (r ≡ err e) × (s'.alerts ≡ s.alerts)
  unfolding promote_alert get_alert_or_404
  promote_alert_raises alert_id actor payload s a e found target =
      (ground arith, ground (arith, target_case-alerts a payload actor s))

  pub promote_alert_missing :
      (alert_id actor : ℕ) (payload : AlertPromote) (s : Session)
      → find_row alert_key alert_id s.alerts ≡ none
      → promote_alert installed alert_id payload actor s ≡ (err (http 404), s)
  unfolding promote_alert get_alert_or_404
  promote_alert_missing alert_id actor payload s found = ground arith
