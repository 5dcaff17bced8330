-- ===== src/Tests/Observables.antt =====
-- Observables of the sample session.
use watari.Base.{
  List, [], any, arith, contains, keep_if, length, not, refl, ℕ, ◌&&◌, ◌==◌, ◌∷◌, ◌≡◌,
}
use watari.Exec.{Error, err, ok, rollback, transaction}
use watari.Observables.Correlation.{HasNoDuplicates, correlation_lem}
use watari.Observables.Service.{
  create_observable, create_observables_bulk, cross_case_count, find_correlating_cases, has_value,
}
use watari.Tests.Samples.{
  installed, installed-OnlyAdds, installed-UsesModuleApi, library, observable_create, session,
}
use watari.Observables.Creation.{bulk_refused, create_observable_result, creation}
use watari.Observables.Validators.{validate_observable}
use watari.Store.{ObservableType, case_key}
use watari.Table.{find_row}

create_observable_result_example :
    let (r, s') =
      create_observable installed 1 90 (observable_create ObservableType.ip "10.0.0.9") session in
    (r
      ≡ creation
          (find_row case_key 1 session.cases)
          (observable_create ObservableType.ip "10.0.0.9")
          (validate_observable library ObservableType.ip "10.0.0.9")
          100
          90)
    × ((e : Error) → r ≡ err e → s' ≡ session)
create_observable_result_example =
    create_observable_result installed installed-OnlyAdds 1 90
      (observable_create ObservableType.ip "10.0.0.9") session (omega arith)

bulk_refused_example :
    let m = create_observables_bulk installed 1 90 (
      observable_create ObservableType.ip "10.0.0.9"
      ∷ observable_create ObservableType.domain "bad"
      ∷ []) in
    (e : Error) × (transaction m session ≡ (err e, rollback session (m session).1))
unfolding validate_observable
bulk_refused_example =
    bulk_refused installed installed-UsesModuleApi 1 90
      (observable_create ObservableType.ip "10.0.0.9"
        ∷ observable_create ObservableType.domain "bad"
        ∷ [])
      session refl

correlation_lem_example :
    (cases : List ℕ) × (find_correlating_cases 7 ObservableType.ip "10.0.0.1" session
      ≡ (ok cases, session))
    × HasNoDuplicates cases
    × ((c : ℕ)
        → contains c cases
          ≡ any
              (λ o. has_value 7 ObservableType.ip "10.0.0.1" o && o.case_id == c)
              session.observables)
    × (cross_case_count 7 ObservableType.ip "10.0.0.1" 1 session
        ≡ (ok (length (keep_if (λ c. not (c == 1)) cases)), session))
correlation_lem_example = correlation_lem 7 ObservableType.ip "10.0.0.1" 1 session
