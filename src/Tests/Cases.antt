-- ===== src/Tests/Cases.antt =====
-- Creating, updating and merging cases of the sample session.
use watari.Base.{All, List, [], arith, map, refl, ◌++◌, ◌∷◌, ◌≡◌, ◌⊎◌}
use watari.Cases.Effects.{update_case_result, update_result}
use watari.Cases.Merge.{case_ids, merge_cases}
use watari.Cases.Merged.{merge_cases_moves, merge_cases_result, merged}
use watari.Cases.Numbers.{HasUniqueNumbers, create_case-HasUniqueNumbers}
use watari.Cases.Update.{CaseUpdate, set, unset, update_case}
use watari.Store.{Case, CaseStatus, Observable, TimelineEntry}
use watari.Timeline.Recorder.{record_event}
use watari.Cases.Create.{create_case, next_case_number}
use watari.Cases.Merging.{IsSource, merged_case}
use watari.Exec.{Error, err, http, ok}
use watari.Table.{find_row}
use watari.Tests.Samples.{case_create, case_of, installed, installed-UsesModuleApi, session}

create_case-HasUniqueNumbers_example :
    HasUniqueNumbers (create_case installed 7 90 case_create session).1.cases
create_case-HasUniqueNumbers_example =
    create_case-HasUniqueNumbers installed installed-UsesModuleApi 7 90 case_create session
      (omega arith)

third_case : next_case_number 7 session ≡ 3
unfolding next_case_number
third_case = refl

abbrev close_silently : CaseUpdate
close_silently = record {
  title = unset;
  description = unset;
  status = set CaseStatus.closed;
  severity = unset;
  outcome = unset;
  assignee_id = set 91;
  tags = unset;
  custom_fields = unset;
}

update_case_result_example :
    (update_case installed 1 close_silently 90 session).0
    ≡ update_result session close_silently (case_of 1 7 1)
unfolding find_row
update_case_result_example =
    update_case_result installed installed-UsesModuleApi 1 close_silently 90 session refl

refused_without_outcome : update_result session close_silently (case_of 1 7 1) ≡ err (http 400)
refused_without_outcome = refl

merge_cases_result_example :
    ((e : Error) × (merge_cases 1 (2 ∷ []) 90 session ≡ (err e, session)))
    ⊎ ((sources : List Case) × (case_ids sources ≡ 2 ∷ [])
        × All (IsSource session (case_of 1 7 1)) sources
        × ((merge_cases 1 (2 ∷ []) 90 session).0
            ≡ ok (record (case_of 1 7 1) { merged_from = 2 ∷ [] }))
        × ((merge_cases 1 (2 ∷ []) 90 session).1 ≡ merged session (case_of 1 7 1) sources 90))
unfolding find_row
merge_cases_result_example = merge_cases_result (2 ∷ []) 90 session (case_of 1 7 1) refl

merge_cases_moves_example :
    let s' = (merge_cases 1 (2 ∷ []) 90 session).1 in
    (s'.observables
      ≡ map
          (λ (o : Observable). record o { case_id = merged_case 1 (2 ∷ []) o.case_id })
          session.observables)
    × (e : TimelineEntry) × (e.event_type ≡ "cases_merged")
    × (e.case_id ≡ 1)
    × (s'.entries
        ≡ map
            (λ (x : TimelineEntry). record x { case_id = merged_case 1 (2 ∷ []) x.case_id })
            session.entries
          ++ e ∷ [])
unfolding merge_cases record_event
merge_cases_moves_example = merge_cases_moves (2 ∷ []) 90 session (case_of 1 7 1) refl refl

-- A case of another tenant is refused.
merge_across_tenants : merge_cases 1 (3 ∷ []) 90 session ≡ (err (http 400), session)
unfolding merge_cases
merge_across_tenants = refl
