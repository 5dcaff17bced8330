-- ===== src/Cases/Delete.antt =====
-- `delete_case` (backend/src/services/cases.py), with what the declarations of the tables
-- (backend/src/models) make of it: the relationships of a case to its tasks, observables, assets,
-- evidence, entries and notes have no `passive_deletes`, so the flush would set the `case_id` of these
-- rows, which may not be null, to null before the database could cascade; alerts, reports and
-- executions refer to the case without a cascade.
use watari.Base.{
  Bool, Option, any, false, if◌then◌else◌, keep_if, none, not, opt_eq, some, true, ℕ, ◌&&◌, ◌==◌,
  ◌||◌, ◌≡◌,
}
use watari.Store.{
  Alert, Asset, AttackMapping, Case, Evidence, ModuleExecution, Note, NoteFolder, Observable,
  Report, Session, Task, TimelineEntry, case_key,
}
use watari.Table.{delete_row, find_row}
use watari.Cases.Create.{get_case_or_404}
use watari.Exec.{
  Action, Result, err, gets, http, integrity_error, modify, ok, raise_if, ◌>>=◌, ◌>>◌,
}

-- A folder or a note that another case owns stands in a folder of the case.
unfoldable pub is_entered : ℕ → Session → Bool
is_entered case_id s =
    any
      (λ (f : NoteFolder).
        f.case_id == case_id
        && (any (λ (g : NoteFolder). not (g.case_id == case_id) && opt_eq g.parent_id (some f.id))
              s.folders
            || any (λ (n : Note). opt_eq n.folder_id (some f.id)) s.notes))
      s.folders

-- Some row keeps the case from being deleted.
unfoldable pub is_held : ℕ → Session → Bool
unfolding is_entered
is_held case_id s =
    any (λ (t : Task). t.case_id == case_id) s.tasks
    || (any (λ (o : Observable). o.case_id == case_id) s.observables
        || (any (λ (a : Asset). a.case_id == case_id) s.assets
            || (any (λ (e : Evidence). e.case_id == case_id) s.evidence
                || (any (λ (e : TimelineEntry). e.case_id == case_id) s.entries
                    || (any (λ (n : Note). n.case_id == case_id) s.notes
                        || (any (λ (a : Alert). opt_eq a.promoted_to_case_id (some case_id))
                              s.alerts
                            || (any (λ (r : Report). r.case_id == case_id) s.reports
                                || (any (λ (x : ModuleExecution). opt_eq x.case_id (some case_id))
                                      s.executions
                                    || is_entered case_id s))))))))

abbrev pub is_folder_of : ℕ → NoteFolder → Bool
is_folder_of case_id f = f.case_id == case_id

abbrev pub is_mapping_of : ℕ → AttackMapping → Bool
is_mapping_of case_id m = opt_eq m.case_id (some case_id)

-- The database deletes the folders and the mappings of the case with it.
unfoldable pub drop_case : ℕ → Session → Session
unfolding delete_row
drop_case case_id s = record s {
  cases = delete_row case_key case_id s.cases;
  folders = keep_if (λ f. not (is_folder_of case_id f)) s.folders;
  attack_mappings = keep_if (λ m. not (is_mapping_of case_id m)) s.attack_mappings;
}

unfoldable pub delete_case : ℕ → Action (Unit {0})
unfolding get_case_or_404 is_held drop_case
delete_case case_id = do
  c ← get_case_or_404 case_id
  held ← gets (is_held c.id)
  raise_if held integrity_error
  modify (drop_case c.id)

-- What a deletion answers and leaves, by the case that is found and whether a row holds it: `other` is
-- a key that is looked for afterwards.
abbrev pub IsDeletion :
    (case_id other : ℕ) → Session → Bool → Option Case → Result (Unit {0}) × Session → Type 0
IsDeletion case_id other s held none (r, s') = (r ≡ err (http 404)) × (s' ≡ s)
IsDeletion case_id other s true (some c) (r, s') = (r ≡ err integrity_error) × (s' ≡ s)
IsDeletion case_id other s false (some c) (r, s') =
    (r ≡ ok tt)
    × (find_row case_key other s'.cases
        ≡ (if other == case_id then none else find_row case_key other s.cases))
    × (s'.folders ≡ keep_if (λ (f : NoteFolder). not (f.case_id == case_id)) s.folders)
    × (s'.attack_mappings
        ≡ keep_if (λ (m : AttackMapping). not (opt_eq m.case_id (some case_id))) s.attack_mappings)
    × (s'
        ≡ record s { cases = s'.cases; folders = s'.folders; attack_mappings = s'.attack_mappings })
