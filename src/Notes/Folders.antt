-- ===== src/Notes/Folders.antt =====
-- The tree of note folders (backend/src/services/notes.py, schemas/notes.py). `sort_order` is kept as a
-- natural.
use watari.Base.{
  Bool, List, Option, String, [], contains, false, if◌then◌else◌, is_some, length, none, not, some,
  suc, true, zero, ℕ, ◌==◌, ◌||◌, ◌∷◌,
}
use watari.Exec.{
  Action, Result, err, fresh_id, gets, http, integrity_error, modify, ok, or_raise, pure, raise_if,
  value_error, ◌>>=◌, ◌>>◌,
}
use watari.Store.{Case, NoteFolder, Session, folder_key}
use watari.Cases.Create.{get_case_or_404}
use watari.Cases.Update.{Patch, assign, assign_optional, is_null, null, set, unset}
use watari.Table.{add_row, find_row, save_row}

-- `NoteFolderCreate`
pub record NoteFolderCreate : Type 0 where
  pub name : String
  pub parent_id : Option ℕ
  pub sort_order : ℕ

-- `NoteFolderUpdate`
pub record NoteFolderUpdate : Type 0 where
  pub name : Patch String
  pub parent_id : Patch ℕ
  pub sort_order : Patch ℕ

abbrev pub parent_of : Option NoteFolder → Option ℕ
parent_of none = none
parent_of (some f) = f.parent_id

-- `select(NoteFolder.parent_id).where(NoteFolder.id == current)`
unfoldable pub select_parent : List NoteFolder → ℕ → Option ℕ
unfolding find_row
select_parent folders current = parent_of (find_row folder_key current folders)

-- The loop of `_would_create_cycle`, on fuel: `none` is a loop that is cut off.
unfoldable pub walk : List NoteFolder → ℕ → ℕ → List ℕ → Option ℕ → Option Bool
unfolding select_parent
walk folders folder_id fuel visited none = some false
walk folders folder_id zero visited (some current) = none
walk folders folder_id (suc fuel) visited (some current) =
    let rest = walk folders folder_id fuel (current ∷ visited) (select_parent folders current) in
    if current == folder_id then some true else if contains current visited then some true else rest

-- One round for each folder, and one for an id that is in no row.
unfoldable pub would_create_cycle : List NoteFolder → ℕ → ℕ → Option Bool
unfolding walk
would_create_cycle folders folder_id new_parent_id =
    if folder_id == new_parent_id
    then some true
    else walk folders folder_id (suc (length folders)) [] (some new_parent_id)

unfoldable pub get_folder_or_404 : ℕ → Action NoteFolder
unfolding find_row
get_folder_or_404 folder_id = do
  found ← gets (λ s. find_row folder_key folder_id s.folders)
  or_raise (http 404) found

-- `_would_create_cycle` as a guard; a loop that is cut off would be no answer.
abbrev pub cycle_guard : List NoteFolder → ℕ → Patch ℕ → Result (Unit {0})
cycle_guard folders folder_id unset = ok tt
cycle_guard folders folder_id null = ok tt
cycle_guard folders folder_id (set p) = elim (would_create_cycle folders folder_id p) [
  | none ↦ err value_error
  | some true ↦ err (http 400)
  | some false ↦ ok tt
]

-- The foreign key of `parent_id`.
abbrev pub is_dangling : List NoteFolder → Patch ℕ → Bool
is_dangling folders (set p) = not (is_some (find_row folder_key p folders))
is_dangling folders _ = false

-- The loop over `payload.model_dump(exclude_unset=True)`.
unfoldable pub apply_folder : NoteFolderUpdate → NoteFolder → NoteFolder
apply_folder u f = record f {
  name = assign u.name f.name;
  parent_id = assign_optional u.parent_id f.parent_id;
  sort_order = assign u.sort_order f.sort_order;
}

unfoldable pub save_folder : NoteFolder → Session → Session
unfolding save_row
save_folder f s = record s { folders = save_row folder_key f s.folders }

unfoldable pub update_folder : ℕ → NoteFolderUpdate → Action NoteFolder
unfolding get_folder_or_404 would_create_cycle save_folder apply_folder find_row
update_folder folder_id u = do
  f ← get_folder_or_404 folder_id
  (λ s. (cycle_guard s.folders f.id u.parent_id, s))
  dangling ← gets (λ s. is_dangling s.folders u.parent_id)
  modify (save_folder (apply_folder u f))
  raise_if (is_null u.name || is_null u.sort_order || dangling) integrity_error
  get_folder_or_404 folder_id

-- The parent exists and belongs to the case.
unfoldable pub check_parent : Case → Option ℕ → Action (Unit {0})
unfolding get_folder_or_404
check_parent c none = pure tt
check_parent c (some p) = do
  parent ← get_folder_or_404 p
  raise_if (not (parent.case_id == c.id)) (http 400)

unfoldable pub create_folder : ℕ → NoteFolderCreate → Action NoteFolder
unfolding get_case_or_404 get_folder_or_404 add_row check_parent
create_folder case_id payload = do
  c ← get_case_or_404 case_id
  check_parent c payload.parent_id
  id ← fresh_id
  modify (λ s. record s {
    folders =
        add_row folder_key
          (record {
            id = id;
            tenant_id = c.tenant_id;
            case_id = c.id;
            parent_id = payload.parent_id;
            name = payload.name;
            sort_order = payload.sort_order;
          })
          s.folders;
  })
  get_folder_or_404 id
