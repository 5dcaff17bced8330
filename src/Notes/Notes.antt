-- ===== src/Notes/Notes.antt =====
-- Notes (backend/src/services/notes.py, schemas/notes.py), and the deletion of a folder, which moves
-- what it holds out of it: the relationships `children` and `notes` have no cascade.
use watari.Base.{
  List, Option, String, if◌then◌else◌, keep_if, length, map, none, not, reverse, some, ℕ, ◌&&◌,
  ◌==◌, ◌||◌,
}
use watari.Cases.Create.{get_case_or_404}
use watari.Cases.Update.{Patch, assign, assign_optional, is_null}
use watari.Exec.{
  Action, fresh_id, gets, http, integrity_error, modify, or_raise, pure, raise_if, ◌>>=◌, ◌>>◌,
}
use watari.Paging.Pages.{where_id}
use watari.Notes.Folders.{get_folder_or_404}
use watari.Paging.Pages.{offset, select_rows}
use watari.Store.{Case, Note, NoteFolder, folder_key, note_key}
use watari.Table.{add_row, delete_row, find_row, save_row}

-- `NoteCreate`
pub record NoteCreate : Type 0 where
  pub title : String
  pub content : String
  pub folder_id : Option ℕ

-- `NoteUpdate`
pub record NoteUpdate : Type 0 where
  pub title : Patch String
  pub content : Patch String
  pub folder_id : Patch ℕ

-- `_get_note_or_404`
unfoldable pub get_note_or_404 : ℕ → Action Note
unfolding find_row
get_note_or_404 note_id = do
  found ← gets (λ s. find_row note_key note_id s.notes)
  or_raise (http 404) found

-- The folder exists and belongs to the case.
unfoldable pub check_folder : ℕ → ℕ → Action (Unit {0})
unfolding get_folder_or_404
check_folder case_id folder_id = do
  folder ← get_folder_or_404 folder_id
  raise_if (not (folder.case_id == case_id)) (http 400)

abbrev pub check_optional : ℕ → Option ℕ → Action (Unit {0})
check_optional case_id none = pure tt
check_optional case_id (some folder_id) = check_folder case_id folder_id

abbrev pub check_patch : ℕ → Patch ℕ → Action (Unit {0})
check_patch case_id (Patch.set folder_id) = check_folder case_id folder_id
check_patch case_id _ = pure tt

abbrev pub new_note : ℕ → Case → ℕ → NoteCreate → Note
new_note id c author_id p = record {
  id = id;
  tenant_id = c.tenant_id;
  case_id = c.id;
  folder_id = p.folder_id;
  title = p.title;
  content = p.content;
  author_id = author_id;
}

unfoldable pub create_note : ℕ → ℕ → NoteCreate → Action Note
unfolding get_case_or_404 check_folder add_row get_note_or_404
create_note case_id author_id p = do
  c ← get_case_or_404 case_id
  check_optional c.id p.folder_id
  id ← fresh_id
  modify (λ s. record s { notes = add_row note_key (new_note id c author_id p) s.notes })
  get_note_or_404 id

-- The loop over `payload.model_dump(exclude_unset=True)`.
unfoldable pub apply_note : NoteUpdate → Note → Note
apply_note u n = record n {
  title = assign u.title n.title;
  content = assign u.content n.content;
  folder_id = assign_optional u.folder_id n.folder_id;
}

-- The columns `title` and `content` may not be null.
unfoldable pub update_note : ℕ → NoteUpdate → Action Note
unfolding get_note_or_404 check_folder apply_note save_row
update_note note_id u = do
  n ← get_note_or_404 note_id
  check_patch n.case_id u.folder_id
  modify (λ s. record s { notes = save_row note_key (apply_note u n) s.notes })
  raise_if (is_null u.title || is_null u.content) integrity_error
  get_note_or_404 note_id

unfoldable pub delete_note : ℕ → Action (Unit {0})
unfolding get_note_or_404 delete_row
delete_note note_id = do
  n ← get_note_or_404 note_id
  modify (λ s. record s { notes = delete_row note_key n.id s.notes })

-- A reference to the folder becomes null.
abbrev pub without : ℕ → Option ℕ → Option ℕ
without folder_id none = none
without folder_id (some id) = if id == folder_id then none else some id

abbrev pub note_out : ℕ → Note → Note
note_out folder_id n = record n { folder_id = without folder_id n.folder_id }

abbrev pub child_out : ℕ → NoteFolder → NoteFolder
child_out folder_id f = record f { parent_id = without folder_id f.parent_id }

unfoldable pub delete_folder : ℕ → Action (Unit {0})
unfolding get_folder_or_404 delete_row
delete_folder folder_id = do
  folder ← get_folder_or_404 folder_id
  modify (λ s. record s {
    folders = map (child_out folder.id) (delete_row folder_key folder.id s.folders);
    notes = map (note_out folder.id) s.notes;
  })

-- The notes of the case, of one folder if one is given, and the number of them. `updated_at desc` is
-- not modelled: the order is that of insertion, the later first.
unfoldable pub list_notes : ℕ → Option ℕ → (limit offset : ℕ) → Action (List Note × ℕ)
list_notes case_id folder_id limit offset = do
  rows ←
      gets (λ s.
        keep_if (λ (n : Note). n.case_id == case_id && where_id folder_id n.folder_id) s.notes)
  pure (select_rows limit offset (reverse rows), length rows)
