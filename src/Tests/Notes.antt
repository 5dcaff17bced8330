-- ===== src/Tests/Notes.antt =====
-- Folders: a root with a folder in it, and a folder of another case.
use watari.Base.{Bool, Option, [], arith, false, none, refl, some, ℕ, ◌∷◌, ◌≡◌, ◌≢◌}
use watari.Notes.Climbing.{HasRoots, climb}
use watari.Notes.Keeping.{HasFiledNotes, notes-HasFiledNotes}
use watari.Notes.Notes.{delete_folder}
use watari.Notes.Rooted.{folders_lem}
use watari.Store.{Note, NoteFolder, Session}
use watari.Cases.Update.{set, unset}
use watari.Exec.{err, http, ok}
use watari.Notes.Folders.{NoteFolderUpdate, select_parent, update_folder, would_create_cycle}
use watari.Table.{find_row}
use watari.Tests.Samples.{session}

abbrev folder_of : ℕ → ℕ → Option ℕ → NoteFolder
folder_of id case_id parent_id = record {
  id = id;
  tenant_id = 7;
  case_id = case_id;
  parent_id = parent_id;
  name = "Notes";
  sort_order = 0;
}

abbrev note_session : Session
note_session = record session {
  folders = folder_of 60 1 none ∷ folder_of 61 1 (some 60) ∷ folder_of 62 2 none ∷ [];
}

abbrev move_to : ℕ → NoteFolderUpdate
move_to p = record { name = unset; parent_id = set p; sort_order = unset }

note_session-HasRoots : HasRoots note_session.folders
unfolding select_parent find_row
note_session-HasRoots k = (2, ground arith)

refused : (update_folder 60 (move_to 61) note_session).0 ≡ err (http 400)
unfolding update_folder
refused = refl

-- A folder of case 1 goes under a folder of case 2.
moved_to_another_case :
    (update_folder 61 (move_to 62) note_session).0 ≡ ok (folder_of 61 1 (some 62))
unfolding update_folder
moved_to_another_case = refl

folders_lem_example :
    HasRoots (update_folder 61 (move_to 62) note_session).1.folders
    × ((b : Bool) × (would_create_cycle note_session.folders 60 61 ≡ some b)
        × ((b ≡ false)
            → (n : ℕ) → climb (select_parent note_session.folders) n (some 61) ≢ some 60))
folders_lem_example = folders_lem 61 (move_to 62) 60 61 note_session note_session-HasRoots

abbrev a_note : Note
a_note = record {
  id = 70;
  tenant_id = 7;
  case_id = 1;
  folder_id = some 60;
  title = "Findings";
  content = "";
  author_id = 90;
}

abbrev filed_session : Session
filed_session = record note_session { notes = a_note ∷ [] }

notes-HasFiledNotes_example : HasFiledNotes (delete_folder 60 filed_session).1
unfolding find_row
notes-HasFiledNotes_example = (notes-HasFiledNotes filed_session (refl, tt)).3 60
