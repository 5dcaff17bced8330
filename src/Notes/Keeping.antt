-- ===== src/Notes/Keeping.antt =====
-- The folders of notes under the operations on notes and folders (backend/src/services/notes.py).
use watari.Base.{
  List, Option-cases, arith, inl, inr, map, refl, some, subst, sym, true, ℕ, ◌≡◌, ◌⊎◌,
}
use watari.Cases.Create.{get_case_or_404}
use watari.Cases.Update.{Patch, assign_optional}
use watari.Exec.{Error, err, ok}
use watari.Notes.Filed.{
  AreFiled, add-AreFiled, check_optional-filed, delete-AreFiled, find-filed, is_filed, out-AreFiled,
  save-AreFiled,
}
use watari.Notes.Folders.{get_folder_or_404}
use watari.Notes.Notes.{
  NoteCreate, NoteUpdate, apply_note, check_patch, child_out, create_note, delete_folder,
  delete_note, get_note_or_404, new_note, note_out, update_note,
}
use watari.Store.{Note, NoteFolder, Session, case_key, folder_key, note_key}
use watari.Table.{add_row, delete_row, find_row, save_row}

abbrev tables : Session → List NoteFolder × List Note
tables s = (s.folders, s.notes)

-- The notes of a session are filed.
abbrev pub HasFiledNotes : Session → Type 0
HasFiledNotes s = AreFiled s.folders s.notes

moved :
    (s' : Session) (folders : List NoteFolder) (ns : List Note)
    → tables s' ≡ (folders, ns)
    → AreFiled folders ns
    → HasFiledNotes s'
moved s' folders ns e a = subst (λ (x : List NoteFolder × List Note). AreFiled x.0 x.1) (sym e) a

create_note-HasFiledNotes :
    (case_id author : ℕ) (p : NoteCreate) (s : Session)
    → HasFiledNotes s
    → HasFiledNotes (create_note case_id author p s).1
unfolding create_note get_case_or_404 get_note_or_404
create_note-HasFiledNotes case_id author p s a =
    elim (Option-cases (find_row case_key case_id s.cases)) [
      | inl e ↦ moved (create_note case_id author p s).1 s.folders s.notes (ground (arith, e)) a
      | inr (c, e) ↦
          let (same, checked) = check_optional-filed c.id p.folder_id s in
          elim checked [
            | inr (x, r) ↦
                moved (create_note case_id author p s).1 s.folders s.notes
                  (ground (arith, e, same, r)) a
            | inl (r, h) ↦
                let n = new_note s.next_id c author p in
                moved (create_note case_id author p s).1 s.folders (add_row note_key n s.notes)
                  (ground (arith, e, same, r)) (add-AreFiled s.folders n s.notes h a)
          ]
    ]

-- The folder that an update gives a note.
check_patch-filed :
    (n : Note) (u : NoteUpdate) (s : Session)
    → is_filed s.folders n.case_id n.folder_id ≡ true
    → ((check_patch n.case_id u.folder_id s).1 ≡ s)
      × (((check_patch n.case_id u.folder_id s).0 ≡ ok tt)
            × (is_filed s.folders n.case_id (assign_optional u.folder_id n.folder_id) ≡ true)
          ⊎ ((e : Error) × ((check_patch n.case_id u.folder_id s).0 ≡ err e)))
check_patch-filed n u s h = by_patch u.folder_id
  where
    by_patch :
        (v : Patch ℕ)
        → ((check_patch n.case_id v s).1 ≡ s)
          × (((check_patch n.case_id v s).0 ≡ ok tt)
                × (is_filed s.folders n.case_id (assign_optional v n.folder_id) ≡ true)
              ⊎ ((e : Error) × ((check_patch n.case_id v s).0 ≡ err e)))
    by_patch Patch.unset = (refl, inl (refl, h))
    by_patch Patch.null = (refl, inl (refl, refl))
    by_patch (Patch.set k) = check_optional-filed n.case_id (some k) s

update_note-HasFiledNotes :
    (note_id : ℕ) (u : NoteUpdate) (s : Session)
    → HasFiledNotes s
    → HasFiledNotes (update_note note_id u s).1
unfolding update_note get_note_or_404 apply_note
update_note-HasFiledNotes note_id u s a = elim (Option-cases (find_row note_key note_id s.notes)) [
  | inl e ↦ moved (update_note note_id u s).1 s.folders s.notes (ground (arith, e)) a
  | inr (n, e) ↦
      let (same, checked) = check_patch-filed n u s (find-filed s.folders note_id s.notes a e) in
      elim checked [
        | inr (x, r) ↦
            moved (update_note note_id u s).1 s.folders s.notes (ground (arith, e, same, r)) a
        | inl (r, h) ↦
            moved (update_note note_id u s).1 s.folders (save_row note_key (apply_note u n) s.notes)
              (ground (arith, e, same, r)) (save-AreFiled s.folders (apply_note u n) s.notes h a)
      ]
]

-- If every note stands in a folder of its own case, or in none, this still holds after creating,
-- updating and deleting a note and after deleting a folder, whether the call returns or raises.
pub notes-HasFiledNotes :
    (s : Session)
    → HasFiledNotes s
    → ((case_id author : ℕ) (p : NoteCreate) → HasFiledNotes (create_note case_id author p s).1)
      × ((id : ℕ) (u : NoteUpdate) → HasFiledNotes (update_note id u s).1)
      × ((id : ℕ) → HasFiledNotes (delete_note id s).1)
      × ((id : ℕ) → HasFiledNotes (delete_folder id s).1)
unfolding delete_note delete_folder get_note_or_404 get_folder_or_404
notes-HasFiledNotes s a = (
  λ case_id author p. create_note-HasFiledNotes case_id author p s a,
  λ id u. update_note-HasFiledNotes id u s a,
  λ id. elim (Option-cases (find_row note_key id s.notes)) [
    | inl e ↦ moved (delete_note id s).1 s.folders s.notes (ground (arith, e)) a
    | inr (n, e) ↦
        moved (delete_note id s).1 s.folders (delete_row note_key n.id s.notes) (ground (arith, e))
          (delete-AreFiled s.folders n.id s.notes a)
  ],
  λ id. elim (Option-cases (find_row folder_key id s.folders)) [
    | inl e ↦ moved (delete_folder id s).1 s.folders s.notes (ground (arith, e)) a
    | inr (f, e) ↦
        moved (delete_folder id s).1 (map (child_out f.id) (delete_row folder_key f.id s.folders))
          (map (note_out f.id) s.notes) (ground (arith, e)) (out-AreFiled s.folders f.id s.notes a)
  ],
)
