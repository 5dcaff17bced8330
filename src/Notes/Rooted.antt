-- ===== src/Notes/Rooted.antt =====
-- The shape of the tree of folders after `update_folder` (backend/src/services/notes.py).
use watari.Base.{
  Bool, Bool-cases, List, Option, Option-cases, ap, arith, false, inl, inr, none, refl, some, subst,
  sym, ℕ, ◌∙◌, ◌≡◌, ◌≢◌, ◌⊎◌,
}
use watari.Notes.Climbing.{
  HasRoots, climb, climb-none, climb_ends, climb_never_returns, would_create_cycle_lem,
}
use watari.Notes.Folders.{
  NoteFolderUpdate, apply_folder, cycle_guard, get_folder_or_404, parent_of, save_folder,
  select_parent, update_folder, would_create_cycle,
}
use watari.Cases.Update.{Patch, assign_optional, null, set, unset}
use watari.Exec.{Result-cases, ok}
use watari.Table.{find-save_ne, find-save_self, find_row, key-find, save_row}
use watari.Store.{NoteFolder, Session, folder_key}

select_parent-save_ne :
    (folders : List NoteFolder) (f : NoteFolder) (k : ℕ)
    → f.id ≢ k
    → select_parent (save_row folder_key f folders) k ≡ select_parent folders k
unfolding select_parent
select_parent-save_ne folders f k h = ap parent_of (find-save_ne folder_key k f folders h)

select_parent-save_self :
    (folders : List NoteFolder) (f : NoteFolder) {old : NoteFolder}
    → find_row folder_key f.id folders ≡ some old
    → select_parent (save_row folder_key f folders) f.id ≡ f.parent_id
unfolding select_parent
select_parent-save_self folders f h = ap parent_of (find-save_self folder_key f folders h)

-- A folder whose new parent is none, or one from which the way up never meets the folder, may be
-- written.
save-HasRoots :
    (folders : List NoteFolder) (f : NoteFolder) {old : NoteFolder}
    → find_row folder_key f.id folders ≡ some old
    → ((m : ℕ) → climb (select_parent folders) m f.parent_id ≢ some f.id)
    → HasRoots folders
    → HasRoots (save_row folder_key f folders)
save-HasRoots folders f found avoids roots k =
    let next = select_parent (save_row folder_key f folders) in
    let top : next f.id ≡ f.parent_id = select_parent-save_self folders f found in
    let (r, e) = up f.parent_id in
    let (n, q) = roots k in
    climb_ends (select_parent folders) next f.id
      (λ j h. select_parent-save_ne folders f j (λ same. h (sym same))) r
      (λ m x. avoids m (ap (climb (select_parent folders) m) (sym top) ∙ x))
      (ap (climb (select_parent folders) r) top ∙ e) n (some k) q
  where
    up : (c : Option ℕ) → (r : ℕ) × (climb (select_parent folders) r c ≡ none)
    up none = (0, refl)
    up (some p) = roots p

-- In a finite tree no way up comes back.
HasRoots-avoids :
    (folders : List NoteFolder) (k : ℕ)
    → HasRoots folders
    → (m : ℕ) → climb (select_parent folders) m (select_parent folders k) ≢ some k
HasRoots-avoids folders k roots m e =
    let (n, q) = roots k in climb_never_returns (select_parent folders) n m k q e

-- The parent that an accepted update gives is not below the folder.
guarded :
    (folders : List NoteFolder) (f : NoteFolder) (given : Patch ℕ)
    → find_row folder_key f.id folders ≡ some f
    → HasRoots folders
    → cycle_guard folders f.id given ≡ ok tt
    → (m : ℕ) → climb (select_parent folders) m (assign_optional given f.parent_id) ≢ some f.id
unfolding select_parent
guarded folders f unset found roots h m e =
    HasRoots-avoids folders f.id roots m
      (ap (climb (select_parent folders) m) (ap parent_of found) ∙ e)
guarded folders f null found roots h m e = let top = climb-none (select_parent folders) m in cc
guarded folders f (set p) found roots h m e =
    let (b, q, safe) = would_create_cycle_lem folders f.id p in
    elim (Bool-cases b) [ inl yes' ↦ ground (arith, q) | inr no' ↦ safe no' m e ]

-- What the update leaves: the folders as they were, or with the accepted row.
update_folder-folders :
    (folder_id : ℕ) (u : NoteFolderUpdate) (s : Session)
    → ((update_folder folder_id u s).1.folders ≡ s.folders)
      ⊎ ((f : NoteFolder) × (find_row folder_key folder_id s.folders ≡ some f)
          × (cycle_guard s.folders f.id u.parent_id ≡ ok tt)
          × ((update_folder folder_id u s).1.folders
              ≡ save_row folder_key (apply_folder u f) s.folders))
unfolding update_folder get_folder_or_404 save_folder
update_folder-folders folder_id u s =
    elim (Option-cases (find_row folder_key folder_id s.folders)) [
      | inl e ↦ inl (ground arith)
      | inr (f, e) ↦ elim (Result-cases (cycle_guard s.folders f.id u.parent_id)) [
        | inr (x, h) ↦ inl (ground arith)
        | inl (_, h) ↦ inr (f, e, h, ground arith)
      ]
    ]

-- If the way up from every folder ends, this still holds after `update_folder`, whether it returns
-- or raises.
pub update_folder-HasRoots :
    (folder_id : ℕ) (u : NoteFolderUpdate) (s : Session)
    → HasRoots s.folders
    → HasRoots (update_folder folder_id u s).1.folders
unfolding apply_folder
update_folder-HasRoots folder_id u s roots = elim (update_folder-folders folder_id u s) [
  | inl e ↦ rw e roots
  | inr (f, found, h, e) ↦
      let here : find_row folder_key f.id s.folders ≡ some f =
        subst (λ k. find_row folder_key k s.folders ≡ some f)
          (sym (key-find folder_key folder_id s.folders found)) found in
      rw e (
        save-HasRoots s.folders (apply_folder u f) here
          (guarded s.folders f u.parent_id here roots h) roots)
]

-- If the way up from every folder ends, this still holds after `update_folder`, whether it returns
-- or raises; and the loop of `_would_create_cycle` gives an answer within one round for each
-- folder and one more, and if the answer is that there is no cycle, the way up from the new parent
-- never meets the folder.
pub folders_lem :
    (folder_id : ℕ) (u : NoteFolderUpdate) (j p : ℕ) (s : Session)
    → HasRoots s.folders
    → HasRoots (update_folder folder_id u s).1.folders
      × ((b : Bool) × (would_create_cycle s.folders j p ≡ some b)
          × ((b ≡ false) → (n : ℕ) → climb (select_parent s.folders) n (some p) ≢ some j))
folders_lem folder_id u j p s roots =
    (update_folder-HasRoots folder_id u s roots, would_create_cycle_lem s.folders j p)
