-- ===== src/Notes/Filed.antt =====
-- Every note stands in a folder of its own case, or in none (backend/src/services/notes.py).
use watari.Base.{
  All, Bool, Bool-cases, List, Option, Option-cases, [], ap, arith, false, inl, inr, map, none,
  refl, some, subst, true, ℕ, ◌==◌, ◌∷◌, ◌≡◌, ◌≢◌, ◌⊎◌,
}
use watari.Notes.Notes.{check_folder, check_optional, child_out, note_out, without}
use watari.Store.{Note, NoteFolder, Session, folder_key, note_key}
use watari.Exec.{Error, err, http, ok}
use watari.Notes.Folders.{get_folder_or_404}
use watari.Table.{add_row, delete_row, find_row, save_row}

-- The folder is none, or a row of the case.
abbrev pub is_filed : List NoteFolder → ℕ → Option ℕ → Bool
is_filed folders case_id none = true
is_filed folders case_id (some id) = elim (find_row folder_key id folders) [
  | none ↦ false
  | some f ↦ f.case_id == case_id
]

abbrev pub AreFiled : List NoteFolder → List Note → Type 0
AreFiled folders = All (λ (n : Note). is_filed folders n.case_id n.folder_id ≡ true)

pub add-AreFiled :
    (folders : List NoteFolder) (n : Note) (ns : List Note)
    → is_filed folders n.case_id n.folder_id ≡ true
    → AreFiled folders ns
    → AreFiled folders (add_row note_key n ns)
unfolding add_row
add-AreFiled folders n [] h a = (h, tt)
add-AreFiled folders n (x ∷ ns) h (p, a) = (p, add-AreFiled folders n ns h a)

pub save-AreFiled :
    (folders : List NoteFolder) (n : Note) (ns : List Note)
    → is_filed folders n.case_id n.folder_id ≡ true
    → AreFiled folders ns
    → AreFiled folders (save_row note_key n ns)
unfolding save_row
save-AreFiled folders n [] h a = tt
save-AreFiled folders n (x ∷ ns) h (p, a) = elim (Bool-cases (x.id == n.id)) [
  | inl e ↦ rw e (h, save-AreFiled folders n ns h a)
  | inr e ↦ rw e (p, save-AreFiled folders n ns h a)
]

pub delete-AreFiled :
    (folders : List NoteFolder) (id : ℕ) (ns : List Note)
    → AreFiled folders ns
    → AreFiled folders (delete_row note_key id ns)
unfolding delete_row
delete-AreFiled folders id [] a = tt
delete-AreFiled folders id (x ∷ ns) (p, a) = elim (Bool-cases (x.id == id)) [
  | inl e ↦ rw e (delete-AreFiled folders id ns a)
  | inr e ↦ rw e (p, delete-AreFiled folders id ns a)
]

-- The rows that are left of the folders keep their cases.
abbrev map_option : (NoteFolder → NoteFolder) → Option NoteFolder → Option NoteFolder
map_option g none = none
map_option g (some f) = some (g f)

find_row-child_out :
    (k id : ℕ) (folders : List NoteFolder) {f : NoteFolder}
    → k ≢ id
    → find_row folder_key k folders ≡ some f
    → find_row folder_key k (map (child_out id) (delete_row folder_key id folders))
      ≡ some (child_out id f)
unfolding find_row delete_row
find_row-child_out k id [] {f} h e = ground arith
find_row-child_out k id (x ∷ folders) {f} h e = elim (Bool-cases (x.id == id)) [
  | inl d ↦ ground (arith, d, find_row-child_out k id folders {f = f} h)
  | inr d ↦ elim (Bool-cases (x.id == k)) [
    | inl q ↦
        let same : ◌≡◌ {A = Option NoteFolder} (some x) (some f) = ground (arith, q, e) in
        let same_out : ◌≡◌ {A = Option NoteFolder} (some (child_out id x)) (some (child_out id f)) =
          ap (map_option (child_out id)) same in
        ground (arith, d, q, same_out)
    | inr q ↦ ground (arith, d, q, find_row-child_out k id folders {f = f} h)
  ]
]

out-is_filed :
    (folders : List NoteFolder) (id case_id : ℕ) (o : Option ℕ)
    → is_filed folders case_id o ≡ true
    → is_filed (map (child_out id) (delete_row folder_key id folders)) case_id (without id o) ≡ true
out-is_filed folders id case_id none h = refl
out-is_filed folders id case_id (some k) h = elim (Bool-cases (k == id)) [
  | inl e ↦ rw e refl
  | inr e ↦ elim (Option-cases (find_row folder_key k folders)) [
    | inl f ↦ ground (arith, f, h)
    | inr (x, f) ↦
        let left = find_row-child_out k id folders (ground (arith, e)) f in
        ground (arith, e, f, h, left)
  ]
]

pub out-AreFiled :
    (folders : List NoteFolder) (id : ℕ) (ns : List Note)
    → AreFiled folders ns
    → AreFiled (map (child_out id) (delete_row folder_key id folders)) (map (note_out id) ns)
out-AreFiled folders id [] a = tt
out-AreFiled folders id (n ∷ ns) (p, a) =
    (out-is_filed folders id n.case_id n.folder_id p, out-AreFiled folders id ns a)

-- The note that a call leaves in the table, if it leaves one, is filed.
pub check_optional-filed :
    (case_id : ℕ) (o : Option ℕ) (s : Session)
    → ((check_optional case_id o s).1 ≡ s)
      × (((check_optional case_id o s).0 ≡ ok tt) × (is_filed s.folders case_id o ≡ true)
          ⊎ ((e : Error) × ((check_optional case_id o s).0 ≡ err e)))
unfolding check_folder get_folder_or_404
check_optional-filed case_id none s = (refl, inl (refl, refl))
check_optional-filed case_id (some k) s = elim (Option-cases (find_row folder_key k s.folders)) [
  | inl e ↦ (ground arith, inr (http 404, ground arith))
  | inr (f, e) ↦ elim (Bool-cases (f.case_id == case_id)) [
    | inl same ↦ (ground arith, inl (ground arith, ground arith))
    | inr other ↦ (ground arith, inr (http 400, ground arith))
  ]
]

abbrev IsFiledOption : List NoteFolder → Option Note → Type 0
IsFiledOption folders none = Unit {0}
IsFiledOption folders (some n) = is_filed folders n.case_id n.folder_id ≡ true

pub find-filed :
    (folders : List NoteFolder) (k : ℕ) (ns : List Note) {n : Note}
    → AreFiled folders ns
    → find_row note_key k ns ≡ some n
    → is_filed folders n.case_id n.folder_id ≡ true
unfolding find_row
find-filed folders k [] a e = ground arith
find-filed folders k (x ∷ ns) {n} (p, a) e = elim (Bool-cases (x.id == k)) [
  | inl q ↦
      let same : ◌≡◌ {A = Option Note} (some x) (some n) = ground (arith, q, e) in
      subst (λ o. IsFiledOption folders o) same p
  | inr q ↦ find-filed folders k ns {n = n} a (ground (arith, q, e))
]
