-- ===== src/Modules/Names.antt =====
-- The names of modules (backend/src/services/modules.py), which are unique in the table.
use watari.Base.{
  Bool-cases, List, Option-cases, String, [], ap, arith, at_most_one_cases, inl, inr, keep_if,
  keep_if-append, length, length-append, refl, str_eq_iff, subst, ℕ, ◌++◌, ◌+◌, ◌∙◌, ◌∷◌, ◌≡◌, ◌≤◌,
}
use watari.Exec.{Result, err, http, ok}
use watari.Modules.Service.{
  ModuleRegister, delete_module, get_module_or_404, has_name, new_module, register_module,
  was_executed,
}
use watari.Store.{Module, Session, module_key}
use watari.Table.{KeysBelow, add_row, delete_row, find-add_new, find_row}

abbrev pub HasUniqueModuleNames : List Module → Type 0
HasUniqueModuleNames ms = (name : String) → length (keep_if (has_name name) ms) ≤ 1

add-HasUniqueModuleNames :
    (m : Module) (ms : List Module)
    → keep_if (has_name m.name) ms ≡ []
    → HasUniqueModuleNames ms
    → HasUniqueModuleNames (add_row module_key m ms)
unfolding add_row
add-HasUniqueModuleNames m ms free names name =
    let size : length (keep_if (has_name name) (ms ++ m ∷ []))
        ≡ length (keep_if (has_name name) ms) + length (keep_if (has_name name) (m ∷ [])) =
      ap length (keep_if-append (has_name name) ms (m ∷ []))
      ∙ length-append (keep_if (has_name name) ms) (keep_if (has_name name) (m ∷ [])) in
    rw size (elim (Bool-cases (has_name name m)) [
      | inr differs ↦ rw differs (omega (arith, names name))
      | inl same ↦
          let empty : keep_if (has_name name) ms ≡ [] =
            subst (λ n. keep_if (has_name n) ms ≡ []) ((str_eq_iff m.name name).0 same) free in
          ground (arith, same, empty)
    ])

length-delete_row :
    (id : ℕ) (name : String) (ms : List Module)
    → length (keep_if (has_name name) (delete_row module_key id ms))
      ≤ length (keep_if (has_name name) ms)
unfolding delete_row
length-delete_row id name [] = omega arith
length-delete_row id name (m ∷ ms) = ground (arith, length-delete_row id name ms)

delete-HasUniqueModuleNames :
    (id : ℕ) (ms : List Module)
    → HasUniqueModuleNames ms
    → HasUniqueModuleNames (delete_row module_key id ms)
delete-HasUniqueModuleNames id ms names name =
    omega (arith, names name, length-delete_row id name ms)

-- What `register_module` answers, by the rows that have the name.
abbrev pub registration : List Module → ℕ → ModuleRegister → Result Module
registration [] id p = ok (new_module id p)
registration (m ∷ ms) id p = err (http 409)

-- If no two modules have the same name and the ids are below the next one, `register_module` is a 409
-- if the name is taken, and leaves the session as it was, and else the new row; and after it, and
-- after `delete_module`, no two modules have the same name.
pub register_module_result :
    (p : ModuleRegister) (s : Session)
    → HasUniqueModuleNames s.modules
    → KeysBelow module_key s.next_id s.modules
    → ((register_module p s).0 ≡ registration (keep_if (has_name p.name) s.modules) s.next_id p)
      × HasUniqueModuleNames (register_module p s).1.modules
      × ((id : ℕ) → HasUniqueModuleNames (delete_module id s).1.modules)
unfolding register_module delete_module get_module_or_404
register_module_result p s names below =
    elim (at_most_one_cases (keep_if (has_name p.name) s.modules) (names p.name)) [
      | inl free ↦ (
        ground (
          arith,
          free,
          find-add_new module_key s.next_id (new_module s.next_id p) s.modules below refl,
        ),
        subst HasUniqueModuleNames
            (ground (
              arith,
              free,
              find-add_new module_key s.next_id (new_module s.next_id p) s.modules below refl,
            ))
            (add-HasUniqueModuleNames (new_module s.next_id p) s.modules free names),
        deleted,
      )
      | inr (m, taken) ↦
          (ground (arith, taken), subst HasUniqueModuleNames (ground (arith, taken)) names, deleted)
    ]
  where
    deleted : (id : ℕ) → HasUniqueModuleNames (delete_module id s).1.modules
    deleted id = elim (Option-cases (find_row module_key id s.modules)) [
      | inl e ↦ subst HasUniqueModuleNames (ground (arith, e)) names
      | inr (m, e) ↦ elim (Bool-cases (was_executed m.id s.executions)) [
        | inl x ↦ subst HasUniqueModuleNames (ground (arith, e, x)) names
        | inr x ↦
            subst HasUniqueModuleNames (ground (arith, e, x))
              (delete-HasUniqueModuleNames m.id s.modules names)
      ]
    ]
