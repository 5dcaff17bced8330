-- ===== src/Notes/Climbing.antt =====
-- The way up from a folder, and the loop of `_would_create_cycle` (backend/src/services/notes.py).
use watari.Base.{
  Bool, Bool-cases, List, Option, Option-cases, [], ap, arith, contains, false, inl, inr, keep_if,
  length, none, not, refl, some, subst, suc, sym, true, zero, ℕ, ◌<◌, ◌==◌, ◌∙◌, ◌∷◌, ◌≡◌, ◌≢◌, ◌≤◌,
}
use watari.Notes.Folders.{parent_of, select_parent, walk, would_create_cycle}
use watari.Store.{NoteFolder, folder_key}
use watari.Table.{find_row}

-- The folder `n` steps above, where `parent` gives the parent of an id.
abbrev pub climb : (ℕ → Option ℕ) → ℕ → Option ℕ → Option ℕ
climb parent zero c = c
climb parent (suc n) none = none
climb parent (suc n) (some k) = climb parent n (parent k)

-- The way up from every folder ends.
abbrev pub HasRoots : List NoteFolder → Type 0
HasRoots folders = (k : ℕ) → (n : ℕ) × (climb (select_parent folders) n (some k) ≡ none)

pub climb-none : (parent : ℕ → Option ℕ) (n : ℕ) → climb parent n none ≡ none
climb-none parent zero = refl
climb-none parent (suc n) = refl

-- The parent of an id, if there is an id.
abbrev above : (ℕ → Option ℕ) → Option ℕ → Option ℕ
above parent none = none
above parent (some k) = parent k

climb_succ :
    (parent : ℕ → Option ℕ) (m : ℕ) (c : Option ℕ)
    → climb parent (suc m) c ≡ above parent (climb parent m c)
climb_succ parent zero none = refl
climb_succ parent zero (some k) = refl
climb_succ parent (suc m) none = refl
climb_succ parent (suc m) (some k) = climb_succ parent m (parent k)

-- A way up that ends does not come back.
pub climb_never_returns :
    (parent : ℕ → Option ℕ) (n m k : ℕ)
    → climb parent n (some k) ≡ none
    → climb parent m (parent k) ≢ some k
climb_never_returns parent zero m k e h = cc
climb_never_returns parent (suc n) m k e h = elim (Option-cases (parent k)) [
  | inl q ↦
      let top = climb-none parent m in
      let back : climb parent m none ≡ some k = subst (λ c. climb parent m c ≡ some k) q h in cc
  | inr (j, q) ↦ climb_never_returns parent n m j (subst (λ c. climb parent n c ≡ none) q e) (
      climb_succ parent m (some j)
      ∙ ap (above parent) (subst (λ c. climb parent m c ≡ some k) q h)
      ∙ q)
]

module _ (parent next : ℕ → Option ℕ) (j : ℕ) (same : (k : ℕ) → k ≢ j → next k ≡ parent k) where
  -- A way up that never meets `j` is the same when the parent of `j` changes.
  climb_avoiding :
      (n : ℕ) (c : Option ℕ)
      → ((m : ℕ) → climb parent m c ≢ some j)
      → climb next n c ≡ climb parent n c
  climb_avoiding zero c avoids = refl
  climb_avoiding (suc n) none avoids = refl
  climb_avoiding (suc n) (some k) avoids =
      ap (climb next n) (same k (λ e. avoids 0 (ap some e)))
      ∙ climb_avoiding n (parent k) (λ m. avoids (suc m))

  -- If the way up from the new parent of `j` ends and never meets `j`, every way up still ends.
  pub climb_ends :
      (r : ℕ)
      → ((m : ℕ) → climb parent m (next j) ≢ some j)
      → climb parent r (next j) ≡ none
      → (n : ℕ) (c : Option ℕ) → climb parent n c ≡ none
      → (m : ℕ) × (climb next m c ≡ none)
  climb_ends r avoids ends n none e = (0, refl)
  climb_ends r avoids ends zero (some k) e = cc
  climb_ends r avoids ends (suc n) (some k) e = elim (Bool-cases (k == j)) [
    | inl h ↦
        let here : k ≡ j = ground arith in
        (suc r, ap (λ x. climb next r (next x)) here ∙ climb_avoiding r (next j) avoids ∙ ends)
    | inr h ↦
        let other_row : k ≢ j = ground arith in
        let (m, q) = climb_ends r avoids ends n (parent k) e in
        (suc m, ap (climb next m) (same k other_row) ∙ q)
  ]

-- The loop answers that there is no cycle only if the way up never meets the folder.
walk_avoids :
    (folders : List NoteFolder) (j fuel : ℕ) (visited : List ℕ) (c : Option ℕ)
    → walk folders j fuel visited c ≡ some false
    → (n : ℕ) → climb (select_parent folders) n c ≢ some j
unfolding walk
walk_avoids folders j fuel visited none h n e = let top = climb-none (select_parent folders) n in cc
walk_avoids folders j zero visited (some k) h n e = cc
walk_avoids folders j (suc fuel) visited (some k) h zero e = ground arith
walk_avoids folders j (suc fuel) visited (some k) h (suc n) e =
    walk_avoids folders j fuel (k ∷ visited) (select_parent folders k) (ground arith) n e

-- The folders that the loop has not visited.
abbrev unvisited : List NoteFolder → List ℕ → ℕ
unvisited folders visited =
    length (keep_if (λ (f : NoteFolder). not (contains f.id visited)) folders)

unvisited_le :
    (folders : List NoteFolder) (visited : List ℕ) (k : ℕ)
    → unvisited folders (k ∷ visited) ≤ unvisited folders visited
unvisited_le [] visited k = omega arith
unvisited_le (f ∷ folders) visited k = ground (arith, unvisited_le folders visited k)

unvisited_lt :
    (folders : List NoteFolder) (visited : List ℕ) (k : ℕ) (row : NoteFolder)
    → find_row folder_key k folders ≡ some row
    → contains k visited ≡ false
    → unvisited folders (k ∷ visited) < unvisited folders visited
unfolding find_row
unvisited_lt [] visited k row h fresh = cc
unvisited_lt (f ∷ folders) visited k row h fresh = elim (Bool-cases (f.id == k)) [
  | inl e ↦
      let here : f.id ≡ k = ground arith in
      let counted : contains f.id visited ≡ false = rw here fresh in
      ground (arith, counted, unvisited_le folders visited k)
  | inr e ↦ ground (arith, unvisited_lt folders visited k row)
]

select_parent-none :
    (folders : List NoteFolder) (k : ℕ)
    → find_row folder_key k folders ≡ none
    → select_parent folders k ≡ none
unfolding select_parent
select_parent-none folders k e = ap parent_of e

-- With more fuel than there are folders to visit, the loop gives an answer.
walk_total :
    (folders : List NoteFolder) (j fuel : ℕ) (visited : List ℕ) (c : Option ℕ)
    → unvisited folders visited < fuel
    → (b : Bool) × (walk folders j fuel visited c ≡ some b)
unfolding walk
walk_total folders j fuel visited none h = (false, refl)
walk_total folders j zero visited (some k) h = (false, ground (arith, h))
walk_total folders j (suc fuel) visited (some k) h = elim (Bool-cases (k == j)) [
  | inl e ↦ (true, ground arith)
  | inr e ↦ elim (Bool-cases (contains k visited)) [
    | inl e' ↦ (true, ground arith)
    | inr fresh ↦
        let (b, q) = rest fresh (λ c lt. walk_total folders j fuel (k ∷ visited) c lt) in
        (b, ground (arith, q))
  ]
]
  where
    rest :
        contains k visited ≡ false
        → ((c : Option ℕ)
            → unvisited folders (k ∷ visited) < fuel
            → (b : Bool) × (walk folders j fuel (k ∷ visited) c ≡ some b))
        → (b : Bool) × (walk folders j fuel (k ∷ visited) (select_parent folders k) ≡ some b)
    rest fresh again = elim (Option-cases (find_row folder_key k folders)) [
      | inl e ↦
          subst (λ c. (b : Bool) × (walk folders j fuel (k ∷ visited) c ≡ some b))
            (sym (select_parent-none folders k e)) (false, refl)
      | inr (row, e) ↦
          again (select_parent folders k)
            (omega (arith, unvisited_lt folders visited k row e fresh, h))
    ]

unvisited_all : (folders : List NoteFolder) → unvisited folders [] ≡ length folders
unvisited_all [] = refl
unvisited_all (f ∷ folders) = ground (arith, unvisited_all folders)

-- The loop of `_would_create_cycle` gives an answer within one round for each folder and one more,
-- for every table, also one that has a cycle already; and if the answer is that there is no cycle,
-- the way up from the new parent never meets the folder.
pub would_create_cycle_lem :
    (folders : List NoteFolder) (j p : ℕ)
    → (b : Bool) × (would_create_cycle folders j p ≡ some b)
      × ((b ≡ false) → (n : ℕ) → climb (select_parent folders) n (some p) ≢ some j)
unfolding would_create_cycle
would_create_cycle_lem folders j p = elim (Bool-cases (j == p)) [
  | inl e ↦ (true, ground arith, λ h. cc)
  | inr e ↦
      let (b, q) =
        walk_total folders j (suc (length folders)) [] (some p)
          (omega (arith, unvisited_all folders)) in
      (
        b,
        ground (arith, q),
        λ h. walk_avoids folders j (suc (length folders)) [] (some p) (q ∙ ap some h),
      )
]
