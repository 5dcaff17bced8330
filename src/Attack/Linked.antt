-- ===== src/Attack/Linked.antt =====
-- The linked cases of a cell of the heatmap (backend/src/services/attack.py).
use watari.Attack.Cells.{gather}
use watari.Attack.Heatmap.{CellData, HeatmapRow, add_case_id, add_to_cell, insert_id, sorted_ids}
use watari.Base.{
  ==_iff, Bool, Bool-cases, List, Option, [], any, ap, arith, contains, false, inl, inr, length,
  none, opt_eq, refl, some, subst, suc, sym, true, ℕ, ◌++◌, ◌<◌, ◌==◌, ◌||◌, ◌∙◌, ◌∷◌, ◌≡◌,
}

-- Each number is greater than the one before.
abbrev pub IsIncreasing : List ℕ → Type 0
IsIncreasing [] = Unit {0}
IsIncreasing (x ∷ []) = Unit {0}
IsIncreasing (x ∷ y ∷ ys) = (x < y) × IsIncreasing (y ∷ ys)

abbrev HasNoRepeat : List ℕ → Type 0
HasNoRepeat [] = Unit {0}
HasNoRepeat (x ∷ xs) = (contains x xs ≡ false) × HasNoRepeat xs

pub or_assoc : (a b c : Bool) → (a || (b || c)) ≡ ((a || b) || c)
or_assoc true b c = refl
or_assoc false b c = refl

contains-insert_id :
    (i x : ℕ) (xs : List ℕ) → contains i (insert_id x xs) ≡ (x == i || contains i xs)
unfolding insert_id
contains-insert_id i x [] = refl
contains-insert_id i x (y ∷ ys) = ground (arith, contains-insert_id i x ys)

pub contains-sorted_ids : (i : ℕ) (xs : List ℕ) → contains i (sorted_ids xs) ≡ contains i xs
unfolding sorted_ids
contains-sorted_ids i [] = refl
contains-sorted_ids i (x ∷ xs) =
    contains-insert_id i x (sorted_ids xs) ∙ ap (λ b. x == i || b) (contains-sorted_ids i xs)

length-insert_id : (x : ℕ) (xs : List ℕ) → length (insert_id x xs) ≡ suc (length xs)
unfolding insert_id
length-insert_id x [] = refl
length-insert_id x (y ∷ ys) = ground (arith, length-insert_id x ys)

pub length-sorted_ids : (xs : List ℕ) → length (sorted_ids xs) ≡ length xs
unfolding sorted_ids
length-sorted_ids [] = refl
length-sorted_ids (x ∷ xs) = length-insert_id x (sorted_ids xs) ∙ ap suc (length-sorted_ids xs)

insert_id-IsIncreasing :
    (x : ℕ) (xs : List ℕ) → contains x xs ≡ false → IsIncreasing xs → IsIncreasing (insert_id x xs)
unfolding insert_id
insert_id-IsIncreasing x [] h i = tt
insert_id-IsIncreasing x (y ∷ []) h i = ground arith
insert_id-IsIncreasing x (y ∷ z ∷ zs) h (p, i) =
    let later = insert_id-IsIncreasing x (z ∷ zs) (ground (arith, h)) i in ground arith

pub sorted_ids-IsIncreasing : (xs : List ℕ) → HasNoRepeat xs → IsIncreasing (sorted_ids xs)
unfolding sorted_ids
sorted_ids-IsIncreasing [] h = tt
sorted_ids-IsIncreasing (x ∷ xs) (p, h) =
    insert_id-IsIncreasing x (sorted_ids xs) (contains-sorted_ids x xs ∙ p)
      (sorted_ids-IsIncreasing xs h)

contains-append : (i x : ℕ) (xs : List ℕ) → contains i (xs ++ x ∷ []) ≡ (contains i xs || x == i)
contains-append i x [] = ground arith
contains-append i x (y ∷ ys) = ground (arith, contains-append i x ys)

append-HasNoRepeat :
    (x : ℕ) (xs : List ℕ) → contains x xs ≡ false → HasNoRepeat xs → HasNoRepeat (xs ++ x ∷ [])
append-HasNoRepeat x [] h r = (refl, tt)
append-HasNoRepeat x (y ∷ ys) h (p, r) =
    (ground (arith, h, p, contains-append y x ys), append-HasNoRepeat x ys (ground (arith, h)) r)

contains-add_case_id :
    (i : ℕ) (c : Option ℕ) (ids : List ℕ)
    → contains i (add_case_id c ids) ≡ (contains i ids || opt_eq c (some i))
contains-add_case_id i none ids = ground arith
contains-add_case_id i (some c) ids = elim (Bool-cases (contains c ids)) [
  | inl e ↦ elim (Bool-cases (c == i)) [
    | inl f ↦
        let here : contains i ids ≡ true =
          subst (λ j. contains j ids ≡ true) ((==_iff c i).0 f) e in
        rw e (ground (arith, f, here))
    | inr f ↦ rw e (ground (arith, f))
  ]
  | inr e ↦ rw e (contains-append i c ids)
]

add_case_id-HasNoRepeat :
    (c : Option ℕ) (ids : List ℕ) → HasNoRepeat ids → HasNoRepeat (add_case_id c ids)
add_case_id-HasNoRepeat none ids r = r
add_case_id-HasNoRepeat (some c) ids r = elim (Bool-cases (contains c ids)) [
  | inl e ↦ rw e r
  | inr e ↦ rw e (append-HasNoRepeat c ids e r)
]

-- The sets after the rows.
abbrev pub gathered : List HeatmapRow → CellData → CellData
gathered [] d = d
gathered (r ∷ rs) d = gathered rs (add_to_cell r d)

pub gather-some : (rs : List HeatmapRow) (d : CellData) → gather rs (some d) ≡ some (gathered rs d)
gather-some [] d = refl
gather-some (r ∷ rs) d = gather-some rs (add_to_cell r d)

-- Some row has the case.
abbrev pub links_case : ℕ → List HeatmapRow → Bool
links_case i = any (λ (r : HeatmapRow). opt_eq r.case_id (some i))

pub contains-gathered :
    (i : ℕ) (rs : List HeatmapRow) (d : CellData)
    → contains i (gathered rs d).case_ids ≡ (contains i d.case_ids || links_case i rs)
contains-gathered i [] d = ground arith
contains-gathered i (r ∷ rs) d =
    contains-gathered i rs (add_to_cell r d)
    ∙ ap (λ b. b || links_case i rs) (contains-add_case_id i r.case_id d.case_ids)
    ∙ sym (or_assoc (contains i d.case_ids) (opt_eq r.case_id (some i)) (links_case i rs))

pub gathered-HasNoRepeat :
    (rs : List HeatmapRow) (d : CellData)
    → HasNoRepeat d.case_ids
    → HasNoRepeat (gathered rs d).case_ids
gathered-HasNoRepeat [] d h = h
gathered-HasNoRepeat (r ∷ rs) d h =
    gathered-HasNoRepeat rs (add_to_cell r d) (add_case_id-HasNoRepeat r.case_id d.case_ids h)
