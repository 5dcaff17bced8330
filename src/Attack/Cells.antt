-- ===== src/Attack/Cells.antt =====
-- The cells of the heatmap (backend/src/services/attack.py): one for each tactic and technique.
use watari.Attack.Heatmap.{
  AttackHeatmapCell, CellData, Cells, HeatmapRow, Key, add_heatmap_row, add_to_cell, aggregate,
  cell_of, compute_heatmap_cells, empty_data, insert_cell, key_eq, key_leb, sorted_cells,
}
use watari.Base.{
  Bool, Bool-cases, List, Option, String, [], ap, arith, false, if◌then◌else◌, inl, inr, keep_if,
  map, none, refl, some, str_eq_iff, sym, true, ◌↔◌, ◌∙◌, ◌∷◌, ◌≡◌,
}

-- The cell of a tactic and a technique.
abbrev pub find_cell : Key → List AttackHeatmapCell → Option AttackHeatmapCell
find_cell k [] = none
find_cell k (c ∷ cs) = if key_eq c.key k then some c else find_cell k cs

abbrev pub lookup : Key → Cells → Option CellData
lookup k [] = none
lookup k ((k', d) ∷ cells) = if key_eq k' k then some d else lookup k cells

abbrev or_empty_data : Option CellData → CellData
or_empty_data none = empty_data
or_empty_data (some d) = d

-- The rows of a cell, one after the other.
abbrev pub gather : List HeatmapRow → Option CellData → Option CellData
gather [] o = o
gather (r ∷ rs) o = gather rs (some (add_to_cell r (or_empty_data o)))

abbrev pub is_of : Key → HeatmapRow → Bool
is_of k r = key_eq r.key k

abbrev pub HasUniqueCells : List AttackHeatmapCell → Type 0
HasUniqueCells [] = Unit {0}
HasUniqueCells (c ∷ cs) = (find_cell c.key cs ≡ none) × HasUniqueCells cs

abbrev HasUniqueData : Cells → Type 0
HasUniqueData [] = Unit {0}
HasUniqueData ((k, d) ∷ cells) = (lookup k cells ≡ none) × HasUniqueData cells

key_eq_iff : (a b : Key) → (key_eq a b ≡ true) ↔ (a ≡ b)
key_eq_iff (a, b) (a', b') = (
  λ h. grind (arith, str_eq_iff a a', str_eq_iff b b'),
  λ h. grind (arith, str_eq_iff a a', str_eq_iff b b'),
)

key_eq_refl : (k : Key) → key_eq k k ≡ true
key_eq_refl k = (key_eq_iff k k).1 refl

other_key : (k k' k'' : Key) → key_eq k' k ≡ true → key_eq k' k'' ≡ false → key_eq k'' k ≡ false
other_key k k' k'' e f = elim (Bool-cases (key_eq k'' k)) [
  | inr h ↦ h
  | inl h ↦
      let same : k' ≡ k'' = (key_eq_iff k' k).0 e ∙ sym ((key_eq_iff k'' k).0 h) in
      absurd (ground (arith, f, (key_eq_iff k' k'').1 same))
]

lookup-add_heatmap_row :
    (k : Key) (r : HeatmapRow) (cells : Cells)
    → lookup k (add_heatmap_row r cells) ≡ (
        if is_of k r then some (add_to_cell r (or_empty_data (lookup k cells))) else lookup k cells)
unfolding add_heatmap_row
lookup-add_heatmap_row k r [] = refl
lookup-add_heatmap_row k r ((k', d) ∷ cells) = elim (Bool-cases (key_eq k' r.key)) [
  | inl e ↦
      let same : key_eq k' k ≡ key_eq r.key k = ap (λ x. key_eq x k) ((key_eq_iff k' r.key).0 e) in
      ground (arith, e, same)
  | inr e ↦ elim (Bool-cases (key_eq k' k)) [
    | inl f ↦ ground (arith, e, f, other_key k k' r.key f e)
    | inr f ↦ ground (arith, e, f, lookup-add_heatmap_row k r cells)
  ]
]

lookup-aggregate :
    (k : Key) (rows : List HeatmapRow) (cells : Cells)
    → lookup k (aggregate rows cells) ≡ gather (keep_if (is_of k) rows) (lookup k cells)
unfolding aggregate
lookup-aggregate k [] cells = refl
lookup-aggregate k (r ∷ rows) cells = elim (Bool-cases (is_of k r)) [
  | inl e ↦ rw e (
      lookup-aggregate k rows (add_heatmap_row r cells)
      ∙ ap (gather (keep_if (is_of k) rows)) (lookup-add_heatmap_row k r cells ∙ rw e refl))
  | inr e ↦ rw e (
      lookup-aggregate k rows (add_heatmap_row r cells)
      ∙ ap (gather (keep_if (is_of k) rows)) (lookup-add_heatmap_row k r cells ∙ rw e refl))
]

add_heatmap_row-HasUniqueData :
    (r : HeatmapRow) (cells : Cells) → HasUniqueData cells → HasUniqueData (add_heatmap_row r cells)
unfolding add_heatmap_row
add_heatmap_row-HasUniqueData r [] h = (refl, tt)
add_heatmap_row-HasUniqueData r ((k, d) ∷ cells) (p, h) = elim (Bool-cases (key_eq k r.key)) [
  | inl e ↦ rw e (p, h)
  | inr e ↦
      let off : key_eq r.key k ≡ false = other_key k k r.key (key_eq_refl k) e in
      rw e (lookup-add_heatmap_row k r cells ∙ rw off p, add_heatmap_row-HasUniqueData r cells h)
]

aggregate-HasUniqueData :
    (rows : List HeatmapRow) (cells : Cells)
    → HasUniqueData cells
    → HasUniqueData (aggregate rows cells)
unfolding aggregate
aggregate-HasUniqueData [] cells h = h
aggregate-HasUniqueData (r ∷ rows) cells h =
    aggregate-HasUniqueData rows (add_heatmap_row r cells) (add_heatmap_row-HasUniqueData r cells h)

-- Sorting cells that have each key once leaves the cell of a key as it is.
find_cell-insert_cell :
    (k : Key) (c : AttackHeatmapCell) (cs : List AttackHeatmapCell)
    → find_cell c.key cs ≡ none
    → find_cell k (insert_cell c cs) ≡ (if key_eq c.key k then some c else find_cell k cs)
unfolding insert_cell
find_cell-insert_cell k c [] h = refl
find_cell-insert_cell k c (x ∷ xs) h = elim (Bool-cases (key_eq x.key c.key)) [
  | inl e ↦ absurd (ground (arith, h, e))
  | inr e ↦
      let later : find_cell c.key xs ≡ none = ground (arith, h, e) in
      elim (Bool-cases (key_eq x.key k)) [
        | inl f ↦ ground (arith, f, other_key k x.key c.key f e, find_cell-insert_cell k c xs later)
        | inr f ↦ ground (arith, f, find_cell-insert_cell k c xs later)
      ]
]

insert_cell-HasUniqueCells :
    (c : AttackHeatmapCell) (cs : List AttackHeatmapCell)
    → find_cell c.key cs ≡ none
    → HasUniqueCells cs
    → HasUniqueCells (insert_cell c cs)
unfolding insert_cell
insert_cell-HasUniqueCells c [] h u = (refl, tt)
insert_cell-HasUniqueCells c (x ∷ xs) h (p, u) = elim (Bool-cases (key_leb c.key x.key)) [
  | inl l ↦ rw l (h, (p, u))
  | inr l ↦ elim (Bool-cases (key_eq x.key c.key)) [
    | inl e ↦ absurd (ground (arith, h, e))
    | inr e ↦
        let later : find_cell c.key xs ≡ none = ground (arith, h, e) in
        let off = other_key x.key x.key c.key (key_eq_refl x.key) e in
        rw l (
          find_cell-insert_cell x.key c xs later ∙ rw off p,
          insert_cell-HasUniqueCells c xs later u,
        )
  ]
]

find_cell-sorted_cells :
    (k : Key) (cs : List AttackHeatmapCell)
    → HasUniqueCells cs
    → find_cell k (sorted_cells cs) ≡ find_cell k cs
unfolding sorted_cells
find_cell-sorted_cells k [] u = refl
find_cell-sorted_cells k (c ∷ cs) (p, u) =
    find_cell-insert_cell k c (sorted_cells cs) (find_cell-sorted_cells c.key cs u ∙ p)
    ∙ ap (λ o. if key_eq c.key k then some c else o) (find_cell-sorted_cells k cs u)

sorted_cells-HasUniqueCells :
    (cs : List AttackHeatmapCell) → HasUniqueCells cs → HasUniqueCells (sorted_cells cs)
unfolding sorted_cells
sorted_cells-HasUniqueCells [] u = tt
sorted_cells-HasUniqueCells (c ∷ cs) (p, u) =
    insert_cell-HasUniqueCells c (sorted_cells cs) (find_cell-sorted_cells c.key cs u ∙ p)
      (sorted_cells-HasUniqueCells cs u)

module _ (set_order : List String → List String) where
  abbrev pub cell_at : Key → Option CellData → Option AttackHeatmapCell
  cell_at k none = none
  cell_at k (some d) = some (cell_of set_order (k, d))

  find_cell-map :
      (k : Key) (cells : Cells)
      → find_cell k (map (cell_of set_order) cells) ≡ cell_at k (lookup k cells)
  find_cell-map k [] = refl
  find_cell-map k ((k', d) ∷ cells) = elim (Bool-cases (key_eq k' k)) [
    | inl e ↦ rw e (ap (λ x. some (cell_of set_order (x, d))) ((key_eq_iff k' k).0 e))
    | inr e ↦ rw e (find_cell-map k cells)
  ]

  map-HasUniqueCells :
      (cells : Cells) → HasUniqueData cells → HasUniqueCells (map (cell_of set_order) cells)
  map-HasUniqueCells [] u = tt
  map-HasUniqueCells ((k, d) ∷ cells) (p, u) =
      (find_cell-map k cells ∙ ap (cell_at k) p, map-HasUniqueCells cells u)

  -- There is one cell for each key of the rows, and it is made of the rows of that key.
  pub find_cell-compute_heatmap_cells :
      (k : Key) (rows : List HeatmapRow)
      → find_cell k (compute_heatmap_cells set_order rows)
        ≡ cell_at k (gather (keep_if (is_of k) rows) none)
  unfolding compute_heatmap_cells
  find_cell-compute_heatmap_cells k rows =
      find_cell-sorted_cells k (map (cell_of set_order) (aggregate rows []))
        (map-HasUniqueCells (aggregate rows []) (aggregate-HasUniqueData rows [] tt))
      ∙ find_cell-map k (aggregate rows [])
      ∙ ap (cell_at k) (lookup-aggregate k rows [])

  pub compute_heatmap_cells-HasUniqueCells :
      (rows : List HeatmapRow) → HasUniqueCells (compute_heatmap_cells set_order rows)
  unfolding compute_heatmap_cells
  compute_heatmap_cells-HasUniqueCells rows =
      sorted_cells-HasUniqueCells (map (cell_of set_order) (aggregate rows []))
        (map-HasUniqueCells (aggregate rows []) (aggregate-HasUniqueData rows [] tt))
