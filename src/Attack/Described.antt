-- ===== src/Attack/Described.antt =====
-- What a cell of the heatmap says of the rows of its key (backend/src/services/attack.py).
use watari.Attack.Cells.{
  HasUniqueCells, cell_at, compute_heatmap_cells-HasUniqueCells, find_cell,
  find_cell-compute_heatmap_cells, gather, is_of,
}
use watari.Attack.Heatmap.{
  AttackHeatmapCell, HeatmapFilters, HeatmapRow, Key, add_to_cell, build_heatmap, cell_of,
  empty_data, query_heatmap,
}
use watari.Attack.Linked.{
  IsIncreasing, contains-gathered, contains-sorted_ids, gather-some, gathered, gathered-HasNoRepeat,
  length-sorted_ids, links_case, sorted_ids-IsIncreasing,
}
use watari.Attack.Severity.{KeepsTexts, severities-gathered, severity_leb}
use watari.Base.{
  List, Option, String, [], all, ap, contains, keep_if, length, none, refl, some, subst, sym, true,
  ℕ, ◌∙◌, ◌∷◌, ◌≡◌,
}
use watari.Store.{Session}

module _ (set_order : List String → List String) where
  -- What a cell says of the rows of its key: none, if there are none.
  abbrev pub Describes : Key → List HeatmapRow → Option AttackHeatmapCell → Type 0
  Describes k [] o = o ≡ none
  Describes k (r ∷ rs) o =
      (c : AttackHeatmapCell) × (o ≡ some c)
      × (c.key ≡ k)
      × IsIncreasing c.linked_case_ids
      × (c.case_count ≡ length c.linked_case_ids)
      × ((i : ℕ) → contains i c.linked_case_ids ≡ links_case i (r ∷ rs))
      × (all (λ (x : HeatmapRow). severity_leb x.severity c.max_severity) (r ∷ rs) ≡ true)

  cell_at-Describes :
      KeepsTexts set_order
      → (k : Key) (rows : List HeatmapRow)
      → Describes k rows (cell_at set_order k (gather rows none))
  cell_at-Describes keeps k [] = refl
  cell_at-Describes keeps k (r ∷ rs) =
      let d = gathered (r ∷ rs) empty_data in
      (
        cell_of set_order (k, d),
        ap (cell_at set_order k) (gather-some rs (add_to_cell r empty_data)),
        refl,
        sorted_ids-IsIncreasing d.case_ids (gathered-HasNoRepeat (r ∷ rs) empty_data tt),
        sym (length-sorted_ids d.case_ids),
        λ i. contains-sorted_ids i d.case_ids ∙ contains-gathered i (r ∷ rs) empty_data,
        severities-gathered set_order keeps (r ∷ rs) empty_data,
      )

-- If a set has the same elements in whichever order they come, the heatmap has one cell for each
-- tactic and technique that a mapping of the query has, and no other: its linked cases are those
-- of the mappings of that key, each once and in increasing order, their number is `case_count`,
-- and no severity of those mappings ranks above `max_severity`.
pub build_heatmap_lem :
    (tenant_id : ℕ) (f : HeatmapFilters) (s : Session) (k : Key)
    → KeepsTexts s.world.set_order
    → let cells = build_heatmap tenant_id f s in
      HasUniqueCells cells
      × Describes s.world.set_order k
          (keep_if (is_of k) (query_heatmap tenant_id f s))
          (find_cell k cells)
unfolding build_heatmap
build_heatmap_lem tenant_id f s k keeps =
    let rows = query_heatmap tenant_id f s in
    (
      compute_heatmap_cells-HasUniqueCells s.world.set_order rows,
      subst (Describes s.world.set_order k (keep_if (is_of k) rows))
          (sym (find_cell-compute_heatmap_cells s.world.set_order k rows))
          (cell_at-Describes s.world.set_order keeps k (keep_if (is_of k) rows)),
    )
