-- ===== src/Tests/Paging.antt =====
-- A list of five rows in pages of two.
use watari.Base.{All, List, [], arith, ℕ, ◌+◌, ◌∷◌, ◌≡◌}
use watari.Paging.Cover.{IsFilled, concat, list_page_covers, pages_from}
use watari.Paging.Pages.{build_pagination_meta, list_page}

abbrev rows : List ℕ
rows = 1 ∷ 2 ∷ 3 ∷ 4 ∷ 5 ∷ []

list_page_covers_example :
    (concat (pages_from 2 1 3 rows) ≡ rows)
    × All (IsFilled 2 rows) (pages_from 2 1 3 rows)
    × ((list_page (record { page = 3 + 1 + 0; page_size = 2 }) rows).0 ≡ [])
unfolding build_pagination_meta
list_page_covers_example = list_page_covers 2 rows 0 (omega arith)
