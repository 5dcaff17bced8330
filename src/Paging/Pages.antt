-- ===== src/Paging/Pages.antt =====
-- The paging of list endpoints (backend/src/schemas/common.py), and the query of a page as the services
-- write it: `.limit(limit).offset(offset)` beside `select(func.count())` (backend/src/services/*.py).
use watari.Base.{
  Bool, Option, none, some, opt_eq, true, List, drop, if◌then◌else◌, length, leb, take, ℕ, ◌*◌, ◌+◌,
  ◌-◌, ◌/◌,
}

pub record PaginationMeta : Type 0 where
  pub page : ℕ
  pub page_size : ℕ
  pub total_count : ℕ
  pub total_pages : ℕ

-- The validation bounds both below by 1, and `page_size` above by 200.
pub record PaginationParams : Type 0 where
  pub page : ℕ
  pub page_size : ℕ

abbrev pub offset : PaginationParams → ℕ
offset params = (params.page - 1) * params.page_size

unfoldable pub build_pagination_meta : ℕ → ℕ → ℕ → PaginationMeta
build_pagination_meta total_count page page_size = record {
  page = page;
  page_size = page_size;
  total_count = total_count;
  total_pages = if leb 1 page_size then (total_count + page_size - 1) / page_size else 0;
}

-- `if x: base = base.where(column == x)`
abbrev pub where_id : Option ℕ → Option ℕ → Bool
where_id none value = true
where_id (some id) value = opt_eq value (some id)

module _ {ℓ} {A : Type ℓ} where
  -- `.limit(limit).offset(offset)`
  abbrev pub select_rows : ℕ → ℕ → List A → List A
  select_rows limit start rows = take limit (drop start rows)

  -- The rows and the metadata that a list endpoint answers with.
  unfoldable pub list_page : PaginationParams → List A → List A × PaginationMeta
  unfolding build_pagination_meta
  list_page params rows = (
    select_rows params.page_size (offset params) rows,
    build_pagination_meta (length rows) params.page params.page_size,
  )
