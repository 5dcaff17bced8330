-- ===== src/Paging/Cover.antt =====
-- The pages of a list hold its rows, each once (backend/src/schemas/common.py).
use watari.Base.{
  All, subst, length-take, if◌then◌else◌, leb, List, [], ap, arith, drop, length, refl, suc, sym,
  take, zero, ℕ, ◌*◌, ◌++◌, ◌+◌, ◌-◌, ◌/◌, ◌<◌, ◌∙◌, ◌∷◌, ◌≡◌, ◌≤◌,
}
use watari.Paging.Pages.{build_pagination_meta, list_page}
use native.Mathlib.Nat.{add-mul, div-mul-le_self, lt-div-mul-add}

suc_add : (m n : ℕ) → suc (m + n) ≡ suc m + n
suc_add m n = omega arith

module _ {ℓ} {A : Type ℓ} where
  abbrev pub concat : List (List A) → List A
  concat [] = []
  concat (xs ∷ xss) = xs ++ concat xss

  -- The rows of `count` pages from the page with the number `first` on.
  abbrev pub pages_from : ℕ → ℕ → ℕ → List A → List (List A)
  pages_from size first zero rows = []
  pages_from size first (suc count) rows =
      (list_page (record { page = first; page_size = size }) rows).0
      ∷ pages_from size (first + 1) count rows

  take_nil : (n : ℕ) → take {A = A} n [] ≡ []
  take_nil zero = refl
  take_nil (suc n) = refl

  take-drop : (n : ℕ) (xs : List A) → take n xs ++ drop n xs ≡ xs
  take-drop zero xs = refl
  take-drop (suc n) [] = refl
  take-drop (suc n) (x ∷ xs) = ap (λ ys. x ∷ ys) (take-drop n xs)

  drop_nil : (n : ℕ) → drop {A = A} n [] ≡ []
  drop_nil zero = refl
  drop_nil (suc n) = refl

  drop_add : (m n : ℕ) (xs : List A) → drop n (drop m xs) ≡ drop (m + n) xs
  drop_add zero n xs = ap (λ k. drop k xs) (omega arith)
  drop_add (suc m) n [] = drop_nil n ∙ sym (drop_nil (suc m + n))
  drop_add (suc m) n (x ∷ xs) = drop_add m n xs ∙ ap (λ k. drop k (x ∷ xs)) (suc_add m n)

  drop_all : (n : ℕ) (xs : List A) → length xs ≤ n → drop n xs ≡ []
  drop_all zero [] h = refl
  drop_all zero (x ∷ xs) h = absurd (omega (arith, h))
  drop_all (suc n) [] h = refl
  drop_all (suc n) (x ∷ xs) h = drop_all n xs (omega (arith, h))

  length-drop : (n : ℕ) (xs : List A) → length (drop n xs) ≡ length xs - n
  length-drop zero xs = omega arith
  length-drop (suc n) [] = omega arith
  length-drop (suc n) (x ∷ xs) = omega (arith, length-drop n xs)

  length-take_long : (n : ℕ) (xs : List A) → 1 ≤ n → 1 ≤ length xs → 1 ≤ length (take n xs)
  length-take_long (suc n) (x ∷ xs) h k = omega arith
  length-take_long zero xs h k = absurd (omega (arith, h))
  length-take_long (suc n) [] h k = absurd (omega (arith, k))

  module _ (size : ℕ) (rows : List A) where
    page_rows :
        (i : ℕ)
        → (list_page (record { page = i + 1; page_size = size }) rows).0
          ≡ take size (drop (i * size) rows)
    unfolding list_page
    page_rows i = ap (λ k. take size (drop (k * size) rows)) (omega arith)

    zero_times : 0 * size ≡ 0
    zero_times = omega arith

    next_offset : (i : ℕ) → (i + 1) * size ≡ i * size + size
    next_offset i = omega arith

    concat-pages_from :
        (i count : ℕ)
        → length rows ≤ i * size + count * size
        → concat (pages_from size (i + 1) count rows) ≡ drop (i * size) rows
    concat-pages_from i zero h = sym (drop_all (i * size) rows (omega (arith, h)))
    concat-pages_from i (suc count) h =
        ap (λ ys. ys ++ concat (pages_from size (i + 1 + 1) count rows)) (page_rows i)
        ∙ ap (λ ys. take size (drop (i * size) rows) ++ ys)
            (concat-pages_from (i + 1) count (omega (arith, h, next_offset i, next_offset count))
              ∙ ap (λ k. drop k rows) (next_offset i)
              ∙ sym (drop_add (i * size) size rows))
        ∙ take-drop size (drop (i * size) rows)

    -- A page that has rows, and no more of them than the page size.
    abbrev pub IsFilled : List A → Type 0
    IsFilled page = (1 ≤ length page) × (length page ≤ size)

    pages_from-IsFilled :
        (i count : ℕ)
        → 1 ≤ size
        → i * size + count * size < length rows + size
        → All IsFilled (pages_from size (i + 1) count rows)
    pages_from-IsFilled i zero pos h = tt
    pages_from-IsFilled i (suc count) pos h = (
      subst IsFilled (sym (page_rows i)) (
        length-take_long size (drop (i * size) rows) pos
            (omega (arith, h, next_offset count, length-drop (i * size) rows)),
        length-take size (drop (i * size) rows),
      ),
      pages_from-IsFilled (i + 1) count pos (omega (arith, h, next_offset i, next_offset count)),
    )

    -- `total_pages` is the number of pages that the rows need.
    total_pages_lem :
        1 ≤ size
        → let total = (build_pagination_meta (length rows) 1 size).total_pages in
          (length rows ≤ total * size) × (total * size < length rows + size)
    unfolding build_pagination_meta
    total_pages_lem pos =
        let q = (length rows + size - 1) / size in
        let total : (if leb 1 size then q else 0) ≡ q = ground (arith, pos) in
        subst (λ t. (length rows ≤ t * size) × (t * size < length rows + size)) (sym total)
          (
            omega (arith, pos, lt-div-mul-add {a = length rows + size - 1} {b = size} pos),
            omega (arith, pos, div-mul-le_self (length rows + size - 1) size),
          )

    -- If the page size is at least 1, the pages from the first to the `total_pages` of the
    -- metadata are together the rows in their order; each has a row at least and `page_size` rows
    -- at most; and every page after them is empty.
    pub list_page_covers :
        (beyond : ℕ)
        → 1 ≤ size
        → let total = (build_pagination_meta (length rows) 1 size).total_pages in
          (concat (pages_from size 1 total rows) ≡ rows)
          × All IsFilled (pages_from size 1 total rows)
          × ((list_page (record { page = total + 1 + beyond; page_size = size }) rows).0 ≡ [])
    list_page_covers beyond pos =
        let total = (build_pagination_meta (length rows) 1 size).total_pages in
        let (enough, needed) = total_pages_lem pos in
        (
          concat-pages_from 0 total (omega (arith, enough)) ∙ ap (λ k. drop k rows) zero_times,
          pages_from-IsFilled 0 total pos (omega (arith, needed)),
          subst (λ n. (list_page (record { page = n; page_size = size }) rows).0 ≡ []) (omega arith)
              (page_rows (total + beyond)
                ∙ ap (take size) (
                    drop_all ((total + beyond) * size) rows
                      (omega (arith, enough, add-mul total beyond size)))
                ∙ take_nil size),
        )
