-- ===== src/Table.antt =====
-- A database table as the list of its rows in the order of insertion, and the queries by which the
-- services read and write one: `select(T).where(T.id == k)`, `db.add`, `db.flush` of a changed row,
-- `db.delete`. `key` is the primary key of a row.
use watari.Base.{
  ℕ, ◌+◌, ◌≡◌, ◌≢◌, ◌<◌, refl, Option, none, some, List, [], ◌∷◌, ◌++◌, arith, ◌==◌, if◌then◌else◌,
  All,
}

module _ {ℓ} {A : Type ℓ} (key : A → ℕ) where
  -- The row with the key `k`.
  unfoldable pub find_row : ℕ → List A → Option A
  find_row k [] = none
  find_row k (x ∷ xs) = if key x == k then some x else find_row k xs

  -- Writes the row `r` over the row that has its key.
  unfoldable pub save_row : A → List A → List A
  save_row r [] = []
  save_row r (x ∷ xs) = (if key x == key r then r else x) ∷ save_row r xs

  -- Assigns to the attributes of the row with the key `k`.
  unfoldable pub update_row : ℕ → (A → A) → List A → List A
  update_row k f [] = []
  update_row k f (x ∷ xs) = (if key x == k then f x else x) ∷ update_row k f xs

  unfoldable pub delete_row : ℕ → List A → List A
  delete_row k [] = []
  delete_row k (x ∷ xs) = if key x == k then delete_row k xs else x ∷ delete_row k xs

  unfoldable pub add_row : A → List A → List A
  add_row r xs = xs ++ r ∷ []

  -- Every key is below `n`: a new row may have the key `n`.
  abbrev pub KeysBelow : ℕ → List A → Type 0
  KeysBelow n = All (λ x. key x < n)

  pub find-save_self :
      (r : A) (xs : List A) {old : A}
      → find_row (key r) xs ≡ some old
      → find_row (key r) (save_row r xs) ≡ some r
  unfolding find_row save_row
  find-save_self r [] h = ground arith
  find-save_self r (x ∷ xs) {old} h = ground (arith, find-save_self r xs {old = old})

  pub find-save_ne :
      (k : ℕ) (r : A) (xs : List A) → key r ≢ k → find_row k (save_row r xs) ≡ find_row k xs
  unfolding find_row save_row
  find-save_ne k r [] h = refl
  find-save_ne k r (x ∷ xs) h = ground (arith, find-save_ne k r xs h)

  pub find-update_self :
      (k : ℕ) (f : A → A) (xs : List A) {x : A}
      → ((y : A) → key (f y) ≡ key y)
      → find_row k xs ≡ some x
      → find_row k (update_row k f xs) ≡ some (f x)
  unfolding find_row update_row
  find-update_self k f [] same h = ground arith
  find-update_self k f (y ∷ xs) {x} same h =
      ground (arith, same y, find-update_self k f xs {x = x} same)

  pub find-update_ne :
      (j k : ℕ) (f : A → A) (xs : List A)
      → ((y : A) → key (f y) ≡ key y)
      → j ≢ k
      → find_row j (update_row k f xs) ≡ find_row j xs
  unfolding find_row update_row
  find-update_ne j k f [] same h = refl
  find-update_ne j k f (y ∷ xs) same h = ground (arith, same y, find-update_ne j k f xs same h)

  pub find-delete_self : (k : ℕ) (xs : List A) → find_row k (delete_row k xs) ≡ none
  unfolding find_row delete_row
  find-delete_self k [] = refl
  find-delete_self k (x ∷ xs) = ground (arith, find-delete_self k xs)

  pub find-delete_ne :
      (j k : ℕ) (xs : List A) → j ≢ k → find_row j (delete_row k xs) ≡ find_row j xs
  unfolding find_row delete_row
  find-delete_ne j k [] h = refl
  find-delete_ne j k (x ∷ xs) h = ground (arith, find-delete_ne j k xs h)

  -- The key of the row that is found is the one asked for.
  pub key-find : (k : ℕ) (xs : List A) {x : A} → find_row k xs ≡ some x → key x ≡ k
  unfolding find_row
  key-find k [] h = ground arith
  key-find k (y ∷ xs) {x} h = ground (arith, key-find k xs {x = x})

  pub find-add_old :
      (k : ℕ) (r : A) (xs : List A) {x : A}
      → find_row k xs ≡ some x
      → find_row k (add_row r xs) ≡ some x
  unfolding find_row add_row
  find-add_old k r [] h = ground arith
  find-add_old k r (y ∷ xs) {x} h = ground (arith, find-add_old k r xs {x = x})

  pub find-add_ne :
      (k : ℕ) (r : A) (xs : List A) → key r ≢ k → find_row k (add_row r xs) ≡ find_row k xs
  unfolding find_row add_row
  find-add_ne k r [] h = ground arith
  find-add_ne k r (y ∷ xs) h = ground (arith, find-add_ne k r xs h)

  -- A row whose key is new is found after it has been added.
  pub find-add_new :
      (n : ℕ) (r : A) (xs : List A)
      → KeysBelow n xs
      → key r ≡ n
      → find_row n (add_row r xs) ≡ some r
  unfolding find_row add_row
  find-add_new n r [] h e = ground arith
  find-add_new n r (y ∷ xs) (p, h) e = ground (arith, find-add_new n r xs h e)

  pub find-lt : (k n : ℕ) (xs : List A) {x : A} → KeysBelow n xs → find_row k xs ≡ some x → k < n
  unfolding find_row
  find-lt k n [] h e = ground arith
  find-lt k n (y ∷ xs) {x} (p, h) e = ground (arith, find-lt k n xs {x = x} h)

module _ {ℓ} {A : Type ℓ} (key : A → ℕ) where
  pub KeysBelow-add :
      (n : ℕ) (r : A) (xs : List A)
      → KeysBelow key n xs
      → key r ≡ n
      → KeysBelow key (n + 1) (add_row key r xs)
  unfolding add_row
  KeysBelow-add n r [] h e = (omega arith, tt)
  KeysBelow-add n r (y ∷ xs) (p, h) e = (omega arith, KeysBelow-add n r xs h e)

  pub KeysBelow-weaken : (n : ℕ) (xs : List A) → KeysBelow key n xs → KeysBelow key (n + 1) xs
  KeysBelow-weaken n [] h = tt
  KeysBelow-weaken n (y ∷ xs) (p, h) = (omega (arith, p), KeysBelow-weaken n xs h)
