-- ===== src/Assets/Names.antt =====
-- The names of the assets of a case (backend/src/services/assets.py).
use watari.Assets.Service.{has_same_name, is_name_taken}
use watari.Base.{
  Bool-cases, List, [], ap, arith, false, if◌then◌else◌, inl, inr, str_eq, str_eq_iff, subst, sym,
  true, ℕ, ◌==◌, ◌∈◌, ◌∙◌, ◌∷◌, ◌≡◌, ◌≢◌, ◌⊎◌,
}
use watari.Store.{Asset, asset_key}
use watari.Table.{add_row, delete_row, save_row}

-- Two rows of one case and one name are one row (the constraint `uq_assets_case_name`).
abbrev pub HasUniqueAssetNames : List Asset → Type 0
HasUniqueAssetNames assets =
    (a x : Asset) → a ∈ assets → x ∈ assets → has_same_name a x ≡ true → x.id ≡ a.id

pub ∈-add_row : (y r : Asset) (xs : List Asset) → y ∈ add_row asset_key r xs → (r ≡ y) ⊎ (y ∈ xs)
unfolding add_row
∈-add_row y r [] (inl e) = inl e
∈-add_row y r [] (inr i) = absurd i
∈-add_row y r (x ∷ xs) (inl e) = inr (inl e)
∈-add_row y r (x ∷ xs) (inr i) = elim (∈-add_row y r xs i) [ inl e ↦ inl e | inr j ↦ inr (inr j) ]

pub ∈-save_row :
    (y r : Asset) (xs : List Asset)
    → y ∈ save_row asset_key r xs
    → (r ≡ y) ⊎ ((y ∈ xs) × (y.id ≢ r.id))
unfolding save_row
∈-save_row y r [] i = absurd i
∈-save_row y r (x ∷ xs) (inl e) = elim (Bool-cases (x.id == r.id)) [
  | inl same ↦ inl (ground arith)
  | inr other ↦
      let it : x ≡ y = ground arith in
      inr (inl it, subst (λ (z : Asset). z.id ≢ r.id) it (λ h. ground arith))
]
∈-save_row y r (x ∷ xs) (inr i) = elim (∈-save_row y r xs i) [
  | inl e ↦ inl e
  | inr (j, h) ↦ inr (inr j, h)
]

pub ∈-delete_row : (y : Asset) (k : ℕ) (xs : List Asset) → y ∈ delete_row asset_key k xs → y ∈ xs
unfolding delete_row
∈-delete_row y k [] i = i
∈-delete_row y k (x ∷ xs) i = elim (Bool-cases (x.id == k)) [
  | inl same ↦ inr (
      ∈-delete_row y k xs (
        subst (λ b. y ∈ (if b then delete_row asset_key k xs else x ∷ delete_row asset_key k xs))
          same i))
  | inr other ↦
      elim (subst
        (λ b. y ∈ (if b then delete_row asset_key k xs else x ∷ delete_row asset_key k xs)) other
        i) [ inl e ↦ inl e | inr j ↦ inr (∈-delete_row y k xs j) ]
]

-- If the name is free, a row that has it is the row itself.
not_taken :
    (a x : Asset) (xs : List Asset)
    → is_name_taken a xs ≡ false
    → x ∈ xs
    → has_same_name a x ≡ true
    → x.id ≡ a.id
unfolding is_name_taken
not_taken a x [] h i same = absurd i
not_taken a x (y ∷ xs) h (inl e) same =
    let it : has_same_name a y ≡ true = subst (λ z. has_same_name a z ≡ true) (sym e) same in
    let id : y.id ≡ a.id = ground arith in subst (λ (z : Asset). z.id ≡ a.id) e id
not_taken a x (y ∷ xs) h (inr i) same = not_taken a x xs (ground arith) i same

same_sym : (a x : Asset) → has_same_name a x ≡ true → has_same_name x a ≡ true
same_sym a x h =
    let name : x.name ≡ a.name = (str_eq_iff x.name a.name).0 (ground arith) in
    let back : str_eq a.name x.name ≡ true = (str_eq_iff a.name x.name).1 (sym name) in ground arith

-- A table to which a row of a free name comes, beside rows of the old table.
pub joined :
    (r : Asset) (xs ys : List Asset)
    → is_name_taken r xs ≡ false
    → ((y : Asset) → y ∈ ys → (r ≡ y) ⊎ (y ∈ xs))
    → HasUniqueAssetNames xs
    → HasUniqueAssetNames ys
joined r xs ys free from names a x i j same = elim (from a i) [
  | inl e ↦ elim (from x j) [
    | inl f ↦ ap (λ (z : Asset). z.id) (sym f ∙ e)
    | inr k ↦
        let with_r : has_same_name r x ≡ true =
          subst (λ z. has_same_name z x ≡ true) (sym e) same in
        not_taken r x xs free k with_r ∙ ap (λ (z : Asset). z.id) e
  ]
  | inr k ↦ elim (from x j) [
    | inl f ↦
        let with_r : has_same_name a r ≡ true =
          subst (λ z. has_same_name a z ≡ true) (sym f) same in
        sym (not_taken r a xs free k (same_sym a r with_r) ∙ ap (λ (z : Asset). z.id) f)
    | inr l ↦ names a x k l same
  ]
]
