-- ===== src/Assets/Unique.antt =====
-- What the operations on assets leave in the table (backend/src/services/assets.py).
use watari.Assets.Names.{HasUniqueAssetNames, joined, ∈-add_row, ∈-delete_row, ∈-save_row}
use watari.Assets.Service.{
  AssetCreate, AssetUpdate, apply_asset, asset_added_event, bool_ne, compromise_event, create_asset,
  create_in_case, delete_asset, flush_asset, get_asset_or_404, insert_asset, is_name_taken,
  new_asset, note_compromise, update_asset,
}
use watari.Base.{
  Bool, Bool-cases, List, Option, Option-cases, ap, arith, false, inl, inr, refl, subst, sym, true,
  ℕ, ◌&&◌, ◌+◌, ◌||◌, ◌∈◌, ◌∙◌, ◌≡◌, ◌⊎◌,
}
use watari.Cases.Create.{get_case_or_404}
use watari.Exec.{Action, Result, err, http, ok, or_raise, ◌>>◌}
use watari.Store.{Asset, Case, Session, asset_key, case_key}
use watari.Timeline.Recorder.{record_event, record_event-assets, record_event-ok}
use watari.Cases.Update.{is_null, is_set}
use watari.Table.{add_row, delete_row, find_row, save_row}

-- The table after a call: as it was, or with a row of a name that was free.
abbrev IsStep : List Asset → List Asset → Type 0
IsStep xs ys =
    (ys ≡ xs)
    ⊎ ((r : Asset) × (is_name_taken r xs ≡ false)
        × ((ys ≡ add_row asset_key r xs) ⊎ (ys ≡ save_row asset_key r xs)))

step-HasUniqueAssetNames :
    (xs ys : List Asset) → IsStep xs ys → HasUniqueAssetNames xs → HasUniqueAssetNames ys
step-HasUniqueAssetNames xs ys (inl e) names = subst HasUniqueAssetNames (sym e) names
step-HasUniqueAssetNames xs ys (inr (r, free, inl e)) names =
    subst HasUniqueAssetNames (sym e)
      (joined r xs (add_row asset_key r xs) free (λ y i. ∈-add_row y r xs i) names)
step-HasUniqueAssetNames xs ys (inr (r, free, inr e)) names =
    subst HasUniqueAssetNames (sym e) (joined r xs (save_row asset_key r xs) free from names)
  where
    from : (y : Asset) → y ∈ save_row asset_key r xs → (r ≡ y) ⊎ (y ∈ xs)
    from y i = elim (∈-save_row y r xs i) [ inl h ↦ inl h | inr (j, h) ↦ inr j ]

insert_cases :
    (a : Asset) (s : Session)
    → (insert_asset a s ≡ (err (http 409), s))
      ⊎ ((is_name_taken a s.assets ≡ false)
          × (insert_asset a s ≡ (ok tt, record s { assets = add_row asset_key a s.assets })))
unfolding insert_asset
insert_cases a s = elim (Bool-cases (is_name_taken a s.assets)) [
  | inl taken ↦ inl (rw (taken, insert_asset) refl)
  | inr free ↦ inr (free, rw (free, insert_asset) refl)
]

then_lem :
    {B : Type 0} (m : Action (Unit {0})) (n : Action B) (s s' : Session) (r : Result (Unit {0}))
    → m s ≡ (r, s')
    → (m >> n) s ≡ elim r [ ok _ ↦ n s' | err e ↦ (err e, s') ]
then_lem m n s s' r h =
    ap (λ (x : Result (Unit {0}) × Session). elim x.0 [ ok _ ↦ n x.1 | err e ↦ (err e, x.1) ]) h

module _ (a : Asset) (actor k : ℕ) where
  -- What `create_asset` does once the row is made.
  abbrev record_and_get : Action Asset
  record_and_get = record_event (asset_added_event a actor) >> get_asset_or_404 k

  record_and_get-assets : (s : Session) → (record_and_get s).1.assets ≡ s.assets
  unfolding get_asset_or_404
  record_and_get-assets s =
      let rows = record_event-assets (asset_added_event a actor) s in
      let answer = record_event-ok (asset_added_event a actor) s in ground arith

  insert-IsStep : (s : Session) → IsStep s.assets ((insert_asset a >> record_and_get) s).1.assets
  insert-IsStep s = elim (insert_cases a s) [
    | inl refused ↦ inl (
        ap (λ (x : Result Asset × Session). x.1.assets)
          (then_lem (insert_asset a) record_and_get s s (err (http 409)) refused))
    | inr (free, done) ↦
        let s' = record s { assets = add_row asset_key a s.assets } in
        let after = then_lem (insert_asset a) record_and_get s s' (ok tt) done in
        inr (
          a,
          free,
          inl (ap (λ (x : Result Asset × Session). x.1.assets) after ∙ record_and_get-assets s'),
        )
  ]

create_in_case-IsStep :
    (c : Case) (actor : ℕ) (p : AssetCreate) (s : Session)
    → IsStep s.assets (create_in_case c actor p s).1.assets
unfolding create_in_case
create_in_case-IsStep c actor p s =
    insert-IsStep (new_asset c actor p s.next_id) actor s.next_id
      (record s { next_id = s.next_id + 1 })

create_asset-IsStep :
    (case_id actor : ℕ) (p : AssetCreate) (s : Session)
    → IsStep s.assets (create_asset case_id actor p s).1.assets
unfolding create_asset get_case_or_404
create_asset-IsStep case_id actor p s = elim (Option-cases (find_row case_key case_id s.cases)) [
  | inl missing ↦ inl (ap rows (ap or_raised missing))
  | inr (c, found) ↦
      subst (IsStep s.assets) (sym (ap rows (ap or_raised found)))
        (create_in_case-IsStep c actor p s)
]
  where
    or_raised : Option Case → Result Case × Session
    or_raised o = or_raise (http 404) o s

    go_on : Result Case × Session → Result Asset × Session
    go_on x = elim x.0 [ ok c ↦ create_in_case c actor p x.1 | err e ↦ (err e, x.1) ]

    rows : Result Case × Session → List Asset
    rows x = (go_on x).1.assets

note_compromise-assets :
    (b : Bool) (a : Asset) (actor : ℕ) (s : Session)
    → ((note_compromise b a actor s).1.assets ≡ s.assets)
      × ((note_compromise b a actor s).0 ≡ ok tt)
note_compromise-assets false a actor s = (refl, refl)
note_compromise-assets true a actor s =
    let rows = record_event-assets (compromise_event a actor) s in
    let answer = record_event-ok (compromise_event a actor) s in (ground arith, ground arith)

update_asset-IsStep :
    (id : ℕ) (u : AssetUpdate) (actor : ℕ) (s : Session)
    → IsStep s.assets (update_asset id u actor s).1.assets
unfolding update_asset get_asset_or_404 flush_asset
update_asset-IsStep id u actor s = elim (Option-cases (find_row asset_key id s.assets)) [
  | inl missing ↦ inl (ground arith)
  | inr (a, found) ↦
      let a' = apply_asset u a in
      let nulls = is_null u.name || is_null u.type || is_null u.is_compromised in
      elim (Bool-cases (nulls || is_name_taken a' s.assets)) [
        | inl refused ↦ inl (ground arith)
        | inr allowed ↦
            let s1 = record s { assets = save_row asset_key a' s.assets } in
            let (rows, answer) =
              note_compromise-assets
                (is_set u.is_compromised && bool_ne a'.is_compromised a.is_compromised) a' actor
                s1 in
            inr (a', ground arith, inr (ground arith))
      ]
]

-- If two assets of a case that have the same name are the same asset, this still holds after
-- creating, updating and deleting any asset, whether the call returns or raises.
pub assets-HasUniqueAssetNames :
    (s : Session)
    → HasUniqueAssetNames s.assets
    → ((case_id actor : ℕ) (p : AssetCreate)
        → HasUniqueAssetNames (create_asset case_id actor p s).1.assets)
      × ((id : ℕ) (u : AssetUpdate) (actor : ℕ)
          → HasUniqueAssetNames (update_asset id u actor s).1.assets)
      × ((id : ℕ) → HasUniqueAssetNames (delete_asset id s).1.assets)
unfolding delete_asset get_asset_or_404
assets-HasUniqueAssetNames s names = (
  λ case_id actor p.
      step-HasUniqueAssetNames s.assets _ (create_asset-IsStep case_id actor p s) names,
  λ id u actor. step-HasUniqueAssetNames s.assets _ (update_asset-IsStep id u actor s) names,
  deleted,
)
  where
    rest : (id : ℕ) → HasUniqueAssetNames (delete_row asset_key id s.assets)
    rest id a x i j same =
        names a x (∈-delete_row a id s.assets i) (∈-delete_row x id s.assets j) same

    deleted : (id : ℕ) → HasUniqueAssetNames (delete_asset id s).1.assets
    deleted id = elim (Option-cases (find_row asset_key id s.assets)) [
      | inl missing ↦ subst HasUniqueAssetNames (ground arith) names
      | inr (a, found) ↦ subst HasUniqueAssetNames (ground arith) (rest id)
    ]
