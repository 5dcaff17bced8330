-- ===== src/Tests/Assets.antt =====
-- Assets of a case with one asset.
use watari.Assets.Names.{HasUniqueAssetNames}
use watari.Assets.Service.{
  AssetCreate, AssetUpdate, create_asset, create_in_case, delete_asset, insert_asset, update_asset,
}
use watari.Assets.Unique.{assets-HasUniqueAssetNames}
use watari.Base.{[], ap, false, inl, inr, none, refl, sym, ℕ, ◌∙◌, ◌∷◌, ◌≡◌}
use watari.Cases.Create.{get_case_or_404}
use watari.Exec.{err, http}
use watari.Store.{Asset, AssetType, Session}
use watari.Table.{find_row}
use watari.Tests.Samples.{session}

abbrev laptop : Asset
laptop = record {
  id = 60;
  tenant_id = 7;
  case_id = 1;
  name = "laptop";
  type = AssetType.workstation;
  ip_address = none;
  domain = none;
  is_compromised = false;
  description = none;
  custom_attributes = [];
  created_by = 90;
}

abbrev asset_session : Session
asset_session = record session { assets = laptop ∷ [] }

abbrev same_again : AssetCreate
same_again = record {
  name = "laptop";
  type = AssetType.server;
  ip_address = none;
  domain = none;
  is_compromised = false;
  description = none;
  custom_attributes = [];
}

name_taken : (create_asset 1 90 same_again asset_session).0 ≡ err (http 409)
unfolding create_asset create_in_case get_case_or_404 insert_asset find_row
name_taken = refl

laptop-HasUniqueAssetNames : HasUniqueAssetNames asset_session.assets
laptop-HasUniqueAssetNames a x (inl e) (inl f) same = ap (λ (z : Asset). z.id) (sym f ∙ e)
laptop-HasUniqueAssetNames a x (inl e) (inr i) same = absurd i
laptop-HasUniqueAssetNames a x (inr i) j same = absurd i

assets-HasUniqueAssetNames_example :
    ((case_id actor : ℕ) (p : AssetCreate)
      → HasUniqueAssetNames (create_asset case_id actor p asset_session).1.assets)
    × ((id : ℕ) (u : AssetUpdate) (actor : ℕ)
        → HasUniqueAssetNames (update_asset id u actor asset_session).1.assets)
    × ((id : ℕ) → HasUniqueAssetNames (delete_asset id asset_session).1.assets)
assets-HasUniqueAssetNames_example =
    assets-HasUniqueAssetNames asset_session laptop-HasUniqueAssetNames
