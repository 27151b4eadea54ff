-- ===== src/Asset/Laws.antt =====
-- `asset_eq` decides equality, and `normalize_asset` reads names up to case and surrounding space.
use dex_backend.Base.{ℕ, zero, suc, true, ◌≡◌, refl, ◌↔◌, ◌++◌, arith, ap, ◌∙◌, sym}
use dex_backend.Base.Key.{Key}
use dex_backend.Result.{ok}
use dex_backend.Text.Bytes.{Str, to_lower, trim_space}
use dex_backend.Text.{IsBlank, trim_space-blank, trim_space-to_lower, to_upper-to_lower}
use dex_backend.Asset.{
  Asset, btc, usdc, usdt, bi, biusd, eth, sol, bnb, name, index, asset_eq, asset_columns,
  normalize_asset,
}

abbrev asset_at : ℕ → Asset
asset_at zero = btc
asset_at (suc zero) = usdc
asset_at (suc (suc zero)) = usdt
asset_at (suc (suc (suc zero))) = bi
asset_at (suc (suc (suc (suc zero)))) = biusd
asset_at (suc (suc (suc (suc (suc zero))))) = eth
asset_at (suc (suc (suc (suc (suc (suc zero)))))) = sol
asset_at (suc (suc (suc (suc (suc (suc (suc n))))))) = bnb

asset_at-index : (a : Asset) → asset_at (index a) ≡ a
asset_at-index = elim [
  | btc ↦ refl
  | usdc ↦ refl
  | usdt ↦ refl
  | bi ↦ refl
  | biusd ↦ refl
  | eth ↦ refl
  | sol ↦ refl
  | bnb ↦ refl
]

index-injective : (a b : Asset) → index a ≡ index b → a ≡ b
index-injective a b e = sym (asset_at-index a) ∙ ap asset_at e ∙ asset_at-index b

pub asset_eq_iff : (a b : Asset) → (asset_eq a b ≡ true) ↔ (a ≡ b)
unfolding asset_eq
asset_eq_iff a b = (λ h. index-injective a b (ground arith), λ e. rw e (ground arith))

instance abbrev pub asset_key : Key Asset
asset_key = record { same = asset_eq; same_iff = asset_eq_iff }

pub normalize_asset-name : (a : Asset) → normalize_asset (name a) ≡ ok a
unfolding normalize_asset asset_columns trim_space
normalize_asset-name = elim [
  | btc ↦ refl
  | usdc ↦ refl
  | usdt ↦ refl
  | bi ↦ refl
  | biusd ↦ refl
  | eth ↦ refl
  | sol ↦ refl
  | bnb ↦ refl
]

-- Every asset's name is read, in upper or in lower case and with any white space round it.
pub normalize_asset_forgiving :
    (a : Asset) (p q : Str)
    → IsBlank p
    → IsBlank q
    → (normalize_asset (p ++ name a ++ q) ≡ ok a)
      × (normalize_asset (p ++ to_lower (name a) ++ q) ≡ ok a)
unfolding normalize_asset
normalize_asset_forgiving a p q hp hq = (
  rw (trim_space-blank p (name a) q hp hq) (unfold normalize_asset in normalize_asset-name a),
  rw (trim_space-blank p (to_lower (name a)) q hp hq, trim_space-to_lower, to_upper-to_lower)
      (normalize_asset-name a),
)
