-- ===== src/Asset.antt =====
-- The assets of the ledger and `normalizeAsset` (internal/repo/ledger.go).
mod Tests
pub mod Laws
use mathlib.Core.List.{lookup}
use dex_backend.Base.{
  ℕ, ◌≡◌, refl, ◌↔◌, Bool, true, false, Option, none, some, ◌==◌, if◌then◌else◌, arith,
}
use dex_backend.Base.Key.{Key}
use dex_backend.Result.{Result, ok, err, Err, or_err}
use dex_backend.Text.Bytes.{Str, bytes, str_eq, trim_space, to_upper, dash_to_underscore}

-- The keys of `assetColumns`. Each has a balance column and, in `lockedColumns`, a locked one.
pub data Asset : Type 0 where
  btc usdc usdt bi biusd eth sol bnb : Asset

abbrev pub name : Asset → Str
name btc = bytes "BTC"
name usdc = bytes "USDC"
name usdt = bytes "USDT"
name bi = bytes "BI"
name biusd = bytes "BIUSD"
name eth = bytes "ETH"
name sol = bytes "SOL"
name bnb = bytes "BNB"

abbrev pub index : Asset → ℕ
index btc = 0
index usdc = 1
index usdt = 2
index bi = 3
index biusd = 4
index eth = 5
index sol = 6
index bnb = 7

unfoldable pub asset_eq : Asset → Asset → Bool
asset_eq a b = index a == index b

-- `assetColumns[normalized]`
unfoldable pub asset_columns : Str → Option Asset
asset_columns s =
    if str_eq s (name btc)
    then some btc
    else if str_eq s (name usdc)
    then some usdc
    else if str_eq s (name usdt)
    then some usdt
    else if str_eq s (name bi)
    then some bi
    else if str_eq s (name biusd)
    then some biusd
    else if str_eq s (name eth)
    then some eth
    else if str_eq s (name sol)
    then some sol
    else if str_eq s (name bnb)
    then some bnb
    else none

unfoldable pub normalize_asset : Str → Result Asset
normalize_asset asset =
    or_err (asset_columns (dash_to_underscore (to_upper (trim_space asset)))) Err.unsupported_asset
