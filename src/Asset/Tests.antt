-- ===== src/Asset/Tests.antt =====
-- An asset's name as a client may send it.
use dex_backend.Base.{◌≡◌, refl, ◌++◌}
use dex_backend.Result.{ok}
use dex_backend.Text.Bytes.{bytes, to_lower}
use dex_backend.Asset.{biusd, name, normalize_asset}
use dex_backend.Asset.Laws.{normalize_asset_forgiving}

normalize_asset_forgiving_example :
    (normalize_asset (bytes "  " ++ name biusd ++ bytes " ") ≡ ok biusd)
    × (normalize_asset (bytes "  " ++ to_lower (name biusd) ++ bytes " ") ≡ ok biusd)
normalize_asset_forgiving_example =
    normalize_asset_forgiving biusd (bytes "  ") (bytes " ") (refl, (refl, tt)) (refl, tt)
