-- ===== src/P2p/Tests/Profiles.antt =====
-- Payment methods in two spellings, a name that is taken, and the limits of an ad.
use dex_backend.Base.{◌≡◌, ◌≢◌, ◌≤◌, ◌<◌, ◌*◌, refl, some, List, [], ◌∷◌, map}
use dex_backend.Base.Key.{nat_key}
use dex_backend.Result.{ok}
use dex_backend.Text.Bytes.{Str, bytes, trim_space}
use dex_backend.Text.Fixed.{float_string, read_fixed}
use dex_backend.Table.{select}
use dex_backend.Schema.{User}
use dex_backend.P2p.Schema.{upi, neft, P2pDb}
use dex_backend.P2p.Methods.{method_name, method_of, method_eq}
use dex_backend.P2p.Profile.{normalize_payment_methods, establish_p2p_username}
use dex_backend.P2p.Profile.Laws.{
  Distinct, HasName, normalize_payment_methods_stable, establish_p2p_username-permanent,
}
use dex_backend.P2p.Fiat.{round_to_paise, validate_p2p_order_limits}
use dex_backend.P2p.Fiat.Laws.{IsLimit, validate_p2p_order_limits-range}
use dex_backend.P2p.Tests.{market}

abbrev spelled : List Str
spelled = bytes " UPI" ∷ bytes "NEFT" ∷ bytes "UPI " ∷ []

spelled_run : normalize_payment_methods spelled ≡ ok (upi ∷ neft ∷ [])
unfolding normalize_payment_methods method_of method_eq trim_space
spelled_run = refl

normalize_payment_methods_stable_example :
    (upi ∷ neft ∷ [] ≢ [])
    × Distinct (upi ∷ neft ∷ [])
    × (normalize_payment_methods (map method_name (upi ∷ neft ∷ [])) ≡ ok (upi ∷ neft ∷ []))
normalize_payment_methods_stable_example = normalize_payment_methods_stable spelled spelled_run

abbrev asha : User
asha = record { wallet_address = []; p2p_username = some (bytes "asha") }

abbrev named_market : P2pDb
named_market = record market { ledger = record market.ledger { users = (1, asha) ∷ [] } }

asha_named : HasName 1 (bytes "asha") named_market
unfolding HasName select
asha_named = (asha, refl, refl)

establish_p2p_username-permanent_example :
    HasName 1 (bytes "asha") (establish_p2p_username 1 (bytes "asha_2") named_market).1
establish_p2p_username-permanent_example =
    establish_p2p_username-permanent 1 1 (bytes "asha") (bytes "asha_2") named_market asha_named

limits_run : validate_p2p_order_limits 200000000 10000000000 (bytes "10.5") [] ≡ ok (1050, 2000000)
unfolding validate_p2p_order_limits round_to_paise trim_space float_string read_fixed
limits_run = refl

validate_p2p_order_limits-range_example :
    IsLimit (bytes "10.5") 1 1050
    × IsLimit [] (round_to_paise (200000000 * 10000000000)) 2000000
    × (0 < 1050)
    × (1050 ≤ 2000000)
    × (2000000 ≤ round_to_paise (200000000 * 10000000000))
validate_p2p_order_limits-range_example =
    validate_p2p_order_limits-range 200000000 10000000000 (bytes "10.5") [] limits_run
