-- ===== src/P2p/Ads/Laws.antt =====
-- An ad that is posted is backed.
use dex_backend.Base.{
  ℕ, ◌*◌, ◌<◌, ◌≤◌, ◌≡◌, refl, sym, ap, ◌∙◌, true, Option, none, some, List, [], ◌∷◌, leb, leb→le,
  ==_iff, arith,
}
use mathlib.Core.Path.{subst}
use dex_backend.Base.Key.{nat_key, pair_key}
use dex_backend.Result.{ok}
use dex_backend.Text.Bytes.{Str, trim_space}
use dex_backend.Asset.{Asset}
use dex_backend.Asset.Laws.{asset_key}
use dex_backend.Table.{select, insert, update, sum}
use dex_backend.Table.Laws.{select-update_self}
use dex_backend.Schema.{User, LedgerDb}
use dex_backend.Tx.Laws.{
  bind-ok, query-bind, found-bind, given-bind, check-bind, check-ok, transact-ok,
}
use dex_backend.Ledger.{is_some, validate_positive_amount}
use dex_backend.P2p.Schema.{Side, buy, sell, Method, Listing, P2pDb}
use dex_backend.P2p.{update_wallets, insert_wallet_entry}
use dex_backend.P2p.Methods.{method_key}
use dex_backend.P2p.Fees.{p2p_biusd_settlement}
use dex_backend.P2p.Fiat.{round_to_paise}
use dex_backend.P2p.Fiat.Laws.{IsLimit, validate_p2p_order_limits-range}
use dex_backend.P2p.Profile.{normalize_payment_methods, set_username}
use dex_backend.P2p.Funding.{normalize_p2p_asset}
use dex_backend.P2p.Holdings.{wallet_of, worth, held, Set, lock_wallet-Locked, Locked-Set_if}
use dex_backend.P2p.Ads.{
  normalize_p2p_side, establish, all_configured, hold, reserve, back_ad, insert_listing,
  log_reserve, new_listing, publish, price_ad, create_listing_with_limits,
}

-- The user has an account for each method.
abbrev pub AllConfigured : ℕ → List Method → P2pDb → Type 0
AllConfigured user [] db = Unit {0}
AllConfigured user (m ∷ ms) db =
    (is_some (select (user, m) db.payment_accounts) ≡ true) × AllConfigured user ms db

-- A buy ad takes nothing. A sell ad holds its debit, which was available, in reserve.
pub data Backed (u : ℕ) (a : Asset) (methods : List Method) (debit : ℕ) (db db' : P2pDb)
    : Side → Type 0 where
  bare : db' ≡ db → Backed u a methods debit db db' buy
  reserved :
      AllConfigured u methods db
      → debit ≤ (wallet_of db.wallets u a).available
      → Set u a (hold debit) db db'
      → Backed u a methods debit db db' sell

all_configured-ok :
    (u : ℕ) (ms : List Method) (db : P2pDb) {y : Unit {0}} {d : P2pDb}
    → all_configured u ms db ≡ ok (y, d)
    → (d ≡ db) × AllConfigured u ms db
unfolding all_configured
all_configured-ok u [] db h = (ground arith, tt)
all_configured-ok u (m ∷ ms) db h =
    let (has, k) = check-bind _ _ _ db (query-bind _ _ db h) in
    let (same, rest) = all_configured-ok u ms db k in (same, (has, rest))

reserve-Set :
    (u : ℕ) (a : Asset) (x : ℕ) (db : P2pDb) {y : Unit {0}} {d : P2pDb}
    → reserve u a x db ≡ ok (y, d)
    → (x ≤ (wallet_of db.wallets u a).available) × Set u a (hold x) db d
unfolding reserve
reserve-Set u a x db {d = d} h =
    let (_, d1, h1, k1) = bind-ok _ _ db h in
    let (n, d2, h2, k2) = bind-ok _ _ d1 k1 in
    let (one_row, d_is) = check-ok _ _ d2 k2 in
    let run : update_wallets u a (λ w. leb x w.available) (hold x) d1 ≡ ok (1, d) =
      ground (arith, ==_iff n 1) in
    let (covered, set) = Locked-Set_if u a _ (hold x) db (lock_wallet-Locked u a db h1) run in
    (leb→le _ _ covered, set)

back_ad-Backed :
    (side : Side) (u : ℕ) (a : Asset) (ms : List Method) (x : ℕ) (db : P2pDb) {y : Unit {0}}
    {d : P2pDb}
    → back_ad side u a ms x db ≡ ok (y, d)
    → Backed u a ms x db d side
unfolding back_ad
back_ad-Backed buy u a ms x db h = Backed.bare (ground arith)
back_ad-Backed sell u a ms x db {d = d} h =
    let (_, d1, h1, k1) = bind-ok _ _ db h in
    let (same, configured) = all_configured-ok u ms db h1 in
    let (covered, set) =
      reserve-Set u a x db (subst (λ (e : P2pDb). reserve u a x e ≡ ok (tt, d)) same k1) in
    Backed.reserved configured covered set

log_reserve-ok :
    (side : Side) (u id : ℕ) (a : Asset) (x : ℕ) (db : P2pDb) {y : Unit {0}} {d : P2pDb}
    → log_reserve side u id a x db ≡ ok (y, d)
    → d ≡ record db { wallet_entries = d.wallet_entries }
unfolding log_reserve insert_wallet_entry
log_reserve-ok buy u id a x db h = ground arith
log_reserve-ok sell u id a x db h = ground arith

-- A name is set where there was none; no other table has changed.
pub record Named (u : ℕ) (db db' : P2pDb) : Type 0 where
  pub user : User
  pub username : Str
  pub row : select u db'.ledger.users ≡ some user
  pub has : user.p2p_username ≡ some username
  pub rest : db' ≡ record db { ledger = record db.ledger { users = db'.ledger.users } }

establish-Named :
    (u : ℕ) (username : Str) (user : User) (known : Option Str) (db : P2pDb) {y : Unit {0}}
    {d : P2pDb}
    → select u db.ledger.users ≡ some user
    → user.p2p_username ≡ known
    → establish u username known db ≡ ok (y, d)
    → Named u db d
unfolding establish set_username
establish-Named u username user (some n) db there known h = record {
  user = user;
  username = n;
  row = ground arith;
  has = known;
  rest = ground arith;
}
establish-Named u username user none db {d = d} there known h =
    let (valid, k0) = check-bind _ _ _ db h in
    let (free, k1) = check-bind _ _ _ db (query-bind _ _ db k0) in
    let set : User → User = λ r. record r { p2p_username = some (trim_space username) } in
    let users : d.ledger.users ≡ update u set db.ledger.users = ground arith in
    record {
      user = set user;
      username = trim_space username;
      row = ground (arith, users, select-update_self u set db.ledger.users user there);
      has = refl;
      rest = ground arith;
    }

Named_ledger :
    (u : ℕ) (db d : P2pDb) {l : LedgerDb}
    → Named u db d
    → d.ledger ≡ l
    → d ≡ record db { ledger = l }
Named_ledger u db d named h = ground (arith, named.rest)

-- What `publish` does.
record Published (u : ℕ) (side : Side) (a : Asset) (methods : List Method) (raw : Str) (l : Listing)
    (id : ℕ) (db db' : P2pDb) : Type 0 where
  fees : ℕ × ℕ × ℕ
  charged : p2p_biusd_settlement raw ≡ ok fees
  backed : Backed u a methods fees.2 db (record db { wallets = db'.wallets }) side
  number : id ≡ db.next_id
  listings : db'.listings ≡ insert id l db.listings
  orders : db'.orders ≡ db.orders
  ledger : db'.ledger ≡ db.ledger
  admin_wallets : db'.admin_wallets ≡ db.admin_wallets

Backed-rest :
    (u : ℕ) (a : Asset) (methods : List Method) (debit : ℕ) (db d : P2pDb) {side : Side}
    → Backed u a methods debit db d side
    → d ≡ record db { wallets = d.wallets }
Backed-rest u a methods debit db d (Backed.bare same) = ground arith
Backed-rest u a methods debit db d (Backed.reserved configured covered set) = set.rest

publish-Published :
    (u : ℕ) (side : Side) (a : Asset) (methods : List Method) (raw : Str) (l : Listing) (db : P2pDb)
    {id : ℕ} {l' : Listing} {db' : P2pDb}
    → publish u side a methods raw l db ≡ ok ((id, l'), db')
    → (l' ≡ l) × Published u side a methods raw l id db db'
unfolding publish insert_listing
publish-Published u side a methods raw l db {id} {l'} {db'} h =
    let (fees, charged, k0) = given-bind _ _ db h in
    let (_, d1, h1, k1) = bind-ok _ _ db k0 in
    let (i, d2, h2, k2) = bind-ok _ _ d1 k1 in
    let (_, d3, h3, k3) = bind-ok _ _ d2 k2 in
    let backed = back_ad-Backed side u a methods fees.2 db h1 in
    let rest = Backed-rest u a methods fees.2 db d1 backed in
    let logged = log_reserve-ok side u i a fees.2 d2 h3 in
    (
      ground arith,
      record {
        fees = fees;
        charged = charged;
        backed =
            subst (λ e. Backed u a methods fees.2 db e side)
              (rest
                ∙ ap (λ w. record db { wallets = w }) {x = d1.wallets} {y = db'.wallets}
                    (ground (arith, logged)))
              backed;
        number = ground (arith, rest);
        listings = ground (arith, rest, logged);
        orders = ground (arith, rest, logged);
        ledger = ground (arith, rest, logged);
        admin_wallets = ground (arith, rest, logged);
      },
    )

-- The ad `l` of user `u` is posted under `id`.
pub record Posted (u : ℕ) (side : Side) (a : Asset) (x : ℕ) (raw : Str) (methods : List Method)
    (min_order max_order : Str) (id : ℕ) (l : Listing) (db db' : P2pDb) : Type 0 where
  pub price : ℕ
  pub limits : ℕ × ℕ
  pub fees : ℕ × ℕ × ℕ
  pub priced : select a db.prices ≡ some price
  pub low : IsLimit min_order 1 limits.0
  pub high : IsLimit max_order (round_to_paise (x * price)) limits.1
  pub range : (0 < limits.0) × (limits.0 ≤ limits.1) × (limits.1 ≤ round_to_paise (x * price))
  pub ad : l ≡ new_listing u side a x price limits methods
  pub named : Named u db (record db { ledger = db'.ledger })
  pub charged : p2p_biusd_settlement raw ≡ ok fees
  pub backed :
      Backed u a methods fees.2
        (record db { ledger = db'.ledger })
        (record db { ledger = db'.ledger; wallets = db'.wallets })
        side
  pub number : id ≡ db.next_id
  pub listings : db'.listings ≡ insert id l db.listings
  pub orders : db'.orders ≡ db.orders
  pub admin_wallets : db'.admin_wallets ≡ db.admin_wallets

-- The tables with the name set, and with the reservation made.
price_ad-Posted :
    (u : ℕ) (side : Side) (a : Asset) (x : ℕ) (raw : Str) (methods : List Method)
    (username min_order max_order : Str) (db : P2pDb) {id : ℕ} {l : Listing} {db' : P2pDb}
    → price_ad u side a x raw methods username min_order max_order db ≡ ok ((id, l), db')
    → Posted u side a x raw methods min_order max_order id l db db'
unfolding price_ad
price_ad-Posted u side a x raw methods username min_order max_order db {id} {l} {db'} h =
    let (user, there, k0) = found-bind _ _ _ db (query-bind _ _ db h) in
    let (_, d, h1, k1) = bind-ok _ _ db k0 in
    let named = establish-Named u username user user.p2p_username db there refl h1 in
    let (price, priced, k2) = found-bind _ _ _ d (query-bind _ _ d k1) in
    let (limits, limited, k3) = given-bind _ _ d k2 in
    let (low, high, positive, ordered, bounded) =
      validate_p2p_order_limits-range x price min_order max_order {m = limits.0} {n = limits.1}
        limited in
    let (ad, p) =
      publish-Published u side a methods raw (new_listing u side a x price limits methods) d k3 in
    let d_is : d ≡ record db { ledger = db'.ledger } = Named_ledger u db d named (sym p.ledger) in
    record {
      price = price;
      limits = limits;
      fees = p.fees;
      priced = ground (arith, d_is);
      low = low;
      high = high;
      range = (positive, ordered, bounded);
      ad = ad;
      named = subst (Named u db) d_is named;
      charged = p.charged;
      backed =
          subst
            (λ (e : P2pDb). Backed u a methods p.fees.2 e (record e { wallets = db'.wallets }) side)
            d_is p.backed;
      number = ground (arith, p.number, d_is);
      listings = ground (arith, p.listings, d_is);
      orders = ground (arith, p.orders, d_is);
      admin_wallets = ground (arith, p.admin_wallets, d_is);
    }

Backed-held :
    (u : ℕ) (a : Asset) (methods : List Method) (debit : ℕ) (db d : P2pDb) {side : Side} (c : Asset)
    → Backed u a methods debit db d side
    → sum (worth c) d.wallets ≡ sum (worth c) db.wallets
Backed-held u a methods debit db d c (Backed.bare same) = ground arith
Backed-held u a methods debit db d c (Backed.reserved configured covered set) =
    ground (arith, set.sums c)

-- An ad that is posted has read its arguments. Its creator has a P2P username, set now if there was
-- none; the price is the day's, and the limits are within the ad's value; it is the one row added,
-- active and with all its amount left. For a sell ad the creator has an account for each payment
-- method, and what the fills will debit was available in the P2P wallet and is reserved; a buy ad
-- takes nothing. No order changes, and what the market holds of every asset is the same.
pub create_listing_with_limits_posts :
    (u : ℕ) (side_text asset raw : Str) (method_texts : List Str)
    (username min_order max_order : Str) (db : P2pDb) {id : ℕ} {l : Listing} {db' : P2pDb}
    → create_listing_with_limits u side_text asset raw method_texts username min_order max_order db
      ≡ (ok (id, l), db')
    → (a : Asset) × (x : ℕ) × (side : Side) × (methods : List Method) × (normalize_p2p_asset asset
        ≡ ok a)
      × (validate_positive_amount raw ≡ ok x)
      × (normalize_p2p_side side_text ≡ ok side)
      × (normalize_payment_methods method_texts ≡ ok methods)
      × Posted u side a x raw methods min_order max_order id l db db'
      × ((c : Asset) → held c db' ≡ held c db)
unfolding create_listing_with_limits held
create_listing_with_limits_posts u side_text asset raw method_texts username min_order max_order db
      h =
    let (a, asset_read, k0) = given-bind _ _ db (transact-ok _ db h) in
    let (x, amount_read, k1) = given-bind _ _ db k0 in
    let (side, side_read, k2) = given-bind _ _ db k1 in
    let (methods, methods_read, k3) = given-bind _ _ db k2 in
    let p = price_ad-Posted u side a x raw methods username min_order max_order db k3 in
    (
      a,
      x,
      side,
      methods,
      asset_read,
      amount_read,
      side_read,
      methods_read,
      p,
      λ c.
          ground
            (arith, Backed-held u a methods p.fees.2 _ _ c p.backed, p.orders, p.admin_wallets),
    )
