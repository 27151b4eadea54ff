-- ===== src/P2p/Funding/Laws.antt =====
-- Funding moves an amount from the main wallet to the P2P wallet, once per key.
use dex_backend.Base.{
  ℕ, ◌≡◌, ◌∙◌, ap, ◌⊎◌, inl, inr, Bool, true, false, none, some, arith, Option-cases,
}
use mathlib.Core.Path.{subst}
use dex_backend.Base.Key.{nat_key, pair_key}
use dex_backend.Result.{ok}
use dex_backend.Text.Bytes.{Str}
use dex_backend.Text.Decimal.{string}
use dex_backend.Text.{str_eq_iff}
use dex_backend.Asset.{Asset}
use dex_backend.Asset.Laws.{asset_eq_iff, asset_key}
use dex_backend.Table.{select}
use dex_backend.Tx.Laws.{bind-ok, query-bind, found-ok, given-bind, check-bind, transact-ok}
use dex_backend.Ledger.{validate_positive_amount, lock_balance_tx}
use dex_backend.Ledger.Cells.{Same, lock_balance_tx-Same}
use dex_backend.P2p.Schema.{P2pWallet, WalletEntry, P2pDb}
use dex_backend.P2p.Holdings.{held, wallet_of, Locked, lock_wallet-Locked}
use dex_backend.P2p.Funding.{
  on_ledger, normalize_p2p_asset, validate_idempotency_key, prior_funding, wallet_tx, replay,
  move_funds, fund_or_replay, fund_wallet_asset,
}
use dex_backend.P2p.Funding.Steps.{on_ledger-ok, funding_entry, Funded, move_funds-Funded}

-- The arguments of a funding request, read.
pub record Requests (asset raw idempotency_key : Str) (a : Asset) (x : ℕ) (key : Str) : Type 0 where
  pub asset_read : normalize_p2p_asset asset ≡ ok a
  pub amount_read : validate_positive_amount raw ≡ ok x
  pub key_read : validate_idempotency_key idempotency_key true ≡ ok key

-- The key was used before, for the same asset and an amount that prints as the text given.
pub record Replayed (u : ℕ) (raw key : Str) (a : Asset) (db db' : P2pDb) : Type 0 where
  pub entry : WalletEntry
  pub prior : prior_funding u key db.wallet_entries ≡ some entry
  pub same_asset : entry.asset ≡ a
  pub same_amount : string entry.amount ≡ raw
  pub balances : Same db.ledger db'.ledger
  pub wallets : (v : ℕ) (c : Asset) → wallet_of db'.wallets v c ≡ wallet_of db.wallets v c
  pub entries : db'.wallet_entries ≡ db.wallet_entries
  pub stays : (c : Asset) → held c db' ≡ held c db

replay-Replayed :
    (u : ℕ) (raw key : Str) (a : Asset) (e : WalletEntry) (db d1 d2 : P2pDb) {y : Unit {0}}
    {w : P2pWallet} {moved : Bool} {db' : P2pDb}
    → on_ledger (lock_balance_tx u) db ≡ ok (y, d1)
    → Locked u a d1 d2
    → prior_funding u key d2.wallet_entries ≡ some e
    → replay u a raw e d2 ≡ ok ((w, moved), db')
    → (moved ≡ false) × Replayed u raw key a db db' × (select (u, a) db'.wallets ≡ some w)
unfolding replay wallet_tx
replay-Replayed u raw key a e db d1 d2 {db' = db'} locks locked prior h =
    let (locks', d1_is) = on_ledger-ok _ db locks in
    let (fits, k0) = check-bind _ _ _ d2 h in
    let (w, d3, h1, k1) = bind-ok _ _ d2 k0 in
    let (there, same) = found-ok _ _ d2 (query-bind _ _ d2 h1) in
    (
      ground arith,
      record {
        entry = e;
        prior =
            ap (prior_funding u key) {x = db.wallet_entries} {y = d2.wallet_entries}
              (ground (arith, locked.rest))
            ∙ prior;
        same_asset = ground (arith, asset_eq_iff e.asset a);
        same_amount = ground (arith, str_eq_iff (string e.amount) raw);
        balances =
            subst (Same db.ledger) {x = d1.ledger} (ground (arith, locked.rest))
              (lock_balance_tx-Same u db.ledger locks');
        wallets = λ v c. ground (arith, locked.wallets v c);
        entries = ground (arith, locked.rest);
        stays = λ c. unfold held in ground (arith, locked.rest, locked.sums c);
      },
      ground arith,
    )

fund_or_replay-cases :
    (u : ℕ) (a : Asset) (x : ℕ) (raw key : Str) (db d1 d2 : P2pDb) {y : Unit {0}} {w : P2pWallet}
    {moved : Bool} {db' : P2pDb}
    → on_ledger (lock_balance_tx u) db ≡ ok (y, d1)
    → Locked u a d1 d2
    → fund_or_replay u a x raw key (prior_funding u key d2.wallet_entries) d2 ≡ ok ((w, moved), db')
    → (select (u, a) db'.wallets ≡ some w)
      × (((moved ≡ true) × (prior_funding u key db.wallet_entries ≡ none) × Funded u a x key db db')
          ⊎ ((moved ≡ false) × Replayed u raw key a db db'))
unfolding fund_or_replay
fund_or_replay-cases u a x raw key db d1 d2 {w = w} {moved} {db'} locks locked h =
    let entries : db.wallet_entries ≡ d2.wallet_entries =
      ground (arith, locked.rest, (on_ledger-ok _ db locks).1) in
    elim (Option-cases (prior_funding u key d2.wallet_entries)) [
      | inl new ↦
          let run : move_funds u a x key d2 ≡ ok ((w, moved), db') = ground arith in
          let (reports, funded, there) = move_funds-Funded u a x key db d1 d2 locks locked run in
          (there, inl (reports, ap (prior_funding u key) entries ∙ new, funded))
      | inr (e, used) ↦
          let run : replay u a raw e d2 ≡ ok ((w, moved), db') = ground arith in
          let (reports, replayed, there) =
            replay-Replayed u raw key a e db d1 d2 locks locked used run in
          (there, inr (reports, replayed))
    ]

-- A funding request that succeeds has read its arguments, and returns the user's wallet as it then
-- is. Either it reports that it moved the amount: no funding with that key was recorded, the main
-- balance covered the amount beside what is locked and held, the amount went from that balance to
-- the P2P wallet, no other balance, lock or wallet changed, what both hold together of every asset
-- is the same, and the key is recorded. Or it reports that it did not: the key was recorded for the
-- same asset and an amount printed as the text given, and no balance, wallet or entry changed, nor what
-- the market holds of any asset.
pub fund_wallet_asset_moves :
    (u : ℕ) (asset raw idempotency_key : Str) (db : P2pDb) {w : P2pWallet} {moved : Bool}
    {db' : P2pDb}
    → fund_wallet_asset u asset raw idempotency_key db ≡ (ok (w, moved), db')
    → (a : Asset) × (x : ℕ) × (key : Str) × Requests asset raw idempotency_key a x key
      × (select (u, a) db'.wallets ≡ some w)
      × (((moved ≡ true) × (prior_funding u key db.wallet_entries ≡ none) × Funded u a x key db db')
          ⊎ ((moved ≡ false) × Replayed u raw key a db db'))
unfolding fund_wallet_asset
fund_wallet_asset_moves u asset raw idempotency_key db {w} {moved} {db'} h =
    let (a, asset_read, k0) = given-bind _ _ db (transact-ok _ db h) in
    let (x, amount_read, k1) = given-bind _ _ db k0 in
    let (key, key_read, k2) = given-bind _ _ db k1 in
    let (_, d1, h1, k3) = bind-ok _ _ db k2 in
    let (_, d2, h2, k4) = bind-ok _ _ d1 k3 in
    let locked = lock_wallet-Locked u a d1 h2 in
    let read : Requests asset raw idempotency_key a x key = record {
      asset_read = asset_read;
      amount_read = amount_read;
      key_read = key_read;
    } in
    let (there, outcome) =
      fund_or_replay-cases u a x raw key db d1 d2 h1 locked (query-bind _ _ d2 k4) in
    (a, x, key, read, there, outcome)

used_key :
    (u : ℕ) (raw key : Str) (a : Asset) (x : ℕ) (db d : P2pDb) {moved : Bool}
    → ((moved ≡ true) × (prior_funding u key db.wallet_entries ≡ none) × Funded u a x key db d)
      ⊎ ((moved ≡ false) × Replayed u raw key a db d)
    → (e : WalletEntry) × (prior_funding u key d.wallet_entries ≡ some e)
used_key u raw key a x db d (inl (_, _, funded)) = (funding_entry u a x key, funded.recorded)
used_key u raw key a x db d (inr (_, replayed)) =
    (replayed.entry, ap (prior_funding u key) replayed.entries ∙ replayed.prior)

-- After a funding request that succeeds, another one of the same user with the same key, whatever
-- asset and amount it names, moves nothing if it succeeds: it reports so, and no main balance and no
-- wallet changes.
pub fund_wallet_asset_once :
    (u : ℕ) (asset raw asset' raw' idempotency_key : Str) (db : P2pDb) {w w' : P2pWallet}
    {moved moved' : Bool} {d d' : P2pDb}
    → fund_wallet_asset u asset raw idempotency_key db ≡ (ok (w, moved), d)
    → fund_wallet_asset u asset' raw' idempotency_key d ≡ (ok (w', moved'), d')
    → (moved' ≡ false)
      × Same d.ledger d'.ledger
      × ((v : ℕ) (c : Asset) → wallet_of d'.wallets v c ≡ wallet_of d.wallets v c)
fund_wallet_asset_once u asset raw asset' raw' idempotency_key db {d = d} {d' = d'} first second =
    let (a, x, key, read, _, outcome) =
      fund_wallet_asset_moves u asset raw idempotency_key db first in
    let (b, y, key', read', _, outcome') =
      fund_wallet_asset_moves u asset' raw' idempotency_key d second in
    let same_key : key ≡ key' = ground (arith, read.key_read, read'.key_read) in
    let (e, used) = used_key u raw key a x db d outcome in
    elim outcome' [
      | inl (_, new, _) ↦ absurd (ground arith)
      | inr (reports, replayed) ↦ (reports, replayed.balances, replayed.wallets)
    ]
