-- ===== src/P2p/Funding/Steps.antt =====
-- One funding, statement by statement.
use dex_backend.Base.{
  ℕ, ◌+◌, ◌-◌, ◌≤◌, ◌≡◌, ◌∙◌, refl, ap, ◌&&◌, inl, inr, Bool, true, none, some, List, ◌∷◌, ◌==◌,
  leb, leb→le, ==_iff, arith, if◌then◌else◌,
}
use mathlib.Core.Path.{subst}
use dex_backend.Base.Key.{nat_key, pair_key}
use dex_backend.Result.{Result, ok, err}
use dex_backend.Text.Bytes.{Str}
use dex_backend.Text.{str_eq_iff}
use dex_backend.Asset.{Asset, asset_eq}
use dex_backend.Asset.Laws.{asset_eq_iff, asset_key}
use dex_backend.Table.{select}
use dex_backend.Schema.{LedgerDb, set_balance}
use dex_backend.Tx.{Tx}
use dex_backend.Tx.Laws.{bind-ok, query-bind, found-ok, check-bind}
use dex_backend.Ledger.{pending_withdrawal_hold, lock_balance_tx, update_balances}
use dex_backend.Ledger.Cells.{balance_of, locked_of, total, Wrote, lock_balance_tx-Same}
use dex_backend.Ledger.Cells.Writes.{OnCell, locked_write}
use dex_backend.Ledger.Holds.Laws.{hold-Keeps}
use dex_backend.P2p.Schema.{P2pWallet, main_to_p2p, WalletEntry, P2pDb}
use dex_backend.P2p.{insert_wallet_entry}
use dex_backend.P2p.Holdings.{wallet_of, held, Set, Locked, Locked-Set}
use dex_backend.P2p.Funding.{with_ledger, on_ledger, prior_funding, wallet_tx, move_funds}

with_ledger-ok :
    {A : Type 0} (r : Result (A × LedgerDb)) (db : P2pDb) {a : A} {d : P2pDb}
    → with_ledger r db ≡ ok (a, d)
    → (r ≡ ok (a, d.ledger)) × (d ≡ record db { ledger = d.ledger })
unfolding with_ledger
with_ledger-ok (ok (b, l)) db h = (ground arith, ground arith)
with_ledger-ok (err x) db h = cc

pub on_ledger-ok :
    {A : Type 0} (m : Tx LedgerDb A) (db : P2pDb) {a : A} {d : P2pDb}
    → on_ledger m db ≡ ok (a, d)
    → (m db.ledger ≡ ok (a, d.ledger)) × (d ≡ record db { ledger = d.ledger })
unfolding on_ledger
on_ledger-ok m db h = with_ledger-ok (m db.ledger) db h

abbrev pub deposit_in : ℕ → P2pWallet → P2pWallet
deposit_in x w = record w { available = w.available + x }

abbrev pub funding_entry : ℕ → Asset → ℕ → Str → WalletEntry
funding_entry u a x key = record {
  user_id = u;
  listing_id = none;
  order_id = none;
  kind = main_to_p2p;
  asset = a;
  amount = x;
  idempotency_key = some key;
}

-- `x` of asset `a` went from the main wallet of user `u`, which had it beside what is locked and held,
-- to the P2P wallet, and is recorded under the key.
pub record Funded (u : ℕ) (a : Asset) (x : ℕ) (key : Str) (db db' : P2pDb) : Type 0 where
  pub covered :
      x + locked_of db.ledger u a + pending_withdrawal_hold u a db.ledger ≤ balance_of db.ledger u a
  pub ledger :
      Wrote u a (balance_of db.ledger u a - x) (locked_of db.ledger u a) db.ledger db'.ledger
  pub wallets :
      (v : ℕ) (c : Asset)
      → wallet_of db'.wallets v c ≡ (
          if u == v && asset_eq a c
          then deposit_in x (wallet_of db.wallets v c)
          else wallet_of db.wallets v c)
  pub recorded : prior_funding u key db'.wallet_entries ≡ some (funding_entry u a x key)
  pub conserves : (c : Asset) → total c db'.ledger + held c db' ≡ total c db.ledger + held c db

fund-OnCell :
    (u : ℕ) (a : Asset) (x hold : ℕ)
    → OnCell u a
        (λ r. leb (x + r.locked a + hold) (r.balance a))
        (λ r. set_balance a (r.balance a - x) r)
        (λ b l. leb (x + l + hold) b)
        (λ b l. b - x)
        (λ b l. l)
fund-OnCell u a x hold = record {
  tests = λ r. refl;
  sets_balance = λ r c. refl;
  sets_locked = λ r c. ground (arith, asset_eq_iff a c);
}

Locked-ledger :
    (u : ℕ) (a : Asset) (db d e : P2pDb)
    → Locked u a db d
    → e ≡ record d { ledger = e.ledger }
    → Locked u a (record db { ledger = e.ledger }) e
Locked-ledger u a db d e locked e_is = record {
  row = ground (arith, locked.row);
  wallets = λ v c. ground (arith, locked.wallets v c);
  sums = λ c. ground (arith, locked.sums c);
  rest = ground (arith, locked.rest);
}

-- What the two updates amount to.
Funded-intro :
    (u : ℕ) (a : Asset) (x : ℕ) (key : Str) (db mid e db' : P2pDb)
    → x + locked_of db.ledger u a + pending_withdrawal_hold u a db.ledger ≤ balance_of db.ledger u a
    → Wrote u a (balance_of db.ledger u a - x) (locked_of db.ledger u a) db.ledger db'.ledger
    → Set u a (deposit_in x) mid e
    → mid.wallets ≡ db.wallets
    → db'.wallets ≡ e.wallets
    → db'.admin_wallets ≡ db.admin_wallets
    → db'.orders ≡ db.orders
    → prior_funding u key db'.wallet_entries ≡ some (funding_entry u a x key)
    → Funded u a x key db db'
Funded-intro u a x key db mid e db' covered wrote set before after fees orders recorded = record {
  covered = covered;
  ledger = wrote;
  wallets = λ v c. ground (arith, set.wallets v c, ==_iff u v, asset_eq_iff a c);
  recorded = recorded;
  conserves = λ c. unfold held in ground (arith, wrote.totals c, set.sums c);
}

funding-found :
    (u : ℕ) (a : Asset) (x : ℕ) (key : Str) (es : List WalletEntry)
    → prior_funding u key (funding_entry u a x key ∷ es) ≡ some (funding_entry u a x key)
unfolding prior_funding
funding-found u a x key es = ground (arith, ==_iff u u, str_eq_iff key key)

pub move_funds-Funded :
    (u : ℕ) (a : Asset) (x : ℕ) (key : Str) (db d1 d2 : P2pDb) {y : Unit {0}} {w : P2pWallet}
    {moved : Bool} {db' : P2pDb}
    → on_ledger (lock_balance_tx u) db ≡ ok (y, d1)
    → Locked u a d1 d2
    → move_funds u a x key d2 ≡ ok ((w, moved), db')
    → (moved ≡ true) × Funded u a x key db db' × (select (u, a) db'.wallets ≡ some w)
unfolding move_funds wallet_tx insert_wallet_entry
move_funds-Funded u a x key db d1 d2 {db' = db'} locks locked h =
    let (locks', d1_is) = on_ledger-ok _ db locks in
    let (n, d3, h1, k1) = bind-ok _ _ d2 (query-bind _ _ d2 h) in
    let (updates, d3_is) = on_ledger-ok _ d2 h1 in
    let (one_row, k2) = check-bind _ _ _ d3 k1 in
    let (m, d4, h2, k3) = bind-ok _ _ d3 k2 in
    let (_, d5, h3, k4) = bind-ok _ _ d4 k3 in
    let (w, d6, h4, k5) = bind-ok _ _ d5 k4 in
    let (there, same) = found-ok _ _ d5 (query-bind _ _ d5 h4) in
    let set = Locked-Set u a (deposit_in x) _ (Locked-ledger u a d1 d2 d3 locked d3_is) h2 in
    let hold = pending_withdrawal_hold u a d2.ledger in
    let held_same : hold ≡ pending_withdrawal_hold u a db.ledger =
      ap (pending_withdrawal_hold u a) (ap (λ (d : P2pDb). d.ledger) locked.rest)
      ∙ hold-Keeps u a (lock_balance_tx-Same u db.ledger locks').keeps in
    let run : update_balances u (λ r. leb (x + r.locked a + hold) (r.balance a))
          (λ r. set_balance a (r.balance a - x) r) d1.ledger
        ≡ ok (n, d3.ledger) =
      ground (arith, locked.rest) in
    elim (locked_write u a _ _ _ _ _ db.ledger (fund-OnCell u a x hold) locks' run) [
      | inl (no_row, _, _) ↦ absurd (ground arith)
      | inr (_, covered, wrote) ↦
          let ledger : d3.ledger ≡ db'.ledger = ground (arith, set.rest) in
          let entries : db'.wallet_entries ≡ funding_entry u a x key ∷ d4.wallet_entries =
            ground arith in
          (
            ground arith,
            Funded-intro u a x key db (record d1 { ledger = d3.ledger }) d4 db'
                (ground (arith, leb→le _ _ covered, held_same))
                (subst
                  (Wrote u a (balance_of db.ledger u a - x) (locked_of db.ledger u a) db.ledger)
                  ledger wrote)
                set (ground arith) (ground arith) (ground (arith, set.rest))
                (ground (arith, set.rest))
                (ap (prior_funding u key) entries ∙ funding-found u a x key d4.wallet_entries),
            ground arith,
          )
    ]
