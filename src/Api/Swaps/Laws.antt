-- ===== src/Api/Swaps/Laws.antt =====
-- A swap is one to one into BIUSD, and costs one percent out of it.
use dex_backend.Base.{
  ℕ, ◌+◌, ◌-◌, ◌*◌, ◌/◌, ◌<◌, ◌≤◌, ◌≡◌, refl, ap, sym, ◌∙◌, ◌⊎◌, inl, inr, Bool, true, false, ◌&&◌,
  ◌||◌, some, arith, ◌==◌, Bool-cases,
}
use mathlib.Core.Path.{subst}
use dex_backend.Result.{Result, ok, err, Result-cases}
use dex_backend.Text.Bytes.{Str, str_eq, trim_space, to_upper}
use dex_backend.Text.Laws.{str_eq_iff}
use dex_backend.Text.Decimal.{string, pos, set_string}
use dex_backend.Asset.{Asset, usdt, usdc, biusd, name}
use dex_backend.Asset.Laws.{normalize_asset-name}
use dex_backend.Schema.{LedgerDb}
use dex_backend.Ledger.{validate_positive_amount}
use dex_backend.Ledger.Amounts.{positive_amount, amount_of_string}
use dex_backend.Ledger.Transfers.{swap_balance}
use dex_backend.Ledger.Transfers.Laws.{Swapped, swap_balance_exchanges}
use dex_backend.Api.{Claims}
use dex_backend.Api.Swaps.{
  SwapReply, fee_or_zero, swap_destinations, swap_fee_rate, fee_amount_of, answer_swap, swap_amount,
  swap_assets, swap,
}

-- The conversions on offer, with what each costs of `x`.
pub data Rate (x : ℕ) : Asset → Asset → ℕ → Type 0 where
  usdt_in : Rate x usdt biusd 0
  usdc_in : Rate x usdc biusd 0
  usdt_out : Rate x biusd usdt (x * 100 / 10000)
  usdc_out : Rate x biusd usdc (x * 100 / 10000)

-- A conversion that is offered, by its names.
record Offered (x : ℕ) (source destination : Str) : Type 0 where
  a : Asset
  b : Asset
  fee : ℕ
  source_is : source ≡ name a
  destination_is : destination ≡ name b
  rate : Rate x a b fee
  fee_is : fee_or_zero (fee_amount_of (swap_fee_rate destination) x) ≡ fee

into_biusd :
    (x : ℕ) (d : Str) → d ≡ name biusd → fee_or_zero (fee_amount_of (swap_fee_rate d) x) ≡ 0
unfolding swap_fee_rate fee_amount_of
into_biusd x d h = rw h refl

out_usdt :
    (x : ℕ) (d : Str)
    → d ≡ name usdt
    → fee_or_zero (fee_amount_of (swap_fee_rate d) x) ≡ x * 100 / 10000
unfolding swap_fee_rate fee_amount_of
out_usdt x d h = rw h refl

out_usdc :
    (x : ℕ) (d : Str)
    → d ≡ name usdc
    → fee_or_zero (fee_amount_of (swap_fee_rate d) x) ≡ x * 100 / 10000
unfolding swap_fee_rate fee_amount_of
out_usdc x d h = rw h refl

both : (p q r : Bool) → (p && (q || r)) ≡ true → (p ≡ true) × ((q ≡ true) ⊎ (r ≡ true))
both true true r h = (refl, inl refl)
both true false r h = (refl, inr h)
both false q r h = cc

offered : (x : ℕ) (s d : Str) → swap_destinations s d ≡ true → Offered x s d
unfolding swap_destinations
offered x s d h = elim (Bool-cases (str_eq s (name usdt))) [
  | inl is_usdt ↦
      let s_is = (str_eq_iff s (name usdt)).0 is_usdt in
      let d_is : d ≡ name biusd = (str_eq_iff d (name biusd)).0 (ground arith) in
      record {
        a = usdt;
        b = biusd;
        fee = 0;
        source_is = s_is;
        destination_is = d_is;
        rate = usdt_in;
        fee_is = into_biusd x d d_is;
      }
  | inr not_usdt ↦ elim (Bool-cases (str_eq s (name usdc))) [
    | inl is_usdc ↦
        let s_is = (str_eq_iff s (name usdc)).0 is_usdc in
        let d_is : d ≡ name biusd = (str_eq_iff d (name biusd)).0 (ground arith) in
        record {
          a = usdc;
          b = biusd;
          fee = 0;
          source_is = s_is;
          destination_is = d_is;
          rate = usdc_in;
          fee_is = into_biusd x d d_is;
        }
    | inr not_usdc ↦
        let (from_, to_) =
          both (str_eq s (name biusd)) (str_eq d (name usdt)) (str_eq d (name usdc))
            (ground arith) in
        let s_is : s ≡ name biusd = (str_eq_iff s (name biusd)).0 from_ in
        elim to_ [
          | inl to_usdt ↦
              let d_is = (str_eq_iff d (name usdt)).0 to_usdt in
              record {
                a = biusd;
                b = usdt;
                fee = x * 100 / 10000;
                source_is = s_is;
                destination_is = d_is;
                rate = usdt_out;
                fee_is = out_usdt x d d_is;
              }
          | inr to_usdc ↦
              let d_is = (str_eq_iff d (name usdc)).0 to_usdc in
              record {
                a = biusd;
                b = usdc;
                fee = x * 100 / 10000;
                source_is = s_is;
                destination_is = d_is;
                rate = usdc_out;
                fee_is = out_usdc x d d_is;
              }
        ]
  ]
]

Rate-le : {x : ℕ} {a b : Asset} {fee : ℕ} → Rate x a b fee → fee ≤ x
Rate-le usdt_in = omega arith
Rate-le usdc_in = omega arith
Rate-le usdt_out = omega arith
Rate-le usdc_out = omega arith

answer_swap-ok :
    (r : SwapReply) (p : Result (Unit {0}) × LedgerDb) {q : SwapReply} {d : LedgerDb}
    → answer_swap r p ≡ (ok q, d)
    → (q ≡ r) × (p ≡ (ok tt, d))
unfolding answer_swap
answer_swap-ok r (ok u, db) h = ground arith
answer_swap-ok r (err x, db) h = ground arith

-- The balances after `swap_balance` of printed amounts.
exchanged :
    (u x y : ℕ) (a b : Asset) (db : LedgerDb) {d : LedgerDb}
    → 0 < x
    → 0 < y
    → swap_balance u (name a) (string x) (name b) (string y) db ≡ (ok tt, d)
    → Swapped u a b x y db d
exchanged u x y a b db {d} x_pos y_pos h =
    let (a', x', b', y', from_, to_, swapped) =
      swap_balance_exchanges u (name a) (string x) (name b) (string y) db h in
    let a_is : a' ≡ a = ground (arith, from_, normalize_asset-name a) in
    let b_is : b' ≡ b = ground (arith, to_, normalize_asset-name b) in
    let x_is : x' ≡ x = ground (arith, from_, amount_of_string x x_pos) in
    let y_is : y' ≡ y = ground (arith, to_, amount_of_string y y_pos) in
    rw (← a_is, ← b_is, ← x_is, ← y_is) swapped

-- The fee of a conversion on offer is charged of `x`: that leaves the source asset, and `y` comes to
-- the destination asset.
abbrev pub Charges : ℕ → ℕ → ℕ → LedgerDb → LedgerDb → Type 0
Charges u x y db db' =
    (a : Asset) × (b : Asset) × (fee : ℕ) × Rate x a b fee
    × (y + fee ≡ x)
    × Swapped u a b x y db db'

-- A swap of a positive amount along an offered conversion.
amount-Charges :
    (u x : ℕ) (s d : Str) (db : LedgerDb) {r : SwapReply} {db' : LedgerDb}
    → 0 < x
    → Offered x s d
    → swap_amount u s d (ok x) db ≡ (ok r, db')
    → (r.amount ≡ x) × Charges u x r.credited_amount db db'
unfolding swap_amount
amount-Charges u x s d db {r} {db'} x_pos o h =
    let fee = fee_or_zero (fee_amount_of (swap_fee_rate d) x) in
    let fee_is = o.fee_is in
    elim (Bool-cases (x - fee == 0)) [
      | inl too_small ↦ absurd (ground arith)
      | inr enough ↦
          let y = x - fee in
          let reply : SwapReply = record {
            amount = x;
            credited_amount = y;
            fee_amount = fee_amount_of (swap_fee_rate d) x;
          } in
          let (r_is, done) =
            answer_swap-ok reply (swap_balance u s (string x) d (string y) db) {q = r} {d = db'}
              (ground arith) in
          let amount_is : r.amount ≡ x = ap (λ (q : SwapReply). q.amount) r_is in
          let credited_is : r.credited_amount ≡ x - fee =
            ap (λ (q : SwapReply). q.credited_amount) r_is in
          let y_pos : 0 < x - fee = ground arith in
          let swapped : Swapped u o.a o.b x (x - fee) db db' =
            exchanged u x (x - fee) o.a o.b db x_pos y_pos
              (rw (← o.source_is, ← o.destination_is) done) in
          let charges : Charges u x (x - fee) db db' =
            (o.a, o.b, o.fee, o.rate, omega (arith, Rate-le o.rate), swapped) in
          (amount_is, subst (λ n. Charges u x n db db') (sym credited_is) charges)
    ]

-- A swap that is answered with success has read a positive amount of one of the four conversions on
-- offer. The user had the amount in the source asset, which is debited in full; the same number less
-- the fee of that conversion is credited in the destination asset and reported as such, and no other
-- balance and no lock changes.
pub swap-Charges :
    (c : Claims) (amount source destination : Str) (db : LedgerDb) {r : SwapReply} {db' : LedgerDb}
    → swap (some c) amount source destination db ≡ (ok r, db')
    → (set_string amount ≡ some (pos r.amount))
      × (0 < r.amount)
      × Charges c.user_id r.amount r.credited_amount db db'
unfolding swap swap_assets swap_amount
swap-Charges c amount source destination db {r} {db'} h =
    let s = to_upper (trim_space source) in
    let d = to_upper (trim_space destination) in
    elim (Bool-cases (str_eq s d)) [
      | inl same ↦ absurd (ground arith)
      | inr differ ↦ elim (Bool-cases (swap_destinations s d)) [
        | inr refused ↦ absurd (ground arith)
        | inl offers ↦ elim (Result-cases (validate_positive_amount amount)) [
          | inr (e, unread) ↦ absurd (ground arith)
          | inl (x, read) ↦
              let (text, x_pos) = positive_amount amount read in
              let done : swap_amount c.user_id s d (ok x) db ≡ (ok r, db') = ground arith in
              let (amount_is, charges) =
                amount-Charges c.user_id x s d db x_pos (offered x s d offers) done in
              (
                text ∙ ap (λ n. some (pos n)) (sym amount_is),
                subst (λ n. 0 < n) (sym amount_is) x_pos,
                subst (λ n. Charges c.user_id n r.credited_amount db db') (sym amount_is) charges,
              )
        ]
      ]
    ]
