-- ===== src/P2p/Fees/Laws.antt =====
-- The fee's arithmetic.
use dex_backend.Base.{ℕ, zero, suc, ◌+◌, ◌-◌, ◌*◌, ◌/◌, ◌≤◌, ◌<◌, ◌≡◌, some, arith}
use dex_backend.Result.{ok}
use dex_backend.Text.Bytes.{Str}
use dex_backend.Text.Decimal.{pos, set_string}
use dex_backend.P2p.Fees.{settle_amount, p2p_biusd_settlement}

-- Every positive amount is settled: the fee is its hundredth, rounded down, the buyer's credit and
-- one fee make up the amount, and the seller's debit is the credit and both fees. The credit is
-- positive.
pub p2p_biusd_settlement_splits :
    (raw : Str) (n : ℕ)
    → set_string raw ≡ some (pos n)
    → 0 < n
    → (fee : ℕ) × (credit : ℕ) × (debit : ℕ) × (p2p_biusd_settlement raw ≡ ok (fee, credit, debit))
      × (fee * 100 ≤ n)
      × (n < fee * 100 + 100)
      × (credit + fee ≡ n)
      × (debit ≡ credit + fee + fee)
      × (0 < credit)
unfolding p2p_biusd_settlement settle_amount
p2p_biusd_settlement_splits raw zero read positive = absurd (omega arith)
p2p_biusd_settlement_splits raw (suc n) read positive = (
  suc n / 100,
  suc n - suc n / 100,
  suc n + suc n / 100,
  ground arith,
  omega arith,
  omega arith,
  omega arith,
  omega arith,
  omega arith,
)

pub debit_lem :
    (raw : Str) (n : ℕ) {fee credit debit : ℕ}
    → set_string raw ≡ some (pos n)
    → p2p_biusd_settlement raw ≡ ok (fee, credit, debit)
    → debit ≡ n + n / 100
unfolding p2p_biusd_settlement settle_amount
debit_lem raw zero read settled = ground arith
debit_lem raw (suc n) read settled = ground arith

-- What two orders debit is at most what an ad of both amounts reserves for them, and short of it by
-- at most one raw unit.
pub settlement_covers :
    (a b s : Str) (m n : ℕ) {fa ca da fb cb db fs cs ds : ℕ}
    → set_string a ≡ some (pos m)
    → set_string b ≡ some (pos n)
    → set_string s ≡ some (pos (m + n))
    → p2p_biusd_settlement a ≡ ok (fa, ca, da)
    → p2p_biusd_settlement b ≡ ok (fb, cb, db)
    → p2p_biusd_settlement s ≡ ok (fs, cs, ds)
    → (da + db ≤ ds) × (ds ≤ da + db + 1)
settlement_covers a b s m n ra rb rs ea eb es =
    let of_a = debit_lem a m ra ea in
    let of_b = debit_lem b n rb eb in
    let of_s = debit_lem s (m + n) rs es in (omega arith, omega arith)
