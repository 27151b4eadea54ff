-- ===== src/P2p/Profile.antt =====
-- Payment methods, P2P usernames and payment accounts: `normalizePaymentMethods`, P2PProfile,
-- EstablishP2PUsername (internal/repo/p2p.go), PaymentAccounts and UpsertPaymentAccount
-- (internal/repo/p2p_workflow.go).
pub mod Laws
use dex_backend.Base.{
  ℕ, zero, suc, Bool, true, false, not, ◌&&◌, ◌||◌, ◌++◌, Option, none, some, List, [], ◌∷◌, ltb,
  leb, ◌==◌, length, if◌then◌else◌,
}
use dex_backend.Base.Key.{nat_key, pair_key}
use dex_backend.Result.{Result, ok, err, Err}
use dex_backend.Text.Bytes.{Str, bytes, str_eq, trim_space, to_upper, to_lower}
use dex_backend.Text.Decimal.{is_digit}
use dex_backend.Table.{Table, select, insert, update}
use dex_backend.Schema.{User, LedgerDb}
use dex_backend.Tx.{Tx, ◌>>=◌, ◌>>◌, pure, query, given, check, fail, transact}
use dex_backend.Ledger.{is_some}
use dex_backend.P2p.Schema.{Method, upi, bank_transfer, mpesn, neft, imps, PaymentAccount, P2pDb}
use dex_backend.P2p.Methods.{method_key, method_eq, method_name, method_of}

pub has_method : Method → List Method → Bool
has_method m [] = false
has_method m (k ∷ ks) = method_eq m k || has_method m ks

-- A method that was seen before is not listed again.
add_method : Method → List Method → List Method
unfolding has_method
add_method m out = if has_method m out then out else out ++ m ∷ []

collect_methods : List Str → List Method → Result (List Method)
unfolding add_method
collect_methods [] out = ok out
collect_methods (s ∷ ss) out = elim (method_of (trim_space s)) [
  | none ↦ err Err.bad_method
  | some m ↦ collect_methods ss (add_method m out)
]

some_method : Result (List Method) → Result (List Method)
some_method (ok []) = err Err.no_method
some_method (ok (m ∷ ms)) = ok (m ∷ ms)
some_method (err e) = err e

unfoldable pub normalize_payment_methods : List Str → Result (List Method)
unfolding collect_methods some_method
normalize_payment_methods methods = some_method (collect_methods methods [])

abbrev is_upper : ℕ → Bool
is_upper c = leb b'A' c && leb c b'Z'

abbrev is_word : ℕ → Bool
is_word c = is_upper c || (leb b'a' c && leb c b'z') || is_digit c || c == b'_'

every : (ℕ → Bool) → Str → Bool
every p [] = true
every p (c ∷ s) = p c && every p s

-- `p2pUsernamePattern`
unfoldable pub is_username : Str → Bool
unfolding every
is_username s = leb 3 (length s) && leb (length s) 24 && every is_word s

is_named : Str → Option Str → Bool
is_named name none = false
is_named name (some n) = str_eq (to_lower n) (to_lower name)

-- Another user has the name in some case, which the unique index on lower(p2p_username) refuses.
name_taken : ℕ → Str → Table ℕ User → Bool
unfolding is_named
name_taken user name [] = false
name_taken user name ((j, u) ∷ us) =
    (not (j == user) && is_named name u.p2p_username) || name_taken user name us

-- UPDATE users SET p2p_username = $2 WHERE id = $1
unfoldable pub set_username : ℕ → Str → Tx P2pDb (Unit {0})
unfolding name_taken
set_username user username = do
  taken ← query (λ db. name_taken user username db.ledger.users)
  check (not taken) Err.username_taken
  λ db. ok (
    tt,
    record db {
      ledger = record db.ledger {
        users = update user (λ u. record u { p2p_username = some username }) db.ledger.users;
      };
    },
  )

-- The row of … AND (p2p_username IS NULL OR p2p_username = $2), if it is there.
may_set : Str → Option User → Bool
may_set username none = false
may_set username (some u) = elim u.p2p_username [ none ↦ true | some n ↦ str_eq n username ]

unfoldable pub establish_p2p_username : ℕ → Str → P2pDb → Result Str × P2pDb
unfolding is_username set_username may_set
establish_p2p_username user text = transact do
  check (is_username (trim_space text)) Err.bad_username
  row ← query (λ db. select user db.ledger.users)
  check (may_set (trim_space text) row) Err.username_set
  set_username user (trim_space text)
  pure (trim_space text)

name_or_empty : Option Str → Str
name_or_empty none = []
name_or_empty (some n) = n

unfoldable pub p2p_profile : ℕ → P2pDb → Result Str
unfolding name_or_empty
p2p_profile user db = elim (select user db.ledger.users) [
  | none ↦ err Err.no_rows
  | some u ↦ ok (name_or_empty u.p2p_username)
]

abbrev is_bank : Method → Bool
is_bank bank_transfer = true
is_bank neft = true
is_bank imps = true
is_bank _ = false

-- What follows `k` bytes that pass the test.
skip : ℕ → (ℕ → Bool) → Str → Option Str
skip zero p s = some s
skip (suc k) p [] = none
skip (suc k) p (c ∷ s) = if p c then skip k p s else none

-- `ifscPattern`
ifsc_rest : Option Str → Bool
unfolding every
ifsc_rest none = false
ifsc_rest (some []) = false
ifsc_rest (some (c ∷ s)) = c == b'0' && length s == 6 && every (λ d. is_upper d || is_digit d) s

unfoldable pub is_ifsc : Str → Bool
unfolding skip ifsc_rest
is_ifsc s = ifsc_rest (skip 4 is_upper s)

abbrev outside : ℕ → ℕ → Str → Bool
outside lo hi s = ltb (length s) lo || ltb hi (length s)

-- The bank's name and code are kept for the bank methods only.
bank_fields : Bool → Str → Str → Tx P2pDb (Str × Str)
bank_fields true bank ifsc = do
  check (not (outside 2 100 bank)) Err.bad_bank
  check (is_ifsc ifsc) Err.bad_ifsc
  pure (bank, ifsc)
bank_fields false bank ifsc = pure ([], [])

first_method : List Method → Tx P2pDb Method
first_method [] = fail Err.no_method
first_method (m ∷ ms) = pure m

-- INSERT … ON CONFLICT (user_id, method) DO UPDATE, with the foreign key to users.
put_account : ℕ → Method → PaymentAccount → Tx P2pDb PaymentAccount
put_account user m account = do
  old ← query (λ db. select (user, m) db.payment_accounts)
  known ← query (λ db. is_some (select user db.ledger.users))
  check (is_some old || known) Err.violates
  λ db. ok (
    account,
    record db {
      payment_accounts =
          if is_some old
          then update (user, m) (λ _. account) db.payment_accounts
          else insert (user, m) account db.payment_accounts;
    },
  )

unfoldable pub upsert_payment_account :
    ℕ → Str → Str → Str → Str → Str → Str → P2pDb → Result PaymentAccount × P2pDb
unfolding first_method bank_fields put_account normalize_payment_methods is_ifsc
upsert_payment_account user method name identifier instructions bank ifsc = transact do
  ms ← given (normalize_payment_methods (method ∷ []))
  m ← first_method ms
  check (not (outside 2 100 (trim_space name))) Err.bad_account_name
  check (not (outside 2 200 (trim_space identifier))) Err.bad_identifier
  check (not (outside 0 500 (trim_space instructions))) Err.bad_instructions
  bank_and_code ← bank_fields (is_bank m) (trim_space bank) (to_upper (trim_space ifsc))
  put_account user m (record {
    account_name = trim_space name;
    account_identifier = trim_space identifier;
    bank_name = bank_and_code.0;
    ifsc_code = bank_and_code.1;
    instructions = trim_space instructions;
  })
