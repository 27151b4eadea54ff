-- ===== src/P2p/Profile/Laws.antt =====
-- Payment methods are listed once, and a username is permanent.
use mathlib.Core.List.{append-nil, append_assoc}
use dex_backend.Base.{
  ℕ, ◌≡◌, ◌≢◌, refl, sym, ap, ◌∙◌, true, false, ◌||◌, ◌++◌, map, some, List, [], ◌∷◌, ◌==◌, ==_iff,
  arith, inl, inr, Bool-cases, Option-cases,
}
use mathlib.Core.Path.{subst}
use dex_backend.Base.Key.{nat_key}
use dex_backend.Result.{Result, ok, err, Result-cases}
use dex_backend.Text.Bytes.{Str, trim_space}
use dex_backend.Text.{str_eq_iff}
use dex_backend.Table.{select, update}
use dex_backend.Table.Laws.{select-update_self, select-update_ne}
use dex_backend.Schema.{User}
use dex_backend.Tx.Laws.{bind-ok, query-bind, check-bind, transact-ok, transact-err}
use dex_backend.P2p.Schema.{Method, upi, bank_transfer, mpesn, neft, imps, P2pDb}
use dex_backend.P2p.Methods.{method_eq, method_eq_iff, method_name, method_of, method_of-name}
use dex_backend.P2p.Profile.{
  has_method, add_method, collect_methods, some_method, normalize_payment_methods, is_username,
  may_set, set_username, establish_p2p_username,
}

abbrev pub Distinct : List Method → Type 0
Distinct [] = Unit {0}
Distinct (m ∷ ms) = (has_method m ms ≡ false) × Distinct ms

has_method-append :
    (m : Method) (ks ms : List Method)
    → has_method m (ks ++ ms) ≡ has_method m ks || has_method m ms
unfolding has_method
has_method-append m [] ms = refl
has_method-append m (k ∷ ks) ms = ground (arith, has_method-append m ks ms)

Distinct-append :
    (ks : List Method) (m : Method)
    → Distinct ks
    → has_method m ks ≡ false
    → Distinct (ks ++ m ∷ [])
unfolding has_method
Distinct-append [] m h new = (refl, tt)
Distinct-append (k ∷ ks) m (hk, h) new =
    let apart : method_eq k m ≡ false = ground (arith, method_eq_iff k m, method_eq_iff m k) in
    (has_method-append k ks (m ∷ []) ∙ ground (arith, apart), Distinct-append ks m h (ground arith))

collect-Distinct :
    (ss : List Str) (out : List Method) {ms : List Method}
    → Distinct out
    → collect_methods ss out ≡ ok ms
    → Distinct ms
unfolding collect_methods add_method
collect-Distinct [] out d h = subst Distinct (ground arith) d
collect-Distinct (s ∷ ss) out {ms} d h = elim (Option-cases (method_of (trim_space s))) [
  | inl bad ↦ absurd (ground arith)
  | inr (m, good) ↦ elim (Bool-cases (has_method m out)) [
    | inl old ↦ collect-Distinct ss out d (ground arith)
    | inr new ↦ collect-Distinct ss (out ++ m ∷ []) (Distinct-append out m d new) (ground arith)
  ]
]

not_before :
    (out : List Method) (m : Method) (ms : List Method)
    → Distinct (out ++ m ∷ ms)
    → has_method m out ≡ false
unfolding has_method
not_before [] m ms d = refl
not_before (k ∷ out) m ms (hk, d) = ground (
  arith,
  not_before out m ms d,
  has_method-append k out (m ∷ ms),
  method_eq_iff k m,
  method_eq_iff m k,
  method_eq_iff m m,
)

trimmed_name : (m : Method) → trim_space (method_name m) ≡ method_name m
unfolding trim_space
trimmed_name = elim [ upi ↦ refl | bank_transfer ↦ refl | mpesn ↦ refl | neft ↦ refl | imps ↦ refl ]

collect_read :
    (s : Str) (m : Method) (ss : List Str) (out : List Method)
    → method_of (trim_space s) ≡ some m
    → collect_methods (s ∷ ss) out ≡ collect_methods ss (add_method m out)
unfolding collect_methods
collect_read s m ss out h = rw (h, collect_methods) refl

collect_name :
    (m : Method) (ss : List Str) (out : List Method)
    → collect_methods (method_name m ∷ ss) out ≡ collect_methods ss (add_method m out)
collect_name m ss out =
    collect_read (method_name m) m ss out (ap method_of (trimmed_name m) ∙ method_of-name m)

add_new :
    (m : Method) (out : List Method) → has_method m out ≡ false → add_method m out ≡ out ++ m ∷ []
unfolding add_method
add_new m out new = rw new refl

collect_names :
    (ms out : List Method)
    → Distinct (out ++ ms)
    → collect_methods (map method_name ms) out ≡ ok (out ++ ms)
unfolding collect_methods
collect_names [] out d = ap ok (sym (append-nil out))
collect_names (m ∷ ms) out d =
    let again : (out ++ m ∷ []) ++ ms ≡ out ++ m ∷ ms = append_assoc out (m ∷ []) ms in
    collect_name m (map method_name ms) out
    ∙ ap (collect_methods (map method_name ms)) (add_new m out (not_before out m ms d))
    ∙ collect_names ms (out ++ m ∷ []) (subst Distinct (sym again) d)
    ∙ ap ok again

some_method-ok : (r : Result (List Method)) {ms : List Method} → some_method r ≡ ok ms → r ≡ ok ms
unfolding some_method
some_method-ok (ok []) h = cc
some_method-ok (ok (m ∷ ms)) h = h
some_method-ok (err e) h = cc

-- The payment methods that a list of texts is read to are not empty, no two are the same, and reading
-- their names gives the same methods again.
pub normalize_payment_methods_stable :
    (texts : List Str) {ms : List Method}
    → normalize_payment_methods texts ≡ ok ms
    → (ms ≢ []) × Distinct ms × (normalize_payment_methods (map method_name ms) ≡ ok ms)
unfolding normalize_payment_methods some_method
normalize_payment_methods_stable texts {ms} h =
    let collected = some_method-ok (collect_methods texts []) h in
    let distinct = collect-Distinct texts [] tt collected in
    (
      λ e. ground arith,
      distinct,
      ap some_method (collect_names ms [] distinct) ∙ (ap some_method (sym collected) ∙ h),
    )

-- The user's username.
unfoldable pub HasName : ℕ → Str → P2pDb → Type 0
HasName user n db = (u : User) × (select user db.ledger.users ≡ some u) × (u.p2p_username ≡ some n)

may_set-same :
    (text n : Str) (u : User) → u.p2p_username ≡ some n → may_set text (some u) ≡ true → n ≡ text
unfolding may_set
may_set-same text n u named may = ground (arith, str_eq_iff n text)

-- The users after a username is set: the row of one user has it.
record NameSet (user : ℕ) (name : Str) (db db' : P2pDb) : Type 0 where
  users :
      db'.ledger.users
      ≡ update user (λ (r : User). record r { p2p_username = some name }) db.ledger.users
  allowed : may_set name (select user db.ledger.users) ≡ true

establish-NameSet :
    (user : ℕ) (text : Str) (db : P2pDb) {name : Str} {db' : P2pDb}
    → establish_p2p_username user text db ≡ (ok name, db')
    → (name ≡ trim_space text) × (is_username name ≡ true) × NameSet user name db db'
unfolding establish_p2p_username set_username
establish-NameSet user text db {name} {db'} h =
    let (valid, k0) = check-bind _ _ _ db (transact-ok _ db h) in
    let (allowed, k1) = check-bind _ _ _ db (query-bind _ _ db k0) in
    let (_, d, h2, k2) = bind-ok _ _ db k1 in
    let (free, k3) = check-bind _ _ _ db (query-bind _ _ db h2) in
    let name_is : trim_space text ≡ name = ground arith in
    (
      sym name_is,
      subst (λ s. is_username s ≡ true) name_is valid,
      subst (λ s. NameSet user s db db') name_is
          (record { users = ground arith; allowed = allowed }),
    )

NameSet-HasName :
    (user other : ℕ) (n name : Str) (db db' : P2pDb)
    → NameSet other name db db'
    → HasName user n db
    → HasName user n db'
unfolding HasName
NameSet-HasName user other n name db db' set (u, there, named) =
    let g : User → User = λ r. record r { p2p_username = some name } in
    elim (Bool-cases (other == user)) [
      | inl same ↦
          let is : other ≡ user = ground (arith, ==_iff other user) in
          let there' : select other db.ledger.users ≡ some u =
            subst (λ k. select k db.ledger.users ≡ some u) (sym is) there in
          let name_is : n ≡ name =
            may_set-same name n u named (subst (λ o. may_set name o ≡ true) there' set.allowed) in
          (
            g u,
            subst (λ k. select k db'.ledger.users ≡ some (g u)) is
                (ap (select other) set.users ∙ select-update_self other g db.ledger.users u there'),
            ap some (sym name_is),
          )
      | inr apart ↦ (
        u,
        ap (select user) set.users ∙ select-update_ne other user g db.ledger.users apart ∙ there,
        named,
      )
    ]

-- A username, once set, stays: no later request to establish one, by any user with any text, changes
-- it.
pub establish_p2p_username-permanent :
    (user other : ℕ) (n text : Str) (db : P2pDb)
    → HasName user n db
    → HasName user n (establish_p2p_username other text db).1
establish_p2p_username-permanent user other n text db named =
    elim (Result-cases (establish_p2p_username other text db).0) [
      | inr (e, failed) ↦
          let same : (establish_p2p_username other text db).1 ≡ db =
            unfold establish_p2p_username in transact-err _ db failed in
          subst (HasName user n) (sym same) named
      | inl (name, done) ↦
          let run : establish_p2p_username other text db
              ≡ (ok name, (establish_p2p_username other text db).1) =
            ground arith in
          let (_, _, set) = establish-NameSet other text db run in
          NameSet-HasName user other n name db _ set named
    ]
