-- ===== src/Auth/Nonces/Laws.antt =====
-- A nonce signs one login in, in its time; and the store is bounded.
use dex_backend.Base.{
  ℕ, suc, ◌+◌, ◌≤◌, ◌≡◌, refl, ap, sym, Option, none, some, List, [], ◌∷◌, arith, ltb, leb,
  if◌then◌else◌, Bool-cases, inl, inr,
}
use dex_backend.Result.{ok, err, Err}
use dex_backend.Text.Bytes.{Str, to_lower}
use dex_backend.Text.Laws.{str_eq_iff}
use dex_backend.Auth.Nonces.{
  NonceEntry, NonceStore, nonce_ttl, nonce_max, size, entry_of, delete, reap, put, make_room,
  store_nonce, create, answer_nonce, consume,
}

entry_of-delete : (key : Str) (s : NonceStore) → entry_of key (delete key s) ≡ none
unfolding entry_of delete
entry_of-delete key [] = refl
entry_of-delete key ((k, e) ∷ rest) = ground (arith, entry_of-delete key rest)

size-delete : (key : Str) (s : NonceStore) → size (delete key s) ≤ size s
unfolding size delete
size-delete key [] = omega arith
size-delete key ((k, e) ∷ rest) = ground (arith, size-delete key rest)

size-reap : (now : ℕ) (s : NonceStore) → size (reap now s) ≤ size s
unfolding size reap
size-reap now [] = omega arith
size-reap now ((k, e) ∷ rest) = ground (arith, size-reap now rest)

entry_of-put : (key : Str) (e : NonceEntry) (s : NonceStore) → entry_of key (put key e s) ≡ some e
unfolding put entry_of
entry_of-put key e s = rw ((str_eq_iff key key).1 refl) refl

size-put : (key : Str) (e : NonceEntry) (s : NonceStore) → size (put key e s) ≤ suc (size s)
unfolding put size
size-put key e s = omega (arith, size-delete key s)

created_entry : ℕ → Str → NonceEntry
created_entry now nonce = record { value = nonce; expires_at = now + nonce_ttl }

store_nonce-ok :
    (now : ℕ) (address nonce : Str) (s : NonceStore) {n : Str} {s' : NonceStore}
    → store_nonce now address nonce s ≡ (ok n, s')
    → (n ≡ nonce) × (s' ≡ put (to_lower address) (created_entry now nonce) s)
unfolding store_nonce created_entry
store_nonce-ok now address nonce s h = elim (Bool-cases (leb nonce_max (size s))) [
  | inl full ↦ absurd (ground arith)
  | inr room ↦ ground arith
]

create-ok :
    (now : ℕ) (address : Str) (o : Option Str) (s : NonceStore) {n : Str} {s' : NonceStore}
    → create now address o s ≡ (ok n, s')
    → (o ≡ some n) × (entry_of (to_lower address) s' ≡ some (created_entry now n))
unfolding create
create-ok now address none s h = absurd (ground arith)
create-ok now address (some nonce) s h =
    let (n_is, s'_is) = store_nonce-ok now address nonce (make_room now s) h in
    (
      ap some (sym n_is),
      rw (s'_is, n_is)
          (entry_of-put (to_lower address) (created_entry now nonce) (make_room now s)),
    )

-- A challenge that was created for an address is the random text. Consumed within five minutes, and
-- under any spelling of the address in upper or lower case, it is that text; later it is refused as
-- expired. Whichever it was, to consume once more, at any time, is refused.
pub consume-create :
    (now later : ℕ) (address spelled : Str) (random : Option Str) (s : NonceStore) {nonce : Str}
    {s' : NonceStore}
    → create now address random s ≡ (ok nonce, s')
    → to_lower spelled ≡ to_lower address
    → (random ≡ some nonce)
      × ((consume later spelled s').0
          ≡ (if ltb (now + nonce_ttl) later then err Err.nonce_expired else ok nonce))
      × ((again : ℕ) → (consume again address (consume later spelled s').1).0 ≡ err Err.no_nonce)
unfolding consume answer_nonce
consume-create now later address spelled random s {nonce} {s'} h same =
    let (random_is, there) = create-ok now address random s h in
    (
      random_is,
      rw (same, there) (unfold created_entry in refl),
      λ again. rw (same, entry_of-delete (to_lower address) s') refl,
    )

-- The calls on a store, each with its time.
pub data NonceCall : Type 0 where
  creates : ℕ → Str → Option Str → NonceCall
  consumes : ℕ → Str → NonceCall
  reaps : ℕ → NonceCall

unfoldable pub after_call : NonceCall → NonceStore → NonceStore
after_call (creates now address random) s = (create now address random s).1
after_call (consumes now address) s = (consume now address s).1
after_call (reaps now) s = reap now s

unfoldable pub after_calls : List NonceCall → NonceStore → NonceStore
after_calls [] s = s
after_calls (c ∷ calls) s = after_calls calls (after_call c s)

make_room-le : (now : ℕ) (s : NonceStore) → size (make_room now s) ≤ size s
unfolding make_room
make_room-le now s = ground (arith, size-reap now s)

store_nonce-le :
    (now : ℕ) (address nonce : Str) (s : NonceStore)
    → size s ≤ nonce_max
    → size (store_nonce now address nonce s).1 ≤ nonce_max
unfolding store_nonce
store_nonce-le now address nonce s h =
    let put_le =
      size-put (to_lower address) (record { value = nonce; expires_at = now + nonce_ttl }) s in
    ground arith

after_call-le :
    (c : NonceCall) (s : NonceStore) → size s ≤ nonce_max → size (after_call c s) ≤ nonce_max
unfolding after_call create consume
after_call-le (creates now address none) s h = h
after_call-le (creates now address (some nonce)) s h =
    store_nonce-le now address nonce (make_room now s) (omega (arith, make_room-le now s))
after_call-le (consumes now address) s h = omega (arith, size-delete (to_lower address) s)
after_call-le (reaps now) s h = omega (arith, size-reap now s)

-- Whatever calls are made on a store that holds 100000 nonces at most, at whatever times, it holds
-- 100000 at most.
pub after_calls-le :
    (calls : List NonceCall) (s : NonceStore)
    → size s ≤ nonce_max
    → size (after_calls calls s) ≤ nonce_max
unfolding after_calls
after_calls-le [] s h = h
after_calls-le (c ∷ calls) s h = after_calls-le calls (after_call c s) (after_call-le c s h)
