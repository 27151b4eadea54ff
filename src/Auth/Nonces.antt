-- ===== src/Auth/Nonces.antt =====
-- NonceStore (internal/auth/nonce.go). Times are seconds; each method holds the lock from its first
-- access to its last, so that calls are steps one after the other.
pub mod Laws
use dex_backend.Base.{
  ℕ, suc, ◌+◌, Bool, true, false, Option, none, some, List, [], ◌∷◌, ltb, leb, if◌then◌else◌,
}
use dex_backend.Result.{Result, ok, err, Err}
use dex_backend.Text.Bytes.{Str, str_eq, to_lower}

pub record NonceEntry : Type 0 where
  pub value : Str
  pub expires_at : ℕ

-- `entries`, a map.
abbrev pub NonceStore : Type 0
NonceStore = List (Str × NonceEntry)

abbrev pub nonce_ttl : ℕ
nonce_ttl = 300

abbrev pub nonce_max : ℕ
nonce_max = 100000

-- len(entries)
unfoldable pub size : NonceStore → ℕ
size [] = 0
size (e ∷ rest) = suc (size rest)

unfoldable pub entry_of : Str → NonceStore → Option NonceEntry
entry_of key [] = none
entry_of key ((k, e) ∷ rest) = if str_eq k key then some e else entry_of key rest

unfoldable pub delete : Str → NonceStore → NonceStore
delete key [] = []
delete key ((k, e) ∷ rest) =
    let others = delete key rest in if str_eq k key then others else (k, e) ∷ others

unfoldable pub reap : ℕ → NonceStore → NonceStore
reap now [] = []
reap now ((k, e) ∷ rest) =
    let others = reap now rest in if ltb e.expires_at now then others else (k, e) ∷ others

unfoldable pub put : Str → NonceEntry → NonceStore → NonceStore
put key e s = (key, e) ∷ delete key s

-- The store with room made, if that is possible.
unfoldable pub make_room : ℕ → NonceStore → NonceStore
make_room now s = if leb nonce_max (size s) then reap now s else s

store_nonce : ℕ → Str → Str → NonceStore → Result Str × NonceStore
store_nonce now address nonce s = if leb nonce_max (size s) then (err Err.store_full, s) else (
  ok nonce,
  put (to_lower address) (record { value = nonce; expires_at = now + nonce_ttl }) s,
)

-- The random text is an argument; none, if the source of randomness fails.
unfoldable pub create : ℕ → Str → Option Str → NonceStore → Result Str × NonceStore
unfolding store_nonce
create now address none s = (err Err.no_randomness, s)
create now address (some nonce) s = store_nonce now address nonce (make_room now s)

answer_nonce : ℕ → Option NonceEntry → Result Str
answer_nonce now none = err Err.no_nonce
answer_nonce now (some e) = if ltb e.expires_at now then err Err.nonce_expired else ok e.value

unfoldable pub consume : ℕ → Str → NonceStore → Result Str × NonceStore
unfolding answer_nonce
consume now address s =
    (answer_nonce now (entry_of (to_lower address) s), delete (to_lower address) s)
