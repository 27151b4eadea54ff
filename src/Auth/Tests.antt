-- ===== src/Auth/Tests.antt =====
-- A nonce is created, and consumed under another spelling of the address.
use dex_backend.Base.{
  ℕ, ◌+◌, ◌≡◌, ◌≤◌, refl, Option, some, List, [], ◌∷◌, ltb, if◌then◌else◌, arith,
}
use dex_backend.Result.{ok, err, Err}
use dex_backend.Text.Bytes.{Str, bytes}
use dex_backend.Auth.Nonces.{
  NonceStore, nonce_max, nonce_ttl, size, delete, put, make_room, create, consume,
}
use dex_backend.Auth.Nonces.Laws.{
  NonceCall, creates, consumes, reaps, after_calls, consume-create, after_calls-le,
}

abbrev random : Option Str
random = some (bytes "c0ffee")

abbrev store : NonceStore
store = (create 10 (bytes "0xAb") random []).1

create_run : create 10 (bytes "0xAb") random [] ≡ (ok (bytes "c0ffee"), store)
unfolding create make_room size put delete
create_run = refl

consume-create_example :
    (random ≡ some (bytes "c0ffee"))
    × ((consume 310 (bytes "0xaB") store).0
        ≡ (if ltb (10 + nonce_ttl) 310 then err Err.nonce_expired else ok (bytes "c0ffee")))
    × ((again : ℕ)
        → (consume again (bytes "0xAb") (consume 310 (bytes "0xaB") store).1).0 ≡ err Err.no_nonce)
consume-create_example =
    consume-create 10 310 (bytes "0xAb") (bytes "0xaB") random [] create_run refl

abbrev calls : List NonceCall
calls = creates 10 (bytes "0xAb") random ∷ reaps 400 ∷ consumes 401 (bytes "0xAb") ∷ []

after_calls-le_example : size (after_calls calls []) ≤ nonce_max
after_calls-le_example = after_calls-le calls [] (unfold size in omega arith)
