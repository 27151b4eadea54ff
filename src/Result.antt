-- ===== src/Result.antt =====
-- How a method of the repositories ends: a value, or one of the errors that the sources return.
use dex_backend.Base.{◌≡◌, refl, ◌⊎◌, inl, inr, Option, none, some}

-- The `fmt.Errorf` texts and the `Err…` values, one constructor each. `no_rows` is
-- `pgx.ErrNoRows` passed on, `violates` a foreign key or check constraint of the schema.
pub data Err : Type 0 where
  unsupported_asset not_positive not_non_negative user_not_found lock_records : Err
  insufficient insufficient_to_lock insufficient_to_settle : Err
  same_parties insufficient_buyer insufficient_seller same_user : Err
  insufficient_available not_pending not_processing no_rows violates : Err
  order_not_found invalid_state forbidden expired not_attested no_proof : Err
  bad_reason appeal_early bad_resolution not_found bad_reservation too_small : Err
  not_biusd key_required key_too_long key_reused insufficient_main : Err
  bad_side bad_method no_method bad_username username_taken username_set no_price bad_price : Err
  bad_limit limit_order limit_too_high no_payment_account insufficient_wallet : Err
  self_purchase method_not_offered unavailable outside_limits leaves_too_little not_reserved : Err
  bad_account_name bad_identifier bad_instructions bad_bank bad_ifsc : Err
  bad_message bad_proof too_many_proofs : Err
  not_authenticated no_signer only_usdc submit_failed unconfirmed_payout ledger_update_failed : Err
  bad_action same_asset no_such_swap fee_exceeds bad_engine_amount bad_raw_amount : Err
  no_randomness id_required store_full no_nonce nonce_expired : Err

pub data Result {ℓ} (A : Type ℓ) : Type ℓ where
  ok : A → Result A
  err : Err → Result A

-- A value or the error for its absence.
abbrev pub or_err {ℓ} : {A : Type ℓ} → Option A → Err → Result A
or_err none e = err e
or_err (some a) e = ok a

pub Result-cases {ℓ} :
    {A : Type ℓ} (r : Result A) → ((a : A) × (r ≡ ok a)) ⊎ ((e : Err) × (r ≡ err e))
Result-cases (ok a) = inl (a, refl)
Result-cases (err e) = inr (e, refl)
