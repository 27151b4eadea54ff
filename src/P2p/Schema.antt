-- ===== src/P2p/Schema.antt =====
-- The rows of the peer-to-peer market (internal/db/db.go, internal/models/p2p.go). Prices, order
-- limits and fiat amounts are NUMERIC(38,8): numbers in units of 10^-8 INR. The fiat currency is
-- always INR and the fiat fees always 0, so that they are left out.
use dex_backend.Base.{ℕ, Bool, Option, List}
use dex_backend.Text.Bytes.{Str}
use dex_backend.Asset.{Asset}
use dex_backend.Table.{Table}
use dex_backend.Schema.{LedgerDb}

-- A row of p2p_wallet_balances, under its user and asset.
pub record P2pWallet : Type 0 where
  pub available : ℕ
  pub reserved : ℕ

pub data Side : Type 0 where
  buy sell : Side

pub data FundingSource : Type 0 where
  p2p_wallet main_wallet_legacy : FundingSource

pub data FeeModel : Type 0 where
  legacy_fiat biusd_1pct_each : FeeModel

pub data ListingStatus : Type 0 where
  active filled withdrawn : ListingStatus

-- The values of `validP2PPaymentMethods`.
pub data Method : Type 0 where
  upi bank_transfer mpesn neft imps : Method

-- The columns of p2p_payment_accounts under its user and method, which an order copies.
pub record PaymentAccount : Type 0 where
  pub account_name : Str
  pub account_identifier : Str
  pub bank_name : Str
  pub ifsc_code : Str
  pub instructions : Str

-- A row of p2p_listings.
pub record Listing : Type 0 where
  pub seller_id : ℕ
  pub side : Side
  pub asset : Asset
  pub amount : ℕ
  pub remaining : ℕ
  pub price : ℕ
  pub min_order : ℕ
  pub max_order : ℕ
  pub payment_methods : List Method
  pub status : ListingStatus
  pub funding_source : FundingSource
  pub fee_model : FeeModel

pub data OrderStatus : Type 0 where
  pending_payment payment_made completed cancelled appeal : OrderStatus

-- A row of p2p_orders.
pub record Order : Type 0 where
  pub listing_id : ℕ
  pub seller_id : ℕ
  pub buyer_id : ℕ
  pub taker_id : ℕ
  pub asset : Asset
  pub amount : ℕ
  pub price : ℕ
  pub gross_amount : ℕ
  pub escrow : ℕ
  pub buyer_fee : ℕ
  pub seller_fee : ℕ
  pub buyer_credit : ℕ
  pub seller_debit : ℕ
  pub fee_model : FeeModel
  pub payment_method : Method
  pub payment_account : PaymentAccount
  pub idempotency_key : Option Str
  pub status : OrderStatus
  pub expires_at : ℕ
  pub buyer_own_account_attested : Bool
  pub appeal_available_at : Option ℕ
  pub appealed_by : Option ℕ
  pub appeal_reason : Option Str
  pub cancellation_reason : Option Str
  pub cancelled_by : Option ℕ

pub data EntryKind : Type 0 where
  main_to_p2p listing_reserve listing_release p2p_to_order legacy_main_to_order : EntryKind
  order_to_buyer order_refund : EntryKind

-- A row of p2p_wallet_entries.
pub record WalletEntry : Type 0 where
  pub user_id : ℕ
  pub listing_id : Option ℕ
  pub order_id : Option ℕ
  pub kind : EntryKind
  pub asset : Asset
  pub amount : ℕ
  pub idempotency_key : Option Str

-- A row of p2p_admin_wallet_entries.
pub record AdminEntry : Type 0 where
  pub order_id : ℕ
  pub asset : Asset
  pub buyer_fee : ℕ
  pub seller_fee : ℕ
  pub amount : ℕ

-- The kind of an event, with its metadata.
pub data EventKind : Type 0 where
  payment_marked appeal_cancelled payment_proof_uploaded : EventKind
  order_created : Method → EventKind
  order_released : Bool → EventKind
  closed : OrderStatus → Str → EventKind
  appeal_opened : Str → EventKind
  appeal_resolved : Str → EventKind

-- A row of p2p_order_events.
pub record OrderEvent : Type 0 where
  pub order_id : ℕ
  pub actor_id : Option ℕ
  pub kind : EventKind

pub record P2pDb : Type 0 where
  pub ledger : LedgerDb
  pub wallets : Table (ℕ × Asset) P2pWallet
  pub admin_wallets : Table Asset ℕ
  pub listings : Table ℕ Listing
  pub prices : Table Asset ℕ  -- of p2p_price_history, the INR prices of the day
  pub payment_accounts : Table (ℕ × Method) PaymentAccount
  pub orders : Table ℕ Order
  pub order_proofs : List (ℕ × ℕ)  -- the order and the uploader
  pub wallet_entries : List WalletEntry
  pub admin_entries : List AdminEntry
  pub order_events : List OrderEvent
  pub order_messages : List (ℕ × Str)
  pub next_id : ℕ  -- the id that `gen_random_uuid()` gives the next ad or order
