-- ===== src/Lib.antt =====
-- The Dex backend's ledger of balances, its peer-to-peer market, and the services over them, with
-- theorems about them.
--
-- The backend (Go, module github.com/dex/dex-backend) keeps users' balances of eight assets in
-- PostgreSQL, beside the matching engine's locks on them. `LedgerRepo`
-- (internal/repo/ledger.go) changes them: by deposits that the chain listener sees, withdrawal requests
-- and their approval, locks for open orders, settlement of fills, transfers between users and swaps
-- between assets. Each method is one database transaction. Beside it, `P2PRepo`
-- (internal/repo/p2p.go, internal/repo/p2p_workflow.go) runs a market of BIUSD against rupees: an
-- order's amount and fees stand in escrow until the seller releases them, the buyer cancels, or an
-- admin resolves an appeal. The HTTP handlers (internal/api) call both, the signer of the treasury and
-- the chain listener (internal/chain), and keep the balances of the matching engine, another service,
-- in step with the ledger; users sign in by a challenge (internal/auth).
--
-- Files, and the code each is about:
--   Base, Base/Tests, Base/Key: Boolean tests of numbers, and equality of keys as an interface.
--   Table: a table of the database, with SELECT, INSERT, UPDATE and SUM (the queries of
--     internal/repo); Table/Laws has what they do to each other.
--   Text/Bytes, Text/Decimal: the functions of strings and math/big that the sources call
--     (TrimSpace, ToUpper, ToLower, SetString, String), on lists of bytes.
--   Text/Fixed: numbers with a fixed count of decimals, printed by FloatString and TrimRight and read by
--     SetString of a big.Rat; Text/Fixed/RoundTrip has what is read of what was printed.
--   Asset: `assetColumns` and `normalizeAsset` (internal/repo/ledger.go).
--   Result, Tx: errors as values, and a transaction as a function from the tables to a result and
--     the tables. `transact` is Begin, the deferred Rollback and Commit: an error leaves the tables
--     as they were.
--   Schema: the rows of `users`, `user_balances` and `ledger_entries` (internal/db/db.go,
--     internal/models/ledger.go).
--   Ledger: the checks and statements that the methods share, from `validatePositiveAmount` to
--     `pendingWithdrawalHoldTx`; Ledger/Cells and Ledger/Cells/Writes describe the balances as a map
--     from users and assets, and what one UPDATE does to it.
--   Ledger/Transfers: CreditBalance, DebitBalance, TransferBalance, SwapBalance.
--   Ledger/Holds: LockBalance, UnlockBalance, ReplaceLocksFor, ReleaseLocksFor, ResetBalanceFor and
--     SyncBalanceFor.
--   Ledger/Settlement: SettleLockedDebit and SettleSpotTrade.
--   Ledger/Deposits: InsertDeposit.
--   Ledger/Withdrawals: InsertWithdrawalRequest, MarkWithdrawalProcessing, MarkWithdrawalConfirmed,
--     MarkWithdrawalFailed, RejectWithdrawalRequest and PendingWithdrawalRequest.
--   Ledger/Reads: BalanceFor, BalancesFor, LockedBalancesFor, PendingWithdrawalHoldsFor,
--     AvailableBalanceFor and AllNonzeroBalances; Reads/Nonzero is about the rows of the last.
--   P2p/Schema: the rows of the market's tables (internal/db/db.go, internal/models/p2p.go).
--   P2p: the statements that the market's methods share, such as `lockWallet` (internal/repo/p2p.go).
--   P2p/Fees: `p2pBIUSDSettlement`. P2p/Refund, P2p/Release: `refundTx` and `releaseOrder`.
--   P2p/Orders: MarkPaidWithAttestation, CancelOrderWithReason and `cancelOrder`.
--   P2p/Appeals: AppealOrder, CancelAppeal (internal/repo/p2p_workflow.go) and ResolveAppeal.
--   P2p/Funding: FundWalletAsset, with `normalizeP2PAsset` and `validateIdempotencyKey`.
--   P2p/Listings: CancelListing.
--   P2p/Methods, P2p/Profile: the payment methods, `normalizePaymentMethods`, P2PProfile,
--     EstablishP2PUsername and UpsertPaymentAccount.
--   P2p/Fiat: `p2pFiatValue` and `validateP2POrderLimits`.
--   P2p/Ads: `normalizeP2PSide`, CreateListingWithLimits and CreateListingForAsset.
--   P2p/Taking: CreateOrderWithPayment, `insertOrder` and CreateOrder; Taking/Funds is about where the
--     escrow comes from, Taking/Laws about what a request does, Taking/Sound about the books after it,
--     Taking/Once about a request that is sent again.
--   P2p/Expiry: ExpirePendingOrders.
--   P2p/Holdings: what the market holds of an asset, in wallets, in escrow and as fees.
--   P2p/Lifecycle: the diagram of an order's status, and runs of any calls about orders.
--   P2p/Market: the market as a whole, run by any calls: Market/Frames and Market/Orders are about
--     what the calls about orders leave alone, Market/Calm and Market/Funds about funding and withdrawn
--     ads, Market/Books about the books of the whole.
--   Chain/Signer: `submitTx` and SubmitWithdrawal (internal/chain/signer.go). Chain/Listener: `poll`,
--     `handleDeposit` and the cursor (internal/chain/listener.go), and FindOrCreate
--     (internal/repo/users.go).
--   Api/Payouts: WithdrawRequest, `processWithdrawalRequest`, AdminApproveWithdrawal and
--     AdminRecoverWithdrawal (internal/api/wallet.go); Payouts/Laws/Orderly and Once follow the requests
--     that are handed to the signer, Payouts/Laws/Settled is about an admin's calls for a settled request.
--   Api/Swaps: Swap and its fee (internal/api/wallet.go).
--   Api/Engine: `runBackfill`, `rawToHumanUnits` (internal/api/wallet.go) and `reconcileOrderBalance`
--     (internal/api/trade.go).
--   Auth/Nonces: the NonceStore (internal/auth/nonce.go).
--   Tests modules: runs at concrete tables.
-- A module named Laws, or for what it proves, stands below the definitions it is about.
--
-- How the model reads the code. Users' ids, rows' ids and transaction hashes are numbers; the id
-- that `gen_random_uuid()` gives is the table's `next_id`. An amount is a natural number of raw
-- units: each subtraction of the sources is guarded, and a guard such as `balance - locked - hold >=
-- amount`, which SQL and big.Int evaluate in signed numbers, is written with sums only. The
-- statements' `$2::numeric` reads the same number as `big.Int.SetString` does. Row locks (FOR UPDATE)
-- serialise transactions on the same rows, so each is modelled as running alone; the order in which
-- two users' rows are locked is kept. A method of several calls of the repository is a list of
-- transactions. Loops are structural recursions on lists, and the printing of a decimal number runs on
-- fuel, one step more than the number itself.
--
-- Prices, limits and values of the market are numbers in a unit of the last decimal that the columns
-- or the printing keep, so that the exact big.Rat arithmetic is arithmetic of natural numbers. The price
-- of the day is a column of a table, and none where there is no row. The status of an ad that the
-- sources call CANCELLED is `withdrawn`, and times of the market are milliseconds. The market's texts,
-- event kinds and log rows are kept as the sources write them. CHECK constraints that the rows of an
-- order satisfy already (positive amounts, the assets allowed) are not tested again.
--
-- What other services answer is a parameter: the replies of the node and the receipt of a transaction,
-- whether the engine takes a credit and the available balance that it reports, the random text of a
-- nonce, and the clock. Block numbers are uint64, with their wrap-around; the listener's loop runs on
-- fuel, one round for each block, where a round goes over up to 2000. A call that the sources start in
-- the background is in the state as a notice (a deposit's credit) or left out (a withdrawal's debit).
-- A handler takes the decoded request and the claims of the session, and returns its answer.
--
-- Not modelled: connection faults and cancelled contexts, the bound of NUMERIC(38,0), the rounding of
-- PostgreSQL's division for orders of 10 ^ 16 raw units and more, the mark `LegacyMainDebit` of an order
-- that is returned, texts of the engine's balances with a sign, an exponent, a fraction bar or more
-- than 18 decimals (they are errors here), text beyond ASCII,
-- times that are only recorded (`created_at`, `updated_at`, `completed_at` and the like), tokens and
-- signatures, the packing and unpacking of contract calls, requests to the matching engine and the
-- handlers that pass them through, lists and reports that are queries only, and the load-test and QA
-- tools.
pub mod Base
pub mod Table
pub mod Text
pub mod Result
pub mod Asset
pub mod Tx
pub mod Schema
pub mod Ledger
pub mod P2p
pub mod Chain
pub mod Api
pub mod Auth
