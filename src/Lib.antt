-- ===== src/Lib.antt =====
-- The money-moving core of openpay, a payment platform: a double-entry ledger on PostgreSQL, with
-- holds, and the engines above it for wallets, payments, orders and calls to payment providers.
--
-- The parts and how they interact. Every movement of money is a journal that
-- internal/repository/postgresql/ledger.go posts; ledger_hold.go reserves money that such a journal
-- spends later; ledger_check.go states what must hold of the tables. internal/payment brings a
-- payment in line with what a provider reports and books captured money by journals, through the
-- wallet engine or the order engine. internal/order checks an order's amounts and builds the
-- journals that settle and refund it. internal/wallet decides what a wallet may do, and moves its
-- money by journals that are checked against the wallet's limits under the ledger's locks; payment
-- refunds, disputes and internal/withdrawal move wallet money through it.
-- internal/provider wraps the calls to providers.
--
-- The files, by what they model:
--   Base, Base/Int, Base/Int64: integers, and Go's int64 with its wrap-around (`wrap`).
--   Errors: pkg/apperrors, the codes; a Go function that may fail gives a `Result`. An error
--     carries no tables: the transaction or the savepoint rolls back what was written.
--   Errors/Status: an error as a gRPC status and back. Money: `Sum` and `Allocate` of
--     pkg/money/money.go, an error of which is `none`.
--   Ledger/Types: internal/models/dao/ledger.go. Ledger/Store: the tables as one transaction sees
--     them, with an account's balance beside it and postings newest first, and the reads of them.
--   Ledger/Validate: `validateJournal`. Ledger/Locks: `lockAccountsForPosting`. Ledger/Post:
--     `postJournal`, `insertJournal` and `writePostings`. Ledger/Hold and Ledger/Hold/Capture:
--     ledger_hold.go. Ledger/Sound: the queries of `ledgerInvariants`, as a predicate. Ledger/Chart:
--     the codes of internal/ledger/chart.go that are used here. Product: a product's code and
--     the lookup of it.
--   Payment/State: internal/payment/state.go. Payment/Types: internal/models/dao/payment.go.
--     Payment/Sync: `Sync`, `applyCapture`, `applyOrderCapture`, `post` and `transition` of
--     internal/payment/engine.go and `MarkSettled` of settle.go, on the rows of one locked payment.
--     Payment/Tables, Payment/Refund, Payment/Dispute: internal/payment/refund.go and dispute.go,
--     their rows and steps, over the wallet engine.
--   Order/Amounts: `validateAmounts` of internal/order/engine.go. Order/Refund: `splitRefund` and the
--     loop of `refundTenders` of internal/order/refund.go, with what it asks of the wallets.
--     Order/Journals: the postings of `settlementJournal` and `refundJournal`.
--   Wallet/Policy: internal/wallet/policy.go. Wallet/Types, Wallet/Limits, Wallet/Engine and
--     Wallet/Expiry: internal/wallet/engine.go, its rows, the check of limits, the operations, and the
--     lapse of a dormant wallet with the holds on one.
--   Withdrawal/Types, Withdrawal/Engine: internal/withdrawal/engine.go. Withdrawal/Calls: any
--     sequence of its calls, a failed one rolled back.
--   Outbox: `drainOnce` of internal/outbox/drainer.go and the loop of `Run` before it waits.
--   Provider/Resilient: internal/provider/resilient.go.
-- The files below these prove; Examples, and the Examples of each part, hold tests and instances.
--
-- Bounds. Amounts and balances are int64 and wrap as Go's do. Where a theorem speaks of unbounded
-- sums, it asks for room: that the amounts at hand add up below 2^63 (`volume`, `HasRoomFor`). Only
-- the loop of Outbox runs on fuel, a turn each: a turn that publishes leaves fewer events, so that
-- one turn more than there are events is enough. Every other loop runs over a list, or over a count
-- that the code keeps.
--
-- Parameters. In Payment/Sync the wallet engine's `Fund` and the order engine (the interface
-- `OrderHook`) are functions over their tables and the ledger's, gathered in `Hooks`; the check that
-- runs under the ledger's locks is a function of the journal and the tables. In Payment/Refund and
-- Payment/Dispute the order engine is such a function too, and the provider's answer to a refund is
-- one of the refund. In Withdrawal the registry's choice of a provider, a provider's answer to a
-- payout, and the cipher that opens an account number are functions of a `Desk`. The ids and the
-- creation times of postings, which the database fills in, are functions of a `Clock`. In Errors/Status
-- the gRPC library's `WithDetails` is a function. In Order/Refund the wallet of store credit, which the
-- code may open, is given. Row ids and times are natural numbers, and a call's clock is fixed while it
-- runs.
--
-- Not modelled: statements that the database itself fails, the isolation of concurrent transactions
-- beyond the order of their locks, messages of errors, public ids (fresh and random), the audit
-- columns; the opening of wallets, the webhooks and the polling of payments, refunds and payouts, the
-- verifying of beneficiaries, reconciliation, the outbox's publishers, the API's handlers and
-- generated code, and the adapters that speak HTTP to providers.
pub mod Base
pub mod Errors
pub mod Product
pub mod Ledger
pub mod Wallet
pub mod Withdrawal
pub mod Payment
pub mod Order
pub mod Money
pub mod Outbox
pub mod Provider
pub mod Examples
