-- ===== src/Lib.antt =====
-- A model of the cpay backend: a payment gateway whose services share one PostgreSQL database and
-- publish events through an outbox.
--
-- A customer's checkout session has one payment intent, with an expected amount and a deposit
-- address. The chain observer looks for transfers to that address and reports them to the checkout
-- service, which records them and decides the status of the intent and of the session. The payout
-- worker groups the paid intents of a merchant into payouts, has an executor send each of them,
-- and settles the intents. Each of them writes events into the outbox table, which the relay
-- publishes to a message bus; the webhook dispatcher takes them from there to the merchants'
-- endpoints.
--
-- Which file models what, with paths from the repository's root:
-- - Prelude: numbers, lists and texts; Prelude.Integers has int32 and int64. A text is the list of
--   its bytes, and upper and lower case and white space are those of ASCII.
-- - Float: the operations on float64 that the source uses, on a type that stays abstract; the
--   tests run them with eight decimal places.
-- - Database: the connection pool and a transaction of pgx. A script, which the theorems leave
--   open unless they name one, says of each statement whether it is done, is refused by the client
--   library, or is broken by the server, which aborts the transaction. Database.Transaction is the
--   common form of a transaction: Begin, statements of which the first to fail is reported,
--   Commit. A session runs alone: what other sessions do at the same time is not modelled.
-- - Store: the tables of the schema `checkout` (migrations/000007_init.up.sql) that several
--   services use. Of the times `created_at` and `updated_at` of the rows only a few are kept,
--   those that a theorem or a query needs.
-- - Payment.Status, Payment.Pricing, Payment.Link: internal/domain/payment (ResolveIntentStatus,
--   ComputeBounds, ValidateLinkInput).
-- - Checkout.Decision, Checkout.Confirm, Checkout.Atomic: ConfirmCheckoutSession; Checkout.Quote:
--   tokenAllowed, settlementAmountForToken and firstAvailableTokenUSDPrice; Checkout.Create,
--   Checkout.Created: createSession, CreateCheckoutSession and CreatePublicCheckoutSession; all of
--   internal/services/checkoutsvc/service.go.
-- - Payout.Amount: decimalToBaseUnits of internal/platform/workers/payout_executor.go;
--   Payout.Executor with its children: the rest of that file, with go-ethereum and the node as
--   parameters. To the scheduler the executor is a parameter that may answer anything.
-- - Payout.Scheduler, Payout.Process, Payout.Schedule:
--   internal/platform/workers/payout_scheduler.go (completePayoutItem; processPayout,
--   finishPayoutIfComplete and completeDuePayouts; schedulePayouts). Payout.Atomic, Payout.Safety,
--   Payout.Unique and Payout.Refused have the theorems.
-- - Observer.Scan, Observer.Recorded, Observer.Balance, Observer.Atomic, Observer.Expiry:
--   internal/platform/workers/chain_observer.go (filterERC20TransferLogs;
--   updateRecordedTransaction; confirmObservedBalance and expireOldIntents). The node's answers
--   are parameters.
-- - Auth: internal/services/authsvc/service.go and the tokens of internal/shared/auth;
--   Auth.Revoked and Auth.Later follow a revoked key through later calls, Auth.Login a login to
--   its tokens. bcrypt and the JWT library are parameters.
-- - Email, Email.Once: internal/platform/workers/email_dispatcher.go. The sender, the object
--   store, JSON and the formatting of amounts are parameters.
-- - Outbox, Outbox.Delivery: internal/platform/workers/outbox_relay.go.
-- - Webhook, Webhook.Retries: internal/platform/workers/webhook_dispatcher.go, the passes of its
--   ticker included, with the HTTP client, the cipher and JSON as parameters.
-- - Subscription, Subscription.Fresh: internal/platform/workers/subscription_scheduler.go, with
--   addInterval of common.go beside it and internal/domain/subscription/cycle.go.
--   Subscription.Service: CreateSubscription, PauseSubscription and ResumeSubscription of the
--   checkout service; Subscription.Reach has all of them as one step relation, Subscription.Pause
--   a pause that ends.
-- - Tokens, Tokens.Table: internal/shared/chain/tokens.go, and isHexAddress of
--   internal/shared/config/config.go.
-- - Rpc, Rpc.Errors: internal/shared/rpcx/errors.go.
-- - Gateway, Gateway.Replay, Gateway.User: authn, requireUser and withIdempotency of
--   internal/gateway/server.go; internal/api/server.go has the same withIdempotency.
-- - Links, Links.Accepted: CreatePaymentLink, ArchivePaymentLink, UpdatePaymentLink and
--   newLinkCode of internal/services/paymentlinksvc/service.go.
-- - Ids, Ids.Encoding, Ids.Parsing: internal/shared/ids/ids.go.
--
-- Two definitions go by fuel. The search for logs has 52 rounds, for 50,000 blocks in windows of
-- 1,000 or more; Observer.Scan proves that they are enough. The bytes of a number n (digits_256 of
-- Payout.Executor) have n + 1 rounds, and n has at most n bytes; Payout.Executor.Calldata reads
-- them back. All other loops go over a list or a fixed number of places.
--
-- Not modelled: the handlers of internal/gateway and internal/api behind that, which pass requests
-- on; the calls of the services that only read; generated code; and the wiring in cmd.
pub mod Prelude
pub mod Float
pub mod Database
pub mod Store
pub mod Ids
pub mod Payment
pub mod Checkout
pub mod Payout
pub mod Observer
pub mod Outbox
pub mod Webhook
pub mod Subscription
pub mod Tokens
pub mod Rpc
pub mod Auth
pub mod Email
pub mod Gateway
pub mod Links
