-- ===== src/Lib.antt =====
-- GoodQueue sells scarce products through a queue. A user joins the queue of a product; with free stock
-- the attempt goes straight to checkout, else it waits. Reconciliation expires invitations and
-- checkouts, invites those who wait in order, or tells them that the product is sold out. Payments
-- arrive as events in an inbox, under leases, and complete or fail a checkout. A controller adapts how
-- many may wait. Notifications go through an outbox, from which a worker delivers them; a second worker
-- reconciles products in the background.
--
-- Parts, and the code that they model (paths from the root of the repository):
-- Base: Boolean tests, lists, integers and bytes over the native natural numbers.
-- Domain: internal/pkg/domain. Errors are the sentinels of error.go and what wraps them; Attempt the
--   types of queue_attempt.go; Capacity WaitingCapacity and NextQueueSequence; Framing the framing of
--   fields that the canonical hashes share; Payment ParsePaymentCommand and CanonicalPaymentHash;
--   Product FreeStock; Parsing ParseIdempotencyKey, ParseExternalUserID and ParseStockAdjustmentCommand.
-- Store: the tables of migrations/00005_two_stage_queue_foundation.sql. Tables holds a record per
--   table, Rows what UPDATE and SELECT by a key do, Updates what an UPDATE keeps.
-- Queue: internal/repository/postgres/queue_attempt.go. Transaction is withLockedProduct,
--   lockProduct and lockProductAttempts; Lookup the searches; Transitions the guarded updates;
--   Reconcile reconcileLockedProductBounded and hasReconciliationWork; Join, Checkout, Cancel, Current,
--   Stock and Background are Join with createAttempt, StartCheckout, Cancel, FindCurrent with
--   FindActiveByUser, AdjustStock and ReconcileNextProduct. Invariant has what holds of the
--   database and of a transaction. Names are those of the source in snake case.
-- Payment: internal/repository/postgres/payment.go. Claim is ClaimPayment, RetryPaymentClaim and the
--   checks of a claim; Complete completePayment and completeWithCompensation; Apply the two outcomes;
--   Process ProcessPayment, over the transactions that others run in between, and ProcessPaymentClaim.
-- Outbox: internal/repository/postgres/notification_outbox.go. Claims is ClaimNotification,
--   ClassifyInvitation, the two finalizations and RetryNotification; the delay of a retry is in the root.
--   Steps has every write to the outbox as a step, with the INSERTs of the queue and the payments.
-- Worker: internal/worker/worker.go. Reconciliation is reconcileCycle over an interface that the
--   queue's repository fills; Delivery is deliverNotification and outboxCycle over the outbox and any
--   publisher.
-- Usecase: internal/usecase/payment.go, Process and CompleteDemo over the two repositories.
-- Http: internal/app/http/middleware/error.go, MapError.
-- System: histories of the transactions of all repositories on one database.
-- Adaptive: internal/adaptivequeue/controller.go, one refresh.
-- Examples: concrete inputs.
--
-- How it is modelled. A transaction holds the lock of its product's row, so transactions on one
-- product run one after the other, and a transaction is a function from the database before to a
-- result and the database after; an error leaves the database as it was. The clock and the outcomes of
-- metrics queries are arguments. UUIDs and times are natural numbers, strings are lists of bytes,
-- int32 columns that CHECK constraints keep non-negative are natural numbers, `delta` and the
-- percentages are integers; a sum of percentages wraps around in 64 bits. uuid.New, sha256,
-- strings.TrimSpace, strings.ToLower, uuid.Parse, json.Marshal and float64 are parameters, in the
-- records Repository, Text and Float; so are the publisher and what others do while a worker or a use
-- case runs, in Moment, Surroundings, Schedule and Environment, with hex.EncodeToString and the bytes
-- that PostgreSQL takes as TEXT. Loops over the attempts are recursion on the list, those of the
-- workers on the number of turns that their configuration allows; the limit of transitions is an
-- argument, and no fuel is used.
--
-- Not modelled: the CHECK constraints on the times of an attempt, with which PostgreSQL refuses an
-- UPDATE and rolls its transaction back when a deadline is not after its start (a TTL below a
-- microsecond) or when the clock has gone back behind an earlier time of the row; a repeated UUID in the outbox;
-- input and output, errors of the connection to the database outside the deliveries of the worker, the
-- cancellation of a context, the inbox column that holds the texts of errors, logging, the hooks of
-- tests, the other use cases (each delegates one call), the rest of HTTP, the configuration, the
-- recommendations, the load tests and the frontend.
pub mod Base
pub mod Domain
pub mod Store
pub mod Queue
pub mod Payment
pub mod Outbox
pub mod Worker
pub mod Usecase
pub mod Http
pub mod System
pub mod Adaptive
mod Examples
