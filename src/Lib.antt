-- ===== src/Lib.antt =====
-- Verification of the payment core of a telebirr gateway: a ledger of merchants' money, deposits that
-- the provider's messages prove, payouts that telephones with SIM cards carry out, the reports by
-- which those telephones say what became of a payout, and the notices that merchants get.
--
-- The parts and how they interact:
--   * The ledger (apps/api/src/ledger/ledger.service.ts) keeps accounts per merchant and environment
--     and posts balanced journals, one for each source. Ledger/Accounts.antt, Ledger/Journal.antt
--     and Ledger/Operations.antt model the service: `Books` is its tables, `post` its private
--     `post`, and each public operation is a function `Books → Result Books` with the method's
--     name in snake case. Ledger/Commands.antt makes histories of these operations.
--   * Store.antt, Store/Enums.antt and Store/Records.antt are the rows of
--     apps/api/prisma/schema.prisma that the services share, and the database `Db` of one
--     transaction. Domain.antt holds what the ledger shares with the other services.
--   * Withdrawals (apps/api/src/withdrawals/withdrawals.service.ts) hold money twice, in the ledger's
--     `reserved` account and in the reserved balance of a SIM, and give it back or settle it.
--     Withdrawals/Queue.antt models `create` and `queueTransfer`, Withdrawals/Simulator.antt
--     `applyTestScenario` and `finalizeTest`,
--     Withdrawals/Staff.antt `verify`, `completeTest`, `cancelBeforeStart` and
--     `approveNameAndRetry`, Withdrawals/Resolve.antt `resolveUnknown`, and Withdrawals/Funds.antt
--     what they share. Parsers/Phone.antt is the masked-number test of
--     apps/api/src/parsers/sms-parser.ts.
--   * Device jobs (apps/api/src/devices/device-jobs.service.ts) give a queued payout to one device
--     under a lease and a fencing token. Devices/Rules.antt has the pure decisions,
--     Devices/Reports.antt, Devices/Report.antt, Devices/Handler.antt and Devices/Handling.antt
--     model `report` with `updateTransferForReport` and `persistSpoolStatusOutcome`,
--     Devices/Expiry.antt `expireFinancialJobs` and `markExpiredCommittedUnknown`,
--     Devices/Lease.antt `leaseNext`, `renew` and `renewActiveForConnection`.
--   * Idempotency.antt is `execute` of apps/api/src/idempotency/idempotency.service.ts, over any
--     callbacks: the request, the stored form of its response, and the replay of it.
--   * Fleet/Selection.antt and Fleet/Receiving.antt are the two choices of a SIM of
--     apps/api/src/fleet/sim-selection.service.ts, over the rows that its query joins.
--     Withdrawals/Queue.antt takes the choice as an argument.
--   * SMS ingestion (apps/api/src/sms/sms-ingestion.service.ts) takes the provider's messages from the
--     devices: Sms/Rules.antt has its pure decisions, Sms/Wallet.antt the wallet's counters,
--     Sms/Balance.antt `applyBalance`, Sms/Incoming.antt `matchIncoming`, which credits a deposit or
--     holds the money in suspense, Sms/Outgoing.antt `matchOutgoing`, which settles a payout or
--     quarantines the SIM, and Sms/Ingest.antt `ingest`.
--   * Deposits/Intents.antt (apps/api/src/deposits/deposits.service.ts) opens the deposits that the
--     incoming messages pay, and Deposits/Verification.antt answers `verify`. Fleet/Maintenance.antt
--     (apps/api/src/fleet/fleet-maintenance.service.ts) lets them run out, takes silent devices out of
--     service, and asks SIMs for their balance.
--   * Settlements/Review.antt (apps/api/src/settlements/settlements.service.ts) asks for the payout of
--     a merchant's balance, and an approval runs `queueTransfer` of the withdrawals.
--   * Sweeps/Checks.antt, Sweeps/Rules.antt, Sweeps/Execution.antt and Sweeps/Runs.antt
--     (apps/api/src/sweeps/sweeps.service.ts) move the surplus of SIMs to approved wallets by
--     `queueTransfer`.
--   * Webhooks/Delivery.antt and Webhooks/Worker.antt
--     (apps/api/src/webhooks/webhooks.service.ts) expand outbox events into deliveries that workers
--     claim under a lease and try again with a growing delay.
--   * Contracts/Money.antt is amountToMinor and minorToAmount of packages/contracts/src/money.ts, on
--     the codes of a text.
--
-- How the code is read: a handler is one serializable transaction, so it is a function from a
-- database to `Result Db`, and an `ApiException` is an error that carries no database, as the
-- rollback leaves none. The clock is an argument, read once for each
-- transaction. `bigint` amounts are the integers of Shared/Int.antt, without a bound, as in the
-- source. Ids are numbers that are only compared. Tables are lists of rows by primary key
-- (Shared/Rows.antt); a row that a foreign key names exists, so an update of a missing row is without
-- effect there. A run of several transactions, as that of a sweep rule, passes on the database that
-- the finished ones have left.
--
-- Bounds: nothing runs on fuel but `digits`, whose fuel is the number itself, and the delivery
-- loop, which counts the claims left. The sweeper of jobs takes 250, the upgrade of old jobs 100, the
-- sweep of deposits 500, a sweep rule 250 SIMs, as the queries say. A report's time may be off by 60
-- seconds, a lease lasts 45, a job 15 minutes.
--
-- Arguments of the model: the grammar of the provider's messages (`parseTelebirrSms` of
-- apps/api/src/parsers/sms-parser.ts) and the comparison of names
-- (apps/api/src/parsers/name-normalizer.ts), which every theorem leaves open; the
-- simulator's SIM that `ensureTestSim` upserts; the text's `trim`; the hash of an event's payload; the
-- text of an id; the outcome of an HTTP request; the merchant's configuration that `queueTransfer`
-- upserts, a row that may be any (Deposits/Intents.antt models the upsert for deposits and sweeps).
--
-- Not modelled: screens, labels and metadata that are stored and shown again; alerts, which go out
-- after the commit; signatures of envelopes and of webhooks; views; columns that are unique besides
-- the primary keys and those that the code asks about; the portals and the Android agent.
pub mod Shared
pub mod Domain
pub mod Ledger
pub mod Store
pub mod Parsers
pub mod Samples
pub mod Withdrawals
pub mod Devices
pub mod Idempotency
pub mod Fleet
pub mod Sms
pub mod Webhooks
pub mod Contracts
pub mod Deposits
pub mod Settlements
pub mod Sweeps
