-- ===== src/Lib.antt =====
-- Meterplex: billing, payments, entitlements and accounts of a usage-metering service.
--
-- The program closes billing periods, makes invoices from a subscription's fee and its metered
-- usage, moves invoices through their states with an entry in a ledger for each, collects
-- payments through a provider and handles the provider's webhooks. The parts meet in one
-- database: the billing cycle finds due subscriptions (periods), makes a draft (generation,
-- overage), finalizes it (lifecycle, numbers) and advances the subscription; a webhook finds a
-- payment attempt and marks its invoice as paid, or sets a retry. Subscribing a tenant to a plan
-- freezes the plan's entitlements in snapshots. Entitlement checks read these, count usage in
-- Redis, and store an event for each grant. Events also come in batches (ingestion), each with a
-- row of the outbox, which a publisher puts on Kafka; one consumer validates the messages,
-- another adds them up in the aggregates that invoices and checks read, and what fails becomes a
-- dead letter, which an administrator may retry or discard. A reconciliation compares events with
-- aggregates and invoices with the ledger. Beside this stand the accounts: tenants, users and their
-- memberships, the sessions and passwords of users, API keys, and the guards that let a request of
-- a member, or of a key, through to the other parts. A rate limit counts requests in Redis.
--
-- How the files correspond to the code (paths from the repository's root):
--   Prelude, Text, Calendar   tests, tables, decimal printing, and JavaScript's Date in UTC;
--                             Prelude/Service is a service method over any store
--   Billing/State             the rows of prisma/schema.prisma that the services use
--   Billing/Monad             a service method: reads and writes, throws, try and $transaction
--   Billing/Numbers           src/modules/invoices/invoice-number.service.ts
--   Billing/Lifecycle         src/modules/invoices/invoice-lifecycle.service.ts; Ledger has the
--                             agreement of ledger and invoices, Transitions each call's effect
--   Billing/Overage           src/modules/invoices/overage-calculator.ts and the proration of
--                             src/modules/invoices/billing-period.service.ts
--   Billing/Generation        src/modules/invoices/invoice-generation.service.ts
--   Billing/Period            src/modules/invoices/billing-period.service.ts
--   Billing/Cron              src/modules/invoices/billing-cron.service.ts
--   Billing/Payments          src/modules/payments/payment-intent.service.ts and
--                             src/modules/payments/handlers
--   Billing/Webhook           src/modules/payments/webhook-processing.service.ts
--   Usage/Entitlement, Check  src/modules/entitlement-check/entitlement-check.service.ts; Limit, Bound,
--                             Requests, Sequence and Agreement have its proofs
--   Usage/Redis               the counters of src/infra/cache/redis.service.ts
--   Subscriptions             src/modules/subscriptions/subscriptions.service.ts; Current has the
--                             current subscriptions, Entitled what a tenant may use
--   Entitlements              src/modules/entitlements/entitlements.service.ts: the check of fields
--                             and, in Store, the operations; Invariant has what they keep, Answers
--                             and Removal what they answer
--   Pipeline/Kafka            publish of src/infra/messaging/kafka-producer.service.ts
--   Pipeline/Ingestion        src/modules/usage-events/usage-events.service.ts; Screening, Counts and
--                             Answers have a call's answer, Retried what comes again
--   Pipeline/Outbox           src/infra/outbox/outbox-publisher.service.ts; Progress
--                             has the attempts of a row, Tick a tick
--   Pipeline/Validation       src/modules/usage-pipeline/usage-validation.consumer.ts; Accepted and Sent
--                             have the conditions, Handled and Once what is processed before, Consumed
--                             the messages of the entitlement checks
--   Pipeline/Aggregation      src/modules/usage-pipeline/usage-aggregation.consumer.ts; Sums has the
--                             totals, Keys, Seen and Counters what the checks read of them
--   Pipeline/DeadLetters      src/modules/usage-pipeline/dead-letter.consumer.ts and
--                             src/modules/admin/dead-letter.service.ts
--   Accounts/State, Rows      the rows of prisma/schema.prisma about accounts, and the queries on them
--   Accounts/Tokens           src/modules/auth/auth.service.ts: tokens; Expiry has their two expiries
--   Accounts/Passwords        the same service: registration, login, reset and change of a password
--   Accounts/Users            src/modules/users/users.service.ts and the update of users.controller.ts
--   Accounts/Tenants          src/modules/tenants/tenants.service.ts and the routes of
--                             tenants.controller.ts that compare two tenants
--   Accounts/ApiKeys          src/modules/api-keys; Creation and Revocation have a key's life
--   Accounts/Guards           src/modules/auth/strategies/jwt.strategy.ts, and the tenant, roles and
--                             platform-admin guards of src/common/guards; Access has who passes
--   Accounts/Calls            any sequence of account calls; Closed and Kept have what they all keep
--   Accounts/Invariant        ids, the unique indexes, and the owners of tenants
--   Accounts/Sessions         the life of refresh and reset tokens
--   Reconciliation            src/modules/admin/reconciliation.service.ts: Usage, Payments and Runs;
--                             Books, Unsourced and Counted have its proofs
--   RateLimit                 src/common/guards/rate-limit.guard.ts; Window has how many requests
--                             pass, Failure what happens without Redis
--   Tests, in each            concrete rows and runs
--
-- A method is a function from the database to a result and a new database. `generate` is
-- generate, `generate_prorated` generateProrated, `mark_paid` markPaid, `void_invoice` void, and
-- so on: the names are the source's in another spelling. Two lists in the database say which of
-- the coming calls of Redis and of Kafka fail. Topics are lists that only grow, and a consumer
-- is a function of one message; sequences of messages are lists, with any copies in any order.
-- The database goes on with a transaction after a unique violation, as the catch of the ingestion
-- expects. The clock is an argument, and one tick of the cycle reads it once. Identifiers are
-- natural numbers that one counter gives out. All loops run over lists, so no fuel is needed;
-- the attempts of an outbox row go over a list of times. Amounts are whole cents without an
-- upper bound: Postgres refuses what is past 2^31, and a double is exact below 2^53. Balanced
-- books mean, for each invoice: a draft has no entry, a finalized one has its total charged, a
-- paid one has its total charged and paid, a void one has as much credited as charged; and no
-- entry names an invoice that is not there.
--
-- The accounts, the entitlements of plans and the reports of the reconciliation have stores of
-- their own, since no service writes both one of these and the billing's tables. The libraries of
-- the accounts (bcrypt, SHA-256, JWT, the random generator) and JWT_REFRESH_EXPIRATION are a record of arguments, `Env`; each call of
-- the random generator has a number. A uuid is a number, and `uuid_key` reads one. The database
-- keeps unique and foreign keys; what Prisma names as the fields of a violation is an argument too.
-- The reconciliation reads the billing's database; the source of an event and whether an attempt
-- is younger than a subscription's update are arguments.
--
-- Not modelled: PostgreSQL's giving up a transaction in which a statement has failed; messages of
-- Kafka without a tenant or with an amount that is no natural number, which no producer of the
-- program makes; calls interleaved with others and failures of the database in mid-call; log
-- texts, descriptions of line items, metadata and raw payloads, which nothing reads; times to
-- live of keys in Redis; the provider behind createPaymentIntent and constructWebhookEvent,
-- whose answers are arguments; lists and their pages; the services that store plans, prices and
-- features; the audit log, the other routes and the configuration.
pub mod Prelude
pub mod Text
pub mod Calendar
pub mod Billing
pub mod Usage
pub mod Pipeline
pub mod Subscriptions
pub mod Entitlements
pub mod Accounts
pub mod Reconciliation
pub mod RateLimit
