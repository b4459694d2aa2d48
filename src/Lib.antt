-- ===== src/Lib.antt =====
-- A model of the core services of the Disciplr backend, and what it keeps true.
--
-- The service holds vaults with milestones, lets verifiers confirm the milestones, runs
-- background jobs, and manages who may act for an organization. Each part below is modelled by
-- the files named, one definition per function, under the function's own name in snake case.
-- State is passed explicitly: an operation takes its tables and returns them with its result, an
-- exception is a constructor of a result type, and a transaction that throws leaves the tables
-- as they were. Fresh identifiers and the current time (milliseconds, natural numbers) are
-- arguments.
--
-- Vaults: Vault/Transitions.antt is src/services/vaultTransitions.ts, the whole file. Its array
--   of vaults and the table of milestones are the record `Store`; the JavaScript writes to the
--   element that `find` returned, the model replaces the first match.
--   Vault/Transitions/Lifecycle.antt, Guards.antt and Expiry.antt hold its theorems. A date that
--   does not parse is `none`: every comparison with it is false.
-- Milestones: Vault/Milestones.antt and Vault/Thresholds.antt are src/services/milestones.ts:
--   the table and the event log, and the M-of-N thresholds over them. `completeVault` asks
--   `all_milestones_verified` of that table. Proofs are in Vault/Milestones/Validation.antt and
--   Vault/Thresholds/Veto.antt.
-- Jobs: Jobs/Types.antt, Jobs/Queue.antt, Jobs/Operations.antt and Jobs/Metrics.antt are the
--   class InMemoryJobQueue of src/jobs/queue.ts. Jobs are objects on a heap that the lists share
--   by reference, so that a swept job and the handler still running on it are the same object.
--   The handlers are not modelled: that one ends, and how, is an event (`finishes`), and events
--   may come in any order. Jobs/Balance.antt is about the number of jobs, Jobs/Places.antt about
--   the places of each, Jobs/Limits.antt about the active ones, Jobs/Order.antt about the
--   pending ones, Jobs/Retries.antt about failures, and Jobs/Metrics/Totals.antt about the
--   reports. The loop of `drain` runs on fuel, one round more than there are pending jobs: each
--   round takes one away. Jobs/Queue/Drain.antt is about that fuel.
-- Membership: Membership.antt and Membership/Invitations.antt are src/services/membership.ts, on
--   lists of rows; `where` clauses are Boolean tests. Owners.antt, Ownership.antt and
--   Invitations.antt hold the theorems.
-- Verifiers: Verifiers/Profiles.antt, Verifiers/Records.antt and Verifiers/Approvals.antt are
--   src/services/verifiers.ts: profiles and their status, decisions on targets, votes on
--   milestones. The columns that the database fills in are arguments. Creating a profile fails
--   where the user has one, by the table's primary key.
-- Webhooks: Webhooks/Breaker.antt is the circuit breaker of src/services/webhooks.ts for one
--   subscriber, with its row in src/repositories/webhookSubscriberRepository.ts: the cache and
--   the row are kept apart, since the code may write different states to them. Bursts.antt and
--   Stuck.antt hold its theorems. A delivery is not modelled; it reports a success or a failure.
-- Cache: Cache.antt is the class InMemoryLRUCache of src/lib/cache.ts, its `Map` a list of
--   entries in insertion order. Cache/Bounds.antt and Cache/Recency.antt hold its theorems.
-- Idempotency: Idempotency.antt is the in-memory half of src/services/idempotency.ts: the keys,
--   the responses and the requests in flight, two maps as in the code. A promise is a number and
--   how it was settled. Slots.antt states what the service promises of one key, a state machine
--   of three states, and Steps.antt and Runs.antt compare the maps with it; Keys.antt is about
--   the internal keys, Executions.antt about repeated requests.
-- Exports: Exports.antt and its children Data, Repository, DeadLetters and Jobs are
--   src/services/exportQueue.ts with the repository in memory: the jobs and the dead letters,
--   the rows of an export from the vault store, its columns and its text. What a run meets
--   outside the module is the record `World`, whose members are any functions; a member that can
--   throw returns an `Outcome`. The loop that shifts dead letters runs as often as there are
--   letters at most. Runs.antt, Outcomes.antt, Requests.antt and Ownership.antt hold the
--   theorems. Table.antt is the repository on the table export_jobs, with its own.
-- Events: Events.antt is src/services/eventProcessor.ts with isEventProcessed and
--   markEventProcessed of src/services/idempotency.ts, on the tables that they write. A fault of
--   the database is an argument of each attempt and rolls the transaction back. Retry.antt is
--   src/utils/retry.ts, which takes the transaction as its operation; its loop runs on the
--   attempts that are left. Events/Relay.antt is src/services/outboxRelay.ts.
--   Retry/Attempts.antt, Events/Once.antt, Events/Outbox.antt and Events/Later.antt hold the
--   theorems.
-- Flags: Flags.antt is src/services/featureFlags.ts with its local cache; the table of flags is
--   an argument, and Flags/Lookups.antt holds the theorems.
-- Quota: Quota.antt is src/services/exportQuota.ts with its repository in memory, and
--   Quota/Days.antt is about the checks of a day.
-- Orgs: Orgs.antt is src/models/organizations.ts with the two guards on organizations of
--   src/middleware/orgAuth.ts, Orgs/Admins.antt is about administrators and Orgs/Access.antt
--   about the guards.
-- Reminders: Reminders.antt is markVaultExpiries and sendMilestoneReminders of
--   src/services/vaultExpiry.service.ts with createNotification of src/services/notification.ts
--   and isNotificationEnabled of src/models/notificationPreferences.ts; Reminders/Leads.antt is
--   about the lead times, Reminders/Repeats.antt about repeated runs and Reminders/Expiries.antt
--   about expired vaults.
-- Prelude holds the Boolean tests on native numbers, the list functions and the identifiers that
--   the parts share; Examples runs the operations on concrete data.
--
-- Assumptions are hypotheses of the theorems that need them: a user is listed once in an
-- organization, an invitation's identifier and organization find one row, no user has two
-- profiles.
-- Operations on the database are taken one at a time: a read and the write after it are not
-- interleaved with those of another request.
--
-- Not modelled: the wait of `stop` for active jobs, payload validation of jobs, the ratios and
-- percentages that src/services/verifiers.ts computes for display, and the cascade of a deleted
-- verifier to his verifications; of the exports the queries for vaults and transactions and the
-- log lines; of the quota the repository on the database; of the flags the bulk read and the
-- statistics of the cache; of the reminders the digests with their quiet hours and the deferred
-- reminders. Of the rest of the repository the routes, the other middleware, repositories, the
-- Redis cache, the other parts of webhooks, the parser of contract events, the delivery of
-- notifications and the Soroban client are not modelled here, nor are the contracts, which are
-- Rust.
pub mod Idempotency
pub mod Exports
pub mod Reminders
pub mod Retry
pub mod Events
pub mod Flags
pub mod Orgs
pub mod Quota
pub mod Prelude
pub mod Vault
pub mod Jobs
pub mod Membership
pub mod Verifiers
pub mod Webhooks
pub mod Cache
pub mod Examples
