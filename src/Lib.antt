-- ===== src/Lib.antt =====
-- RedDotRelay: a relay that scans an Ethereum chain for events and delivers them to webhooks.
--
-- The program polls a provider for confirmed blocks (internal/scanner), decodes the logs
-- (internal/decoder) and saves the events, one delivery for each destination, the block hashes and
-- the checkpoint in one SQLite transaction (internal/store/sqlite/store.go). Workers claim due
-- deliveries from that outbox under a lease, post them, and record the outcome
-- (internal/delivery/worker.go). Retention prunes what has been delivered, and a reorganization of
-- the chain rewinds the tables to the last common block.
--
-- Prelude      tests on numbers and texts, lists, results
-- Core         internal/core: events, deliveries, checkpoints, blocks, logs
-- Store        internal/store/sqlite/store.go
--   Db         the four tables as lists of rows, and transactions
--   Events     saveBatch (`save_batch`), insertEvent, insertDelivery, the canonical blocks and the
--              checkpoint
--   History    Checkpoint, Rewind, ResetFrom, RewindCanonical, CanonicalBlocks
--   Outbox     DueDeliveries, ClaimDueDeliveries, the three transitions,
--              RequeueAllDead, and, in DeadLetters, DeliveryStatusCounts, DeadDeliveries and
--              RequeueDeadByGUID
--   Retention  CountDeliveredBefore, PruneDeliveredBefore
--   Backfill   internal/store/sqlite/backfill.go: the jobs and their audit beside the other tables
--   ScannerSkip  internal/store/sqlite/scanner_skip.go: SkipScannerToHead, with mutateRPCListeners
--              of rpclistener.go and insertRPCListenerAudit of configaudit.go
--   Users      internal/store/sqlite/user.go
--   ApiKeys    internal/store/sqlite/apikey.go
--   Sessions   internal/store/sqlite/session.go
--   Invariant  the primary keys and the foreign key, as a predicate on the tables
--   Reachable  every operation on these four tables as a step
-- Scanner      internal/scanner/scanner.go and batch.go
--   Types      the interfaces RPC, Checkpoints and BatchProcessor as records of operations on a
--              state, and the scanner's errors
--   Retry      retry, rpcRetryDelay, and the calls of the provider with their checks
--   Logs       matchesFilter, deduplicate
--   Verify     fetchVerifiedBatch and FetchRange
--   Cycle      the checks of NewWithObserver, resumeBlock, ScanOnce
-- Delivery     internal/delivery/worker.go: the checks of NewWithObserver, backoff, fail, deliver
-- RetentionService  internal/retention/service.go: Preview, Prune
-- Decoder      internal/decoder/decoder.go: Load, Decode, Destinations
-- Processor    internal/decoder/processor.go: the batch of a list of logs, saved in the store
-- AuthFailures cmd/reddotrelay/ui_session.go: authFailureLimiter
-- UiSessions   cmd/reddotrelay/ui_session.go: authenticate and destroy of uiSessionManager, for a token
--              that is not empty, with no other request between their statements
--
-- A table is a list of rows, the newest first; a statement is an operation on lists, and a
-- transaction returns the new tables or an error with the old ones. The schema's primary keys and
-- its foreign key are the predicate `IsValid`; its UNIQUE constraints on event_guid and
-- delivery_guid are not modelled, since they fail only where two SHA-1 digests collide or two hashes
-- differ by case. Failures of the disk and of the driver are not modelled, but a `uint64` of 2^63 or more,
-- which database/sql refuses, is. The draws of newLeaseToken are a list that is passed in. Times
-- are nanoseconds since the epoch, byte strings are lists, and an option of a signed type is a
-- natural number: a negative one is refused like 0 by the code. sort.Slice, whose order of equal
-- entries is open, is an insertion sort. Hashes and addresses are numbers, and their text is the
-- parameter `Hex`. The identifier of an event by SHA-1, core.EventGUID, is a parameter as well.
--
-- go-ethereum's client, the wait for a semaphore or a delay, net/http, encoding/json, crypto/hmac,
-- the secrets and the clock are parameters. Nothing is assumed of them. Metrics and log messages
-- are left out. Loops recurse on the list they walk or on the number of rounds left; the loop of
-- ScanOnce gets as many rounds as there are blocks up to the confirmed head, which is enough since
-- every batch has one at least. The loops over the blocks of a range are those of a `to` below 2^64 - 1. The workers of
-- DrainOnce are not modelled: a delivery is one step.
--
-- Runs of operations are sequences of calls that succeed, one after the other; the operations that read
-- before their transaction (TransitionBackfill, AuthenticateAPIKey) take what they read as an argument
-- of its own. The two statements of SetUserEnabled and of SetUserRole are one step. The identifiers
-- of new rows and of audit rows are arguments or left out. Counters of a job beyond 2^63 are not
-- modelled. The loop of Prune recurses on fuel: one round more than its maximum or, where it
-- has none, than the events that are there. Between two rounds other users of the store may
-- change it; the end of a run without a maximum supposes that they add no events meanwhile.
-- Its arguments are natural numbers: a maximum below 0 is not modelled.
--
-- bcrypt, SHA-256, the uuid package, hexutil and, as the record `Eth`, go-ethereum's addresses, ABI and topics
-- are parameters. Of `Eth` the decoder relies on what `IsSound` says: an address has 160 bits and is
-- read back as it was written; and an event's identifier is made from its signature. The conversion
-- of decoded values to JSON belongs to the parameter that marshals them. The management API, the user
-- interface, the configuration's own writes and the run of a backfill job over its
-- blocks are not modelled.
pub mod Prelude
pub mod Core
pub mod Store
pub mod Scanner
pub mod Delivery
pub mod RetentionService
pub mod Decoder
pub mod Processor
pub mod AuthFailures
pub mod UiSessions
