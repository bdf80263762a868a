-- ===== src/Lib.antt =====
-- The performance control plane, modelled and verified (stanimirivanov/perfeng-control-plane, Go).
--
-- The service accepts requests to run a performance test, drives each accepted Run through a pinned
-- lifecycle by workers that hold leases, collects and verifies its evidence, and keeps approved
-- baselines to compare against. The library follows the packages:
--
-- - Contract (internal/contract/contract.go, snapshot/transitions.json): the lifecycle table
--   `transitions`, CanTransition, Terminal and the identifier patterns.
-- - Run (internal/run/domain.go): Run, Change, Transition and RequestCancellation; Run/Valid,
--   Run/Cancel and Run/History prove what they do. Run/Artifact is artifact.go.
-- - Identity (internal/rawresult/manifest.go, internal/run/claims.go): shared identity syntax.
-- - Baseline (internal/baseline/domain.go): Data has the types, Evidence the checks of the evidence,
--   Lifecycle New, Transition, Validate and MatchesSelection; Trail, Decision and Approved prove.
-- - Memory (internal/memory): the process-local repository, one function for each method. The lock is
--   held for each whole method, so concurrent callers are a list of calls (Memory/Calls).
-- - Postgres (internal/postgres/claims.go, repository.go): Tables has the rows and the frame of a
--   transaction, Candidates the query of ClaimRuns, Claims ClaimRuns, RenewClaim, ReleaseClaim,
--   AdvanceClaim and lockOwnedClaim, Runs Get, Cancel and Advance, Acceptance Accept, and Failures
--   storageError of database.go. A transaction is a function of the tables, the reading of the
--   database clock after its locks, and the way its commit ends. Fencing, Owner, Renewal and Batch are about one
--   transaction; Kept, Progress, Holding, Advances and Promise about a sequence of them (Transactions).
-- - Refinement: the transactions of Postgres against the methods of Memory. Related says when tables
--   and a process-local repository stand for the same Runs and bindings, Writes, Create and Calls
--   that each write and call keeps it, Service is the calls on both stores, Simulation proves.
-- - RawResult (internal/rawresult/manifest.go): Producer and Manifest, with Time/Rfc3339 for the
--   timestamps. Analysis (internal/analysisresult/manifest.go): Report has the types, Valid Validate.
-- - Policy (internal/policy/policy.go): Document has the types, Validate and BaselineReferences,
--   Verdicts ApproveReportVerdicts over IEEE doubles (Float64/Order and Float64/Arithmetic);
--   Coverage, Judged, References, Resolved and Approval prove.
-- - Reconcile (internal/reconcile): Lifecycle is DecideBoundExecution, Stage the router and the
--   interface to the store, Validation the preflight, Bound the observation and the cancellation of a
--   Job; Allowed, Preflight, Clears and Stops prove. The loop of a cancellation runs on fuel.
--   Provision (provisioning.go) dispatches a Job, Evidence and Attempts are the stages of
--   collection.go, analysis.go and reporting.go with their checks; Creation, EvidenceFlow, Recovered,
--   Durable, Found and Completes prove, and Finished composes the three stages over Shelf, a store of
--   one Run that lists its evidence by identifier. Collector (raw_collector.go) is the verified
--   collector, and Verified proves.
-- - Worker (internal/worker/worker.go): Pool is the loop of Run, Attempt the loop of process, each on
--   the list of the events that its select takes; Bounded and Release prove.
-- - Native (internal/nativeworker/renewal.go, leasing.go): the phases of a native worker, AdvancePhase
--   and the timing of a renewal; Phases and Timing prove. Postgres/NativeRenewal is its transaction
--   (internal/postgres/native_renewals.go), and Postgres/NativeMoves, NativeWrites and NativeOwner prove.
--   NativeRelease is the release (internal/nativeworker/release.go,
--   internal/postgres/native_releases.go); NativeLocked and NativeReleased prove.
-- - Base, Text, Time, Float64, Errors: shared helpers; byte strings with the regular expressions,
--   UTF-8 checks and date layout that the program takes from Go's standard library.
-- - Tests: concrete runs, and each theorem applied to one.
--
-- Conventions. A Go string is its list of bytes. A string type with named constants is a data type
-- with one constructor for each and `other` for the rest. An instant is its nanoseconds since Go's
-- zero time; a duration is a signed number. An `int64` revision is a natural number. A pointer that
-- may be nil is an Option. Structs are values, so `Clone` has no counterpart. An error is a value of
-- `Errors.Error`. A context is the error that `ctx.Err()` returns, if any.
--
-- The draw of a Run identifier in `Accept` loops until an identifier is free: the draws are a list, and
-- a create whose draws run out is not finished; `accept_new` shows that it ends at the first free one.
--
-- Parameters: the address parser of net/url (`parse_url`), the test of a DNS label of
-- the Kubernetes library (`dns_label`), SHA-256 (`sha256`), the
-- address parser for requests of net/url (`parse_request_uri`), and the decoding of a policy and of a raw
-- manifest from JSON (`decode`).
--
-- Not modelled: HTTP and SQL transport, object storage, the Kubernetes client, the decoding of
-- JSON documents and the schema interpreter (see the list of components).
pub mod Base
pub mod Text
pub mod Time
pub mod Float64
pub mod Errors
pub mod Contract
pub mod Identity
pub mod Run
pub mod Baseline
pub mod Memory
pub mod Postgres
pub mod Refinement
pub mod RawResult
pub mod Analysis
pub mod Policy
pub mod Reconcile
pub mod Worker
pub mod Native
mod Tests
