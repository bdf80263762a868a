-- ===== src/Reconcile.antt =====
-- internal/reconcile: one attempt at the work of a leased Run. A stage reads the Run of its claim,
-- asks the world outside, and asks the store for at most one transition under the lease.
pub mod Stage
pub mod Lifecycle
pub mod Validation
pub mod Bound
pub mod Allowed
pub mod Clears
pub mod Stops
pub mod Preflight
pub mod Evidence
pub mod EvidenceFlow
pub mod Recovered
pub mod Provision
pub mod Creation
pub mod Attempts
pub mod Durable
pub mod Shelf
pub mod Found
pub mod Completes
pub mod Finished
pub mod Collector
pub mod Verified
