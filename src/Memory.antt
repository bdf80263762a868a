-- ===== src/Memory.antt =====
-- internal/memory: the process-local repository. Every method holds the one lock of the repository
-- for its whole body, so it is a function from the store to the store and its answer; concurrent
-- callers are an order of calls. `ctx` is what `ctx.Err()` returns under the lock, and `now` what the
-- injected clock returns.
pub mod Store
pub mod Runs
pub mod Artifacts
pub mod Baselines
pub mod Calls
pub mod Later
pub mod Extends
pub mod Acceptance
pub mod Created
pub mod Refused
pub mod Replay
