-- ===== src/Postgres.antt =====
-- internal/postgres: the durable store. Each operation is one transaction that locks the rows which it
-- decides on before it reads the database clock, so committed transactions on a row form an order, and
-- an operation is a function from the tables to the tables and its answer.
pub mod Tables
pub mod Failures
pub mod Candidates
pub mod Claims
pub mod Runs
pub mod Acceptance
pub mod Creates
pub mod Fencing
pub mod Holding
pub mod Owner
pub mod Renewal
pub mod Kept
pub mod Transactions
pub mod Progress
pub mod Advances
pub mod Promise
pub mod Batch
pub mod NativeRenewal
pub mod NativeOwner
pub mod NativeRelease
pub mod NativeLocked
pub mod NativeMoves
pub mod NativeWrites
pub mod NativeReleased
