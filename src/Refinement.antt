-- ===== src/Refinement.antt =====
-- The durable store (internal/postgres/repository.go) against the process-local one
-- (internal/memory/repository.go): both implement the repository of Runs that the service calls.
pub mod Related
pub mod Writes
pub mod Create
pub mod Service
pub mod Calls
pub mod Simulation
