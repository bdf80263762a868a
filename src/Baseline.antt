-- ===== src/Baseline.antt =====
-- internal/baseline/domain.go: one baseline version, its lifecycle and its audit trail. A record is a
-- value: what `Clone` isolates is never shared here.
pub mod Data
pub mod Evidence
pub mod Lifecycle
pub mod Trail
pub mod Decision
pub mod Approved
