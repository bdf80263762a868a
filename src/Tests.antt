-- ===== src/Tests.antt =====
-- Concrete runs of the model, and the theorems applied to them.
mod Samples
mod Runs
mod Creates
mod Baselines
mod Leases
mod Evidence
mod Collectors
mod Stages
mod Workers
mod Batches
mod Natives
mod Renewals
mod Services
mod Releases
mod Floats
mod Policies
