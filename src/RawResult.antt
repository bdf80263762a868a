-- ===== src/RawResult.antt =====
-- internal/rawresult/manifest.go: the manifest of the raw evidence of a Run.
pub mod Producer
pub mod Manifest
