-- ===== src/Analysis.antt =====
-- internal/analysisresult/manifest.go: the report of an analysis.
pub mod Report
pub mod Valid
