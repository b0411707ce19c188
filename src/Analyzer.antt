-- ===== src/Analyzer.antt =====
-- src/analyzer: the offline analysis of a trace.
pub mod GenerationTracker
