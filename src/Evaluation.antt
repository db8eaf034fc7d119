-- ===== src/Evaluation.antt =====
-- src/ragbench/evaluation: the retrieval metrics.
pub mod Metrics
pub mod Bootstrap
pub mod Identifiers
pub mod Judge
