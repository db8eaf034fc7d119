-- ===== src/Tests.antt =====
-- Runs of the model on small inputs, and the theorems applied to them.
pub mod Budget
pub mod Fusion
pub mod Metrics
pub mod Answers
pub mod Shortlist
pub mod Pricing
pub mod TopThree
pub mod Adjudication
pub mod Alignment
pub mod Chunking
pub mod Runs
pub mod Plan
pub mod Gateway
pub mod Judge
pub mod Grid
