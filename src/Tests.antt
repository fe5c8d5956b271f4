-- ===== src/Tests.antt =====
-- Runs of the models at concrete inputs, and each property of the development at an input that meets
-- its hypotheses.
pub mod Limits
pub mod Compare
pub mod Dataset
pub mod Orders
pub mod Describe
pub mod Evals
pub mod Freeze
pub mod Queries
pub mod Grade
pub mod Guards
pub mod Judge
pub mod Results
pub mod Routes
pub mod Runner
pub mod Server
pub mod Settings
pub mod System
pub mod Histories
pub mod Lives
