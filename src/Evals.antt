-- ===== src/Evals.antt =====
-- evals/src/sap_agent_evals/ and evals/tools/: the graders of a recorded run and of an answer, the
-- reference questions with their frozen answers, and the runs that are graded.
pub mod Dataset
pub mod Calls
pub mod Trajectory
pub mod Pressure
pub mod Compare
pub mod Judge
pub mod Expected
pub mod Freeze
pub mod Bridge
pub mod Runner
pub mod Grade
