-- ===== src/Evals/Judge.antt =====
-- evals/src/sap_agent_evals/judge.py: the rules on the text of an answer, and the model's opinion.
pub mod Numbers
pub mod Rules
pub mod Model
pub mod Verdict
