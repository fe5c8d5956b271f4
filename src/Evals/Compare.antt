-- ===== src/Evals/Compare.antt =====
-- evals/src/sap_agent_evals/compare.py: an answer against the gold answer, by their rows. `none` is a
-- KeyError of a column or an IndexError of a short row. The notes, texts for people, are left out.
pub mod Values
pub mod Tables
pub mod Naming
pub mod Buckets
pub mod Verdict
pub mod Steps
pub mod Filled
pub mod Tallied
pub mod Agreement
pub mod Partners
pub mod Rules
