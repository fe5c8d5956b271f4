-- ===== src/Guards/Verdict.antt =====
-- Verdict of mcp_server/src/sap_agent_mcp/guards.py: the checks, and what the query touches.
use test_analyst_agent.Common.{ℕ, String, Bool, true, false, Option, List, keep}
use test_analyst_agent.Store.Rows.{Check, warning, failed}

pub record Verdict : Type 0 where
  pub ok : Bool
  pub checks : List Check
  pub sql : String
  pub tables : List String
  pub columns : List String
  pub row_limit : Option ℕ
  pub limit_added : Bool

abbrev pub is_failed : Check → Bool
is_failed c = elim c.status [ failed ↦ true | _ ↦ false ]

abbrev pub is_warned : Check → Bool
is_warned c = elim c.status [ warning ↦ true | _ ↦ false ]

abbrev pub failures : Verdict → List Check
failures v = keep is_failed v.checks

abbrev pub warnings : Verdict → List Check
warnings v = keep is_warned v.checks
