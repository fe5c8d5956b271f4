-- ===== src/Panel/Changes.antt =====
-- The handlers of the panel that touch no proposal.
use test_analyst_agent.Common.{ℕ, String, ◌≡◌, arith}
use test_analyst_agent.Common.Int.{ℤ}
use test_analyst_agent.Store.Rows.{Store}
use test_analyst_agent.Panel.{Session, grant, set_policy}
use test_analyst_agent.Panel.Nominate.{Candidates, candidate}

-- The limits and the policy leave the proposals alone.
pub grant-rows :
    (r : Session) (user : String) (extra : ℤ) (reason : String) (now : ℕ) (s : Store)
    → (grant r user extra reason now s).0.proposals ≡ s.proposals
unfolding grant
grant-rows r user extra reason now s = ground arith

pub set_policy-rows :
    (r : Session) (key value by reason : String) (now : ℕ) (s : Store)
    → (set_policy r key value by reason now s).0.proposals ≡ s.proposals
unfolding set_policy
set_policy-rows r key value by reason now s = ground arith

pub candidate-rows :
    (r : Session) (id by : String) (now : ℕ) (day : String) (s : Store) (files : Candidates)
    → (candidate r id by now day s files).0.0.proposals ≡ s.proposals
unfolding candidate
candidate-rows r id by now day s files = ground arith

pub candidate-settings :
    (r : Session) (id by : String) (now : ℕ) (day : String) (s : Store) (files : Candidates)
    → (candidate r id by now day s files).0.0.settings ≡ s.settings
unfolding candidate
candidate-settings r id by now day s files = ground arith
