-- ===== src/System/Switches.antt =====
-- What the panel's policy switches do to the proposals that come after.
use test_analyst_agent.Common.{
  ℕ, String, Bool, true, false, ◌≡◌, refl, sym, ap, ◌∙◌, Option, none, some, List, [], ◌∷◌, all,
  str_eq, find, arith,
}
use test_analyst_agent.Common.Int.{ℤ}
use test_analyst_agent.Store.Rows.{Store, Proposal, auto}
use test_analyst_agent.Store.Proposals.{get_proposal}
use test_analyst_agent.Store.Proposals.Lives.{Life, stays, files, moves}
use test_analyst_agent.Store.Settings.{setting, setting_key, value_or}
use test_analyst_agent.Tools.Replies.{Limits, switched_off, PolicyReason}
use test_analyst_agent.Tools.Policy.{policy}
use test_analyst_agent.Tools.Propose.{Proposing, Asked, propose_query, propose_checked}
use test_analyst_agent.Tools.Propose.Effects.{as_blocked, as_planned}
use test_analyst_agent.Tools.Execute.Settings.{execute_query-settings}
use test_analyst_agent.Tools.Sanity.{sanity_check}
use test_analyst_agent.Panel.{Session, approve, reject, amend_proposal, grant}
use test_analyst_agent.Guards.Verdict.{Verdict}
use test_analyst_agent.Tools.Describe.Journal.{describe_schema-settings}
use test_analyst_agent.Panel.Changes.{candidate-settings}
use test_analyst_agent.System.{
  Service, Call, proposes, executes, checks_sanity, describes, nominates, approves, rejects, amends,
  grants, sets_policy, step, history,
}
use test_analyst_agent.System.Life.{Checked, Files, Moves}
use test_analyst_agent.System.Life.Steps.{step-Lives}

propose-settings :
    (l : Limits) (env : Proposing) (a : Asked) (w : Verdict) (s : Store)
    → (propose_query l env a w s).store.settings ≡ s.settings
unfolding propose_query
propose-settings l env a w s = ground arith

sanity-settings :
    (l : Limits) (id user : String) (now : ℕ) (s : Store)
    → (sanity_check l id user now s).store.settings ≡ s.settings
unfolding sanity_check
sanity-settings l id user now s = ground arith

amend-settings :
    (r : Session) (id new_id sql by note : String) (now : ℕ) (s : Store)
    → (amend_proposal r id new_id sql by note now s).0.settings ≡ s.settings
unfolding amend_proposal
amend-settings r id new_id sql by note now s = ground arith

approve-settings :
    (r : Session) (id by note : String) (now : ℕ) (s : Store)
    → (approve r id by note now s).0.settings ≡ s.settings
unfolding approve
approve-settings r id by note now s = ground arith

reject-settings :
    (r : Session) (id by note : String) (now : ℕ) (s : Store)
    → (reject r id by note now s).0.settings ≡ s.settings
unfolding reject
reject-settings r id by note now s = ground arith

grant-settings :
    (r : Session) (user : String) (extra : ℤ) (reason : String) (now : ℕ) (s : Store)
    → (grant r user extra reason now s).0.settings ≡ s.settings
unfolding grant
grant-settings r user extra reason now s = ground arith

checked-settings :
    (l : Limits) (env : Proposing) (a : Asked) (o : Option Verdict) (s : Store)
    → (propose_checked l env a o s).store.settings ≡ s.settings
unfolding propose_checked
checked-settings l env a none s = refl
checked-settings l env a (some w) s = propose-settings l env a w s

-- Not a change of the policy.
abbrev pub leaves_policy : Call → Bool
leaves_policy (sets_policy r key value by reason now) = false
leaves_policy _ = true

step-settings :
    (v : Service) (c : Call) (s : Store)
    → leaves_policy c ≡ true
    → (step v c s).0.settings ≡ s.settings
unfolding step
step-settings v (proposes env a) s h = checked-settings v.limits env a (v.guards a.sql) s
step-settings v (executes env w) s h = execute_query-settings v.limits env w s
step-settings v (checks_sanity id user now) s h = sanity-settings v.limits id user now s
step-settings v (describes as_of table user now) s h =
    describe_schema-settings v.model as_of table user now s
step-settings v (nominates r id by now day drafts) s h = candidate-settings r id by now day s drafts
step-settings v (approves r id by note now) s h = approve-settings r id by note now s
step-settings v (rejects r id by note now) s h = reject-settings r id by note now s
step-settings v (amends r id new_id sql by note now) s h =
    amend-settings r id new_id sql by note now s
step-settings v (grants r user extra reason now) s h = grant-settings r user extra reason now s
step-settings v (sets_policy r key value by reason now) s h = absurd (ground arith)

-- The switch for runs without an analyst is not on.
abbrev pub SwitchedOff : Store → Type 0
SwitchedOff s = str_eq (setting "auto_execute" "on" s) "on" ≡ false

off-same : (s s' : Store) → s'.settings ≡ s.settings → SwitchedOff s → SwitchedOff s'
unfolding setting
off-same s s' e off =
    ap (λ rows. str_eq (value_or "on" (find setting_key "auto_execute" rows)) "on") e ∙ off

policy-off :
    (l : Limits) (s : Store) (w : Verdict) (estimate : Option ℕ)
    → SwitchedOff s
    → policy l s w estimate ≡ some switched_off
unfolding policy
policy-off l s w estimate h = rw h refl

abbrev pub is_auto : Option Proposal → Bool
is_auto none = false
is_auto (some p) = elim p.status [ auto ↦ true | _ ↦ false ]

reason-pending : (a b : PolicyReason) → some a ≡ some b → a ≡ b
reason-pending a b h = cc

Checked-auto :
    (l : Limits) (env : Proposing) (a : Asked) (o : Option Verdict) (s : Store) (q : Proposal)
    → SwitchedOff s
    → Checked l env a o s q
    → is_auto (some q) ≡ false
Checked-auto l env a none s q off f = absurd f
Checked-auto l env a (some w) s q off (as_blocked bad e) = rw e refl
Checked-auto l env a (some w) s q off (as_planned plan reason good t r e) =
    rw (e, reason-pending reason switched_off (sym r ∙ policy-off l s w plan.estimated_rows off))
      refl

Files-auto :
    (v : Service) (s : Store) (c : Call) (q : Proposal)
    → SwitchedOff s
    → Files v s c q
    → is_auto (some q) ≡ false
Files-auto v s (proposes env a) q off f = Checked-auto v.limits env a (v.guards a.sql) s q off f
Files-auto v s (amends r id new_id sql by note now) q off f = rw f.fresh refl
Files-auto v s (executes _ _) q off f = absurd f
Files-auto v s (checks_sanity _ _ _) q off f = absurd f
Files-auto v s (describes _ _ _ _) q off f = absurd f
Files-auto v s (nominates _ _ _ _ _ _) q off f = absurd f
Files-auto v s (approves _ _ _ _ _) q off f = absurd f
Files-auto v s (rejects _ _ _ _ _) q off f = absurd f
Files-auto v s (grants _ _ _ _ _) q off f = absurd f
Files-auto v s (sets_policy _ _ _ _ _ _) q off f = absurd f

Moves-auto : (c : Call) (j : String) (p q : Proposal) → Moves c j p q → is_auto (some q) ≡ false
Moves-auto (approves r id by note now) j p q m = rw m.decided refl
Moves-auto (rejects r id by note now) j p q m = rw m.decided refl
Moves-auto (amends r id new_id sql by note now) j p q m = rw m.decided refl
Moves-auto (executes env w) j p q m = rw m.taken refl
Moves-auto (proposes _ _) j p q m = absurd m
Moves-auto (checks_sanity _ _ _) j p q m = absurd m
Moves-auto (describes _ _ _ _) j p q m = absurd m
Moves-auto (nominates _ _ _ _ _ _) j p q m = absurd m
Moves-auto (grants _ _ _ _ _) j p q m = absurd m
Moves-auto (sets_policy _ _ _ _ _ _) j p q m = absurd m

Life-auto :
    (v : Service) (s : Store) (c : Call) (j : String) (o o' : Option Proposal)
    → SwitchedOff s
    → Life (Files v s c) (Moves c j) o o'
    → is_auto o' ≡ true
    → is_auto o ≡ true
Life-auto v s c j o o' off (stays e) h = sym (ap is_auto e) ∙ h
Life-auto v s c j o o' off (files q e e' f) h =
    absurd (ground (arith, sym (ap is_auto e') ∙ h, Files-auto v s c q off f))
Life-auto v s c j o o' off (moves p q e e' m) h =
    absurd (ground (arith, sym (ap is_auto e') ∙ h, Moves-auto c j p q m))

-- Once the switch for runs without an analyst is off, and as long as nobody changes the policy: no
-- history of calls makes a proposal AUTO. What is AUTO in the end was so already when the switch was off.
pub history-auto :
    (v : Service) (cs : List Call) (j : String) (s : Store)
    → SwitchedOff s
    → all leaves_policy cs ≡ true
    → is_auto (get_proposal j (history v cs s).0) ≡ true
    → is_auto (get_proposal j s) ≡ true
unfolding history
history-auto v [] j s off l h = h
history-auto v (c ∷ cs) j s off l h =
    let still : SwitchedOff (step v c s).0 =
      off-same s (step v c s).0 (step-settings v c s (ground arith)) off in
    Life-auto v s c j _ _ off (step-Lives v c j s)
      (history-auto v cs j (step v c s).0 still (ground arith) h)
