-- ===== src/Escrow/AdminHistory.antt =====
-- The calls of the administration one after the other, by anyone and at any time.
use facilpay_contracts.Prelude.{
  ℕ, ◌≤◌, ◌≡◌, ◌≢◌, true, false, none, some, List, [], ◌∷◌, arith, length, Distinct, bytes_eq_refl,
}
use facilpay_contracts.Escrow.Errors.{invalid_status, Error, escrow}
use facilpay_contracts.Escrow.Governance.{
  initialize, propose_action, approve_action, begin_execution, reject_action, add_admin,
  add_trusted_bridge, remove_admin, dispatch_admin,
}
use facilpay_contracts.Escrow.Governance.Invariant.{
  IsValid, initialize-IsValid, propose_action-IsValid, approve_action-IsValid,
  begin_execution-IsValid, reject_action-IsValid, add_admin-IsValid, add_trusted_bridge-IsValid,
  remove_admin-IsValid, dispatch_admin-IsValid,
}
use facilpay_contracts.Escrow.Storage.{Governance}
use facilpay_contracts.Escrow.Succession.{
  designate_successor, activate_succession, revoke_succession,
}
use facilpay_contracts.Escrow.Succession.Keeps.{
  designate_successor-IsValid, activate_succession-IsValid, revoke_succession-IsValid,
}
use facilpay_contracts.Escrow.Types.{ActionType, MultiSigConfig, AdminProposal}
use facilpay_contracts.Host.{
  Address, Bytes, Env, ok, err, Action, ◌>>=◌, >>=-eq-ok, after, after_cases,
}

pub data AdminCall : Type 0 where
  initializes : Address → AdminCall
  proposes : Address → ActionType → Address → Bytes → AdminCall
  approves rejects : Address → Bytes → AdminCall
  executes : Bytes → AdminCall
  adds removes bridges : Address → Address → AdminCall
  designates : Address → Address → ℕ → AdminCall
  activates revokes : Address → AdminCall

-- `execute_action`, as far as it acts on the administration.
abbrev pub execute_admin : Env → Bytes → Action Error Governance Unit
execute_admin env id = do
  p ← begin_execution env id
  dispatch_admin p.action_type p.target p.payload

pub step : Governance → Env × AdminCall → Governance
step g (env, initializes admin) = after g (initialize admin g)
step g (env, proposes a t target payload) = after g (propose_action env a t target payload g)
step g (env, approves a id) = after g (approve_action env a id g)
step g (env, rejects a id) = after g (reject_action env a id g)
step g (env, executes id) = after g (execute_admin env id g)
step g (env, adds a b) = after g (add_admin env a b g)
step g (env, removes a b) = after g (remove_admin env a b g)
step g (env, bridges a b) = after g (add_trusted_bridge env a b g)
step g (env, designates a b delay) = after g (designate_successor env a b delay g)
step g (env, activates a) = after g (activate_succession env a g)
step g (env, revokes a) = after g (revoke_succession env a g)

pub run : Governance → List (Env × AdminCall) → Governance
run g [] = g
run g (c ∷ cs) = run (step g c) cs

-- The storage of a contract that was just deployed.
abbrev pub deployed : Governance
deployed = record {
  multisig = none;
  schema_version = none;
  proposals = λ _. none;
  proposal_counter = 0;
  succession = none;
  trusted_bridges = λ _. false;
}

execute_admin-IsValid :
    (env : Env) (id : Bytes) (g g' : Governance)
    → IsValid g
    → execute_admin env id g ≡ ok (tt, g')
    → IsValid g'
execute_admin-IsValid env id g g' v e =
    let (p, h, began, done) = >>=-eq-ok (begin_execution env id) _ g e in
    dispatch_admin-IsValid h g' (begin_execution-IsValid g h v env id p began) _ _ _ done

step-IsValid : (g : Governance) (c : Env × AdminCall) → IsValid g → IsValid (step g c)
unfolding step
step-IsValid g (env, initializes admin) v =
    after_cases IsValid g _ v λ r g' e. initialize-IsValid g g' v admin e
step-IsValid g (env, proposes a t target payload) v =
    after_cases IsValid g _ v λ r g' e. propose_action-IsValid g g' v env a t target payload r e
step-IsValid g (env, approves a id) v =
    after_cases IsValid g _ v λ r g' e. approve_action-IsValid g g' v env a id e
step-IsValid g (env, rejects a id) v =
    after_cases IsValid g _ v λ r g' e. reject_action-IsValid g g' v env a id e
step-IsValid g (env, executes id) v =
    after_cases IsValid g _ v λ r g' e. execute_admin-IsValid env id g g' v e
step-IsValid g (env, adds a b) v =
    after_cases IsValid g _ v λ r g' e. add_admin-IsValid g g' v env a b e
step-IsValid g (env, removes a b) v =
    after_cases IsValid g _ v λ r g' e. remove_admin-IsValid g g' v env a b e
step-IsValid g (env, bridges a b) v =
    after_cases IsValid g _ v λ r g' e. add_trusted_bridge-IsValid g g' v env a b e
step-IsValid g (env, designates a b delay) v =
    after_cases IsValid g _ v λ r g' e. designate_successor-IsValid g g' v env a b delay e
step-IsValid g (env, activates a) v =
    after_cases IsValid g _ v λ r g' e. activate_succession-IsValid g g' v env a e
step-IsValid g (env, revokes a) v =
    after_cases IsValid g _ v λ r g' e. revoke_succession-IsValid g g' v env a e

run-IsValid : (g : Governance) (cs : List (Env × AdminCall)) → IsValid g → IsValid (run g cs)
unfolding run
run-IsValid g [] v = v
run-IsValid g (c ∷ cs) v = run-IsValid (step g c) cs (step-IsValid g c v)

-- After any calls of the administration on a new contract, by anyone and at any times: the admins
-- are distinct, the threshold is at least 1 and at most the number of admins on record, and each
-- proposal has distinct approvals, at least one, and as many as its counter says.
pub run-deployed-IsValid : (cs : List (Env × AdminCall)) → IsValid (run deployed cs)
run-deployed-IsValid cs = run-IsValid deployed cs (record { config = tt; proposals = λ j. tt })

-- Where the administration is valid, an execution that succeeds had the approval of at least as many
-- distinct addresses as the threshold asks for, was in time, was neither executed nor rejected
-- before, and marks the proposal.
pub begin_execution-quorum :
    (env : Env) (id : Bytes) (q p : AdminProposal) (c : MultiSigConfig) (g g' : Governance)
    → IsValid g
    → g.proposals id ≡ some p
    → g.multisig ≡ some c
    → begin_execution env id g ≡ ok (q, g')
    → Distinct p.approvals
      × (c.required_signatures ≤ length p.approvals)
      × (p.executed ≡ false)
      × (p.rejected ≡ false)
      × (env.timestamp ≤ p.expires_at)
      × (g'.proposals id ≡ some (record p { executed = true }))
unfolding begin_execution
begin_execution-quorum env id q p c g g' v hp hc e =
    ground (arith, v.proposals id, bytes_eq_refl id)

-- No proposal is executed, approved or rejected after it was executed.
pub begin_execution_once :
    (env later : Env) (id : Bytes) (q : AdminProposal) (a : Address) (g g' h : Governance)
    → begin_execution env id g ≡ ok (q, g')
    → (begin_execution later id g' ≡ err (escrow invalid_status))
      × (approve_action later a id g' ≢ ok (tt, h))
      × (reject_action later a id g' ≢ ok (tt, h))
unfolding begin_execution approve_action reject_action
begin_execution_once env later id q a g g' h e = ground (arith, bytes_eq_refl id)
