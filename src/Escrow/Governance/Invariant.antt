-- ===== src/Escrow/Governance/Invariant.antt =====
-- What holds of the administration of the escrow contract between two calls.
use facilpay_contracts.Prelude.{
  ◌≤◌, ◌<◌, ◌≡◌, Option, none, some, arith, length, length-push_back, Distinct, push_back-Distinct,
  without-Distinct,
}
use facilpay_contracts.Escrow.Governance.{
  initialize, propose_action, approve_action, begin_execution, reject_action, add_admin,
  add_trusted_bridge, remove_admin, dispatch_admin,
}
use facilpay_contracts.Escrow.Storage.{Governance}
use facilpay_contracts.Escrow.Types.{ActionType, MultiSigConfig, AdminProposal}
use facilpay_contracts.Host.{Address, Bytes, Env, ok}

abbrev pub Config-IsValid : Option MultiSigConfig → Type 0
Config-IsValid none = Unit
Config-IsValid (some c) =
    Distinct c.admins × (0 < c.required_signatures) × (c.required_signatures ≤ c.total_admins)

abbrev pub Proposal-IsValid : Option AdminProposal → Type 0
Proposal-IsValid none = Unit
Proposal-IsValid (some p) =
    Distinct p.approvals × (p.approval_count ≡ length p.approvals) × (0 < p.approval_count)

-- The admins are distinct and the threshold lies between 1 and the number of admins on record; the
-- approvals of a proposal are distinct, and are as many as its counter says.
pub record IsValid (g : Governance) : Type 0 where
  pub config : Config-IsValid g.multisig
  pub proposals : (id : Bytes) → Proposal-IsValid (g.proposals id)

module _ (g g' : Governance) (v : IsValid g) where
  pub initialize-IsValid : (admin : Address) → initialize admin g ≡ ok (tt, g') → IsValid g'
  unfolding initialize
  initialize-IsValid admin e = record {
    config = ground arith;
    proposals = λ j. ground (arith, v.proposals j);
  }

  pub propose_action-IsValid :
      (env : Env) (proposer : Address) (t : ActionType) (target : Address) (payload id : Bytes)
      → propose_action env proposer t target payload g ≡ ok (id, g')
      → IsValid g'
  unfolding propose_action
  propose_action-IsValid env proposer t target payload id e = record {
    config = ground (arith, v.config);
    proposals = λ j. ground (arith, v.proposals j);
  }

  pub approve_action-IsValid :
      (env : Env) (approver : Address) (id : Bytes)
      → approve_action env approver id g ≡ ok (tt, g')
      → IsValid g'
  unfolding approve_action
  approve_action-IsValid env approver id e = record {
    config = ground (arith, v.config);
    proposals =
        λ j. grind (arith, v.proposals j, v.proposals id, push_back-Distinct, length-push_back {0});
  }

  pub begin_execution-IsValid :
      (env : Env) (id : Bytes) (p : AdminProposal)
      → begin_execution env id g ≡ ok (p, g')
      → IsValid g'
  unfolding begin_execution
  begin_execution-IsValid env id p e = record {
    config = ground (arith, v.config);
    proposals = λ j. ground (arith, v.proposals j, v.proposals id);
  }

  pub reject_action-IsValid :
      (env : Env) (rejecter : Address) (id : Bytes)
      → reject_action env rejecter id g ≡ ok (tt, g')
      → IsValid g'
  unfolding reject_action
  reject_action-IsValid env rejecter id e = record {
    config = ground (arith, v.config);
    proposals = λ j. ground (arith, v.proposals j, v.proposals id);
  }

  pub add_admin-IsValid :
      (env : Env) (caller admin : Address) → add_admin env caller admin g ≡ ok (tt, g') → IsValid g'
  unfolding add_admin
  add_admin-IsValid env caller admin e = record {
    config = grind (arith, v.config, push_back-Distinct);
    proposals = λ j. ground (arith, v.proposals j);
  }

  pub add_trusted_bridge-IsValid :
      (env : Env) (caller bridge : Address)
      → add_trusted_bridge env caller bridge g ≡ ok (tt, g')
      → IsValid g'
  unfolding add_trusted_bridge
  add_trusted_bridge-IsValid env caller bridge e = record {
    config = ground (arith, v.config);
    proposals = λ j. ground (arith, v.proposals j);
  }

  pub remove_admin-IsValid :
      (env : Env) (caller admin : Address)
      → remove_admin env caller admin g ≡ ok (tt, g')
      → IsValid g'
  unfolding remove_admin
  remove_admin-IsValid env caller admin e = record {
    config = grind (arith, v.config, without-Distinct);
    proposals = λ j. ground (arith, v.proposals j);
  }

  pub dispatch_admin-IsValid :
      (t : ActionType) (target : Address) (payload : Bytes)
      → dispatch_admin t target payload g ≡ ok (tt, g')
      → IsValid g'
  unfolding dispatch_admin
  dispatch_admin-IsValid t target payload e = record {
    config = grind (arith, v.config, push_back-Distinct, without-Distinct);
    proposals = λ j. ground (arith, v.proposals j);
  }
