-- ===== src/Escrow/Examples/Admins.antt =====
-- The administration: proposals and successions.
use facilpay_contracts.Prelude.{
  ◌+◌, ◌≤◌, ◌≡◌, refl, true, false, none, some, List, [], ◌∷◌, arith, length, Distinct, put_bytes,
}
use facilpay_contracts.Escrow.AdminHistory.{
  deployed, AdminCall, initializes, proposes, adds, run, run-deployed-IsValid,
  begin_execution-quorum,
}
use facilpay_contracts.Escrow.Examples.{now, three_admins, administered}
use facilpay_contracts.Escrow.Governance.{begin_execution, dispatch_admin}
use facilpay_contracts.Escrow.Governance.Invariant.{IsValid}
use facilpay_contracts.Escrow.Governance.Membership.{
  Config-IsCounted, dispatch_remove_absent-miscounts,
}
use facilpay_contracts.Escrow.Storage.{Governance}
use facilpay_contracts.Escrow.Types.{ActionType, MultiSigConfig, AdminProposal}
use facilpay_contracts.Host.{Env, after}

-- A new contract, with two admins that have to agree.
abbrev first_calls : List (Env × AdminCall)
first_calls =
    (now, initializes 1) ∷ (now, adds 1 2) ∷ (now, proposes 1 ActionType.add_admin 3 []) ∷ []

run-deployed-IsValid_example : IsValid (run deployed first_calls)
run-deployed-IsValid_example = run-deployed-IsValid first_calls

abbrev proposal : AdminProposal
proposal = record {
  id = 49 ∷ [];
  proposer = 1;
  action_type = ActionType.remove_admin;
  target = 77;
  payload = [];
  approvals = 1 ∷ 2 ∷ [];
  approval_count = 2;
  executed = false;
  rejected = false;
  created_at = 999000;
  expires_at = 1001000;
}

abbrev proposed : Governance
proposed = record administered { proposals = put_bytes (λ _. none) (49 ∷ []) (some proposal) }

proposed-IsValid : IsValid proposed
proposed-IsValid = record { config = ground arith; proposals = λ j. ground arith }

abbrev begun : Governance
begun = after (proposed) (begin_execution now (49 ∷ []) (proposed))

begin_execution-quorum_example :
    Distinct proposal.approvals
    × (three_admins.required_signatures ≤ length proposal.approvals)
    × (proposal.executed ≡ false)
    × (proposal.rejected ≡ false)
    × (now.timestamp ≤ proposal.expires_at)
    × (begun.proposals (49 ∷ []) ≡ some (record proposal { executed = true }))
unfolding begin_execution
begin_execution-quorum_example =
    begin_execution-quorum now (49 ∷ []) (record proposal { executed = true }) proposal three_admins
      proposed begun proposed-IsValid refl refl refl

abbrev miscounted : Governance
miscounted = after (administered) (dispatch_admin ActionType.remove_admin 77 [] (administered))

abbrev two_counted : MultiSigConfig
two_counted = record three_admins { total_admins = 2 }

three_admins-IsCounted : Config-IsCounted (some three_admins)
three_admins-IsCounted = ground arith

dispatch_remove_absent-miscounts_example :
    (two_counted.admins ≡ three_admins.admins)
    × (two_counted.total_admins + 1 ≡ length two_counted.admins)
unfolding dispatch_admin
dispatch_remove_absent-miscounts_example =
    dispatch_remove_absent-miscounts 77 [] three_admins two_counted administered miscounted refl
      three_admins-IsCounted refl refl refl
