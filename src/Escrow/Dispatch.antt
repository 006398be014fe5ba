-- ===== src/Escrow/Dispatch.antt =====
-- Execution of an admin proposal, `execute_action` and `dispatch_action` of
-- contracts/escrow/src/lib.rs.
pub mod Rules
use facilpay_contracts.Prelude.{ℕ, ◌-◌, Bool, not, ◌==◌, if◌then◌else◌, unwrap_or, get_elem?}
use facilpay_contracts.Escrow.Errors.{not_disputed, action}
use facilpay_contracts.Escrow.Governance.{begin_execution, dispatch_admin}
use facilpay_contracts.Escrow.Governance.Numbers.{read_u64_from_bytes}
use facilpay_contracts.Escrow.Payout.{transfer_if_token_contract, pay_out}
use facilpay_contracts.Escrow.Release.{set_escrow, escrow_or_err, check_status}
use facilpay_contracts.Escrow.Reputation.{
  update_reputation_on_completion, update_reputation_on_dispute_outcome,
}
use facilpay_contracts.Escrow.Statistics.{
  update_overall, update_customer_analytics, update_merchant_analytics, released_after,
  released_value, resolved_overall, resolved_once,
}
use facilpay_contracts.Escrow.Storage.{
  Call, on_governance, on_reputations, on_statistics, on_transfers,
}
use facilpay_contracts.Escrow.Types.{released, disputed, resolved, status_eq, Escrow, ActionType}
use facilpay_contracts.Host.{Address, Bytes, Env, ◌>>=◌, ◌>>◌, err_if}

abbrev flag_at : Bytes → ℕ → Bool
flag_at payload at = not (unwrap_or (get_elem? payload at) 0 == 0)

-- The release itself, without a tenure bonus.
abbrev pub count_release : Env → Escrow → Call Unit
count_release env e = do
  on_reputations (update_reputation_on_completion env e.merchant)
  on_reputations (update_reputation_on_completion env e.customer)
  on_statistics do
    update_overall (released_after e.amount (env.timestamp - e.created_at))
    update_merchant_analytics e.merchant (released_value e.amount)
    update_customer_analytics e.customer (released_value e.amount)

unfoldable pub settle_dispatched : Env → ℕ → Escrow → Call Unit
settle_dispatched env id e = do
  set_escrow id e
  pay_out env e.token e.amount e.fee_bps e.merchant
  count_release env e

-- `ActionType::ReleaseEscrow`. This release does not look at children, sub-accounts or signers.
unfoldable pub dispatch_release : Env → ℕ → Bool → Call Unit
unfolding check_status settle_dispatched
dispatch_release env id early_release = do
  e ← escrow_or_err id
  check_status env e early_release e.status
  settle_dispatched env id (record e { status = released })

-- `ActionType::ResolveDispute`. This resolution leaves the collateral and the escalation queue as
-- they are.
unfoldable pub dispatch_resolve : Env → ℕ → Bool → Call Unit
dispatch_resolve env id release_to_merchant = do
  e ← escrow_or_err id
  err_if (not (status_eq e.status disputed)) (action not_disputed)
  set_escrow id (record e { status = if release_to_merchant then released else resolved })
  let winner = if release_to_merchant then e.merchant else e.customer
  let loser = if release_to_merchant then e.customer else e.merchant
  on_reputations (update_reputation_on_dispute_outcome env winner loser)
  on_transfers (transfer_if_token_contract env e.token winner e.amount)
  on_statistics do
    update_overall resolved_overall
    update_merchant_analytics e.merchant resolved_once
    update_customer_analytics e.customer resolved_once

unfoldable pub dispatch_action : Env → ActionType → Address → Bytes → Call Unit
unfolding dispatch_admin read_u64_from_bytes
dispatch_action env ActionType.release_escrow target payload =
    dispatch_release env (read_u64_from_bytes payload 0) (flag_at payload 8)
dispatch_action env ActionType.resolve_dispute target payload =
    dispatch_resolve env (read_u64_from_bytes payload 0) (flag_at payload 8)
dispatch_action env t target payload = on_governance (dispatch_admin t target payload)

unfoldable pub execute_action : Env → Bytes → Call Unit
execute_action env proposal_id = do
  p ← on_governance (begin_execution env proposal_id)
  dispatch_action env p.action_type p.target p.payload
