-- ===== src/Escrow/Dispute.antt =====
-- Disputes of contracts/escrow/src/lib.rs: `dispute_escrow` with its collateral, `resolve_dispute`
-- and `internal_resolve_dispute`.
pub mod Rules
use facilpay_contracts.Prelude.{
  ℕ, ◌+◌, Bool, false, not, ◌&&◌, ◌||◌, Option, none, some, List, [], ◌∷◌, ◌==◌, if◌then◌else◌,
  unwrap_or, contains, put, bytes_eq,
}
use facilpay_contracts.Escrow.Errors.{
  unauthorized, already_processed, contract_paused, not_an_admin, basic, not_disputed,
  insufficient_collateral, escrow, action,
}
use facilpay_contracts.Escrow.Payout.{transfer_if_token_contract}
use facilpay_contracts.Escrow.Queue.{dequeue_escalation}
use facilpay_contracts.Escrow.Release.{set_escrow, escrow_or_err}
use facilpay_contracts.Escrow.Reputation.{update_reputation_on_dispute_outcome}
use facilpay_contracts.Escrow.Statistics.{
  disputed_overall, disputed_once, resolved_overall, resolved_once, update_all,
}
use facilpay_contracts.Escrow.Storage.{Storage, Call, on_reputations, on_statistics, on_transfers}
use facilpay_contracts.Escrow.Types.{
  locked, released, disputed, resolved, status_eq, Escrow, DisputeConfig, DisputeCollateral,
  MultiSigConfig, PauseState,
}
use facilpay_contracts.Host.{
  transfer, Address, Bytes, bytes_of, Env, ok, ◌>>=◌, ◌>>◌, gets, modify, err_if, when,
  require_auth, u64, i128,
}
use facilpay_contracts.Prelude.Int.{pos, ◌*ℤ◌, ltb_ℤ}

abbrev named : Bytes → List Bytes → Bool
named name [] = false
named name (n ∷ ns) = bytes_eq n name || named name ns

abbrev pub is_paused : Bytes → Option PauseState → Bool
is_paused name none = false
is_paused name (some p) = p.globally_paused || named name p.paused_functions

abbrev pub require_not_paused : Bytes → Call Unit
require_not_paused name = do
  s ← gets (λ s. s)
  err_if (is_paused name s.settings.pause_state) (basic contract_paused)

-- `get_dispute_config`
abbrev pub dispute_config_of : Env → Storage → DisputeConfig
dispute_config_of env s = unwrap_or s.settings.dispute_config (record {
  collateral_token = env.current_contract;
  collateral_amount = pos 0;
  collateral_enabled = false;
  min_collateral_ratio_bps = 15000;
})

-- The collateral part of `dispute_escrow`.
unfoldable pub deposit_collateral : Env → Address → ℕ → Escrow → DisputeConfig → Call Unit
unfolding ◌*ℤ◌
deposit_collateral env caller id e config = do
  offered ← i128 (config.collateral_amount *ℤ pos 10000)
  wanted ← i128 (e.amount *ℤ pos config.min_collateral_ratio_bps)
  err_if (ltb_ℤ offered wanted) (action insufficient_collateral)
  on_transfers
      (transfer env config.collateral_token caller env.current_contract config.collateral_amount)
  modify (λ s. record s {
    collateral = put s.collateral id (
        some (record {
          escrow_id = id;
          disputing_party = caller;
          amount = config.collateral_amount;
          token = config.collateral_token;
          deposited_at = env.timestamp;
        }));
  })

unfoldable pub dispute_escrow : Env → Address → ℕ → Call Unit
unfolding deposit_collateral
dispute_escrow env caller id = do
  require_auth env caller
  e ← escrow_or_err id
  err_if (not (caller == e.customer) && not (caller == e.merchant)) (basic unauthorized)
  config ← gets (dispute_config_of env)
  when (config.collateral_enabled && ltb_ℤ (pos 0) config.collateral_amount)
      (deposit_collateral env caller id e config)
  err_if (not (status_eq e.status locked)) (escrow already_processed)
  deadline ← u64 (env.timestamp + 604800)
  set_escrow id (record e {
    status = disputed;
    dispute_started_at = env.timestamp;
    last_activity_at = env.timestamp;
    evidence_deadline = some deadline;
  })
  on_statistics (update_all disputed_overall disputed_once e.customer e.merchant)

-- The collateral goes to the winner, and its slot is emptied.
abbrev pay_collateral : Env → ℕ → Address → Option DisputeCollateral → Call Unit
pay_collateral env id winner slot s = elim slot [
  | none ↦ ok (tt, s)
  | some c ↦
      (do
        on_transfers (transfer env c.token env.current_contract winner c.amount)
        modify (λ s. record s { collateral = put s.collateral id none }))
        s
]

unfoldable pub internal_resolve_dispute : Env → ℕ → Bool → Call Unit
unfolding transfer_if_token_contract
internal_resolve_dispute env id release_to_merchant = do
  e ← escrow_or_err id
  err_if (not (status_eq e.status disputed)) (action not_disputed)
  set_escrow id (record e { status = if release_to_merchant then released else resolved })
  modify (λ s. record s { queue = dequeue_escalation id s.queue })
  let winner = if release_to_merchant then e.merchant else e.customer
  let loser = if release_to_merchant then e.customer else e.merchant
  on_transfers (transfer_if_token_contract env e.token winner e.amount)
  s ← gets (λ s. s)
  pay_collateral env id winner (s.collateral id)
  on_reputations (update_reputation_on_dispute_outcome env winner loser)
  on_statistics (update_all resolved_overall resolved_once e.customer e.merchant)

abbrev not_listed : Option MultiSigConfig → Address → Bool
not_listed none admin = false
not_listed (some c) admin = not (contains c.admins admin)

unfoldable pub resolve_dispute : Env → Address → ℕ → Bool → Call Unit
resolve_dispute env admin id release_to_merchant = do
  require_auth env admin
  require_not_paused (bytes_of "resolve_dispute")
  s ← gets (λ s. s)
  err_if (not_listed s.governance.multisig admin) (basic not_an_admin)
  internal_resolve_dispute env id release_to_merchant
