-- ===== src/Escrow/Lifecycle.antt =====
-- The calls that act on escrows, one after the other, and the statuses that an escrow runs through.
pub mod Moves
pub mod Steps
pub mod Wrapped
pub mod Creations
pub mod History
pub mod Final
use facilpay_contracts.Prelude.{ℕ, Bool, Option, List, [], ◌∷◌}
use facilpay_contracts.Escrow.Create.{
  Request, create_escrow, create_escrow_with_multisig, create_child_escrow,
}
use facilpay_contracts.Escrow.Dispatch.{execute_action}
use facilpay_contracts.Escrow.Dispute.{dispute_escrow, resolve_dispute}
use facilpay_contracts.Escrow.Refund.{refund_escrow, expire_escrow, extend_escrow_expiry}
use facilpay_contracts.Escrow.Release.{release_escrow, approve_escrow_release}
use facilpay_contracts.Escrow.Storage.{Storage}
use facilpay_contracts.Escrow.SubAccounts.{
  create_sub_account, fund_sub_account, release_sub_account,
}
use facilpay_contracts.Escrow.Timelock.{queue_action, execute_queued_action, cancel_queued_action}
use facilpay_contracts.Escrow.Types.{MultisigConfiguration, EscrowActionType}
use facilpay_contracts.Host.{Address, Bytes, Env, after}
use facilpay_contracts.Prelude.Int.{ℤ}

pub data EscrowCall : Type 0 where
  creates : Request → EscrowCall
  creates_signed : Request → MultisigConfiguration → EscrowCall
  creates_child : Address → ℕ → ℤ → Address → Address → Address → EscrowCall
  approves : Address → ℕ → EscrowCall
  releases : Address → ℕ → Bool → EscrowCall
  refunds disputes : Address → ℕ → EscrowCall
  resolves : Address → ℕ → Bool → EscrowCall
  expires : ℕ → EscrowCall
  extends : Address → ℕ → ℕ → EscrowCall
  queues : Address → ℕ → EscrowActionType → Bytes → EscrowCall
  runs_queued : ℕ → EscrowCall
  cancels_queued : Address → ℕ → EscrowCall
  executes : Bytes → EscrowCall
  divides : Address → ℕ → Bytes → ℤ → Option ℤ → EscrowCall
  funds : Address → ℕ → ℕ → ℤ → EscrowCall
  pays_part : Address → ℕ → ℕ → EscrowCall

-- The storage after a call.
unfoldable pub after_call : Storage → Env × EscrowCall → Storage
after_call s (env, creates r) = after s (create_escrow env r s)
after_call s (env, creates_signed r m) = after s (create_escrow_with_multisig env r m s)
after_call s (env, creates_child a parent amount token customer merchant) =
    after s (create_child_escrow env a parent amount token customer merchant s)
after_call s (env, approves a id) = after s (approve_escrow_release env a id s)
after_call s (env, releases a id early) = after s (release_escrow env a id early s)
after_call s (env, refunds a id) = after s (refund_escrow env a id s)
after_call s (env, disputes a id) = after s (dispute_escrow env a id s)
after_call s (env, resolves a id to_merchant) = after s (resolve_dispute env a id to_merchant s)
after_call s (env, expires id) = after s (expire_escrow env id s)
after_call s (env, extends a id expiry) = after s (extend_escrow_expiry env a id expiry s)
after_call s (env, queues a id kind payload) = after s (queue_action env a id kind payload s)
after_call s (env, runs_queued id) = after s (execute_queued_action env id s)
after_call s (env, cancels_queued a id) = after s (cancel_queued_action env a id s)
after_call s (env, executes id) = after s (execute_action env id s)
after_call s (env, divides a id label amount fee) =
    after s (create_sub_account env a id label amount fee s)
after_call s (env, funds a id sub_id amount) = after s (fund_sub_account env a id sub_id amount s)
after_call s (env, pays_part a id sub_id) = after s (release_sub_account env a id sub_id s)

unfoldable pub after_calls : Storage → List (Env × EscrowCall) → Storage
unfolding after_call
after_calls s [] = s
after_calls s (c ∷ cs) = after_calls (after_call s c) cs
