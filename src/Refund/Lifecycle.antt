-- ===== src/Refund/Lifecycle.antt =====
-- The calls that act on refunds, one after the other. Arbitration is not among them: see
-- Refund/Arbitration.
pub mod Diagram
pub mod Steps
pub mod Paths
use facilpay_contracts.Prelude.{ℕ, Bool, List, [], ◌∷◌}
use facilpay_contracts.Host.{Address, Bytes, Env, after}
use facilpay_contracts.Refund.Denials.{
  reject_refund, finalize_denial, expire_stale_refund, file_appeal, resolve_appeal,
}
use facilpay_contracts.Refund.Requests.{
  RefundRequest, request_refund, approve_refund, process_refund,
}
use facilpay_contracts.Refund.Storage.{RefundStorage}

pub data LedgerCall : Type 0 where
  requests : RefundRequest → LedgerCall
  approves rejects processes : Address → ℕ → LedgerCall
  finalizes expires_stale : ℕ → LedgerCall
  appeals_denial : Address → ℕ → Bytes → LedgerCall
  resolves_appeal : Address → ℕ → Bool → LedgerCall

module _ (owns : Address → ℕ → Address → Bool) where
  -- The storage after a call.
  unfoldable pub after_call : RefundStorage → Env × LedgerCall → RefundStorage
  after_call s (env, requests q) = after s (request_refund owns env q s)
  after_call s (env, approves a id) = after s (approve_refund env a id s)
  after_call s (env, rejects a id) = after s (reject_refund env a id s)
  after_call s (env, processes a id) = after s (process_refund env a id s)
  after_call s (env, finalizes id) = after s (finalize_denial env id s)
  after_call s (env, expires_stale id) = after s (expire_stale_refund env id s)
  after_call s (env, appeals_denial a id reason) = after s (file_appeal env a id reason s)
  after_call s (env, resolves_appeal a id uphold) = after s (resolve_appeal env a id uphold s)

  unfoldable pub after_calls : RefundStorage → List (Env × LedgerCall) → RefundStorage
  unfolding after_call
  after_calls s [] = s
  after_calls s (c ∷ cs) = after_calls (after_call s c) cs
