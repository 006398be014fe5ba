-- ===== src/Refund/Denials.antt =====
-- Denials and appeals of contracts/refund/src/lib.rs: a rejection opens a window for an appeal, and
-- becomes final when the window closes or the appeal fails.
pub mod Rules
use facilpay_contracts.Prelude.{
  ℕ, ◌+◌, Bool, true, false, not, ◌||◌, none, some, ltb, ◌==◌, if◌then◌else◌, unwrap_or, is_some,
  put,
}
use facilpay_contracts.Host.{
  Address, Bytes, Env, ◌>>=◌, ◌>>◌, pure, gets, ok_or, modify, err_if, when, require_auth, zoom,
  u64, saturating_u64,
}
use facilpay_contracts.Refund.Errors.{
  refund_not_found, unauthorized, invalid_status, already_processed, refund_window_expired,
  policy_not_found, refund_not_rejected, appeal_window_expired, appeal_already_filed, core,
}
use facilpay_contracts.Refund.Requests.{refund_or_err, move_refund, process_refund_internal}
use facilpay_contracts.Refund.Storage.{
  Appeals, RefundCall, on_ledger, on_appeals, stored_admin_only, append_to,
}
use facilpay_contracts.Refund.Types.{
  RefundStatus, requested, approved, rejected, pending_appeal, status_code, RefundRecord,
}

-- `AppealWindowSeconds`, a week by default
abbrev pub appeal_window : Appeals → ℕ
appeal_window a = unwrap_or a.window 604800

unfoldable pub begin_refund_rejection : Env → Address → ℕ → RefundCall Unit
unfolding move_refund
begin_refund_rejection env admin id = do
  r ← refund_or_err id
  err_if (not (status_code r.status == 0)) (core invalid_status)
  s ← gets (λ s. s)
  on_ledger (
      move_refund requested id (record r {
        status = pending_appeal;
        rejected_by = some admin;
        appeal_deadline = some (saturating_u64 (env.timestamp + appeal_window s.appeals));
      }))

-- Any address that signs may reject.
unfoldable pub reject_refund : Env → Address → ℕ → RefundCall Unit
unfolding begin_refund_rejection
reject_refund env admin id = do require_auth env admin; begin_refund_rejection env admin id

unfoldable pub finalize_denial : Env → ℕ → RefundCall Unit
unfolding move_refund
finalize_denial env id = do
  r ← refund_or_err id
  err_if (not (status_code r.status == 4)) (core refund_not_rejected)
  deadline ← ok_or r.appeal_deadline (core refund_not_rejected)
  err_if (ltb env.timestamp deadline) (core invalid_status)
  on_ledger (
      move_refund pending_appeal id
        (record r { status = rejected; rejected_at = some env.timestamp }))
  on_appeals (modify (λ a. record a { rejected_at = put a.rejected_at id (some env.timestamp) }))

unfoldable pub expire_stale_refund : Env → ℕ → RefundCall Unit
unfolding move_refund
expire_stale_refund env id = do
  r ← refund_or_err id
  err_if (not (status_code r.status == 0)) (core invalid_status)
  expires_at ← ok_or r.expires_at (core policy_not_found)
  err_if (ltb env.timestamp expires_at) (core refund_window_expired)
  on_ledger
      (move_refund requested id (record r { status = rejected; rejected_at = some env.timestamp }))

-- `refund.status != Rejected && refund.status != PendingAppeal`
abbrev pub is_denied : RefundStatus → Bool
is_denied status = status_code status == 2 || (status_code status == 4)

-- The window of an appeal, by the status.
abbrev pub in_appeal_window : Env → ℕ → RefundRecord → Appeals → RefundCall Unit
in_appeal_window env id r a s = elim (status_code r.status == 4) [
  | true ↦
      (do
        deadline ← ok_or r.appeal_deadline (core refund_not_rejected)
        err_if (ltb deadline env.timestamp) (core appeal_window_expired))
        s
  | false ↦
      (do
        rejected_at ← ok_or (a.rejected_at id) (core refund_not_rejected)
        err_if (ltb (saturating_u64 (rejected_at + appeal_window a)) env.timestamp)
            (core appeal_window_expired))
        s
]

unfoldable pub file_appeal : Env → Address → ℕ → Bytes → RefundCall ℕ
file_appeal env customer id reason = do
  require_auth env customer
  r ← refund_or_err id
  err_if (not (r.customer == customer)) (core unauthorized)
  err_if (not (is_denied r.status)) (core refund_not_rejected)
  s ← gets (λ s. s)
  err_if (is_some (s.appeals.by_refund id)) (core appeal_already_filed)
  in_appeal_window env id r s.appeals
  appeal_id ← u64 (s.appeals.counter + 1)
  on_appeals (
      modify (λ a. record a {
        appeals = put a.appeals appeal_id (
            some (record {
              appeal_id = appeal_id;
              refund_id = id;
              appellant = customer;
              reason = reason;
              filed_at = env.timestamp;
              resolved = false;
              outcome = none;
            }));
        counter = appeal_id;
        by_refund = put a.by_refund id (some appeal_id);
      }))
  on_appeals (
      zoom (λ a. a.by_customer) (λ a x. record a { by_customer = x })
        (append_to customer appeal_id))
  pure appeal_id

-- An appeal that is upheld: the refund is approved and processed.
unfoldable pub uphold_appeal : Env → ℕ → RefundCall Unit
unfolding move_refund process_refund_internal
uphold_appeal env id = do
  r ← refund_or_err id
  err_if (not (is_denied r.status)) (core refund_not_rejected)
  on_ledger (move_refund r.status r.id (record r { status = approved }))
  process_refund_internal env r.id

-- An appeal that is denied: the rejection is final.
unfoldable pub deny_appeal : Env → ℕ → RefundCall Unit
unfolding move_refund
deny_appeal env id = do
  r ← refund_or_err id
  err_if (not (is_denied r.status)) (core refund_not_rejected)
  when (status_code r.status == 4) (
      on_ledger (
        move_refund pending_appeal r.id
          (record r { status = rejected; rejected_at = some env.timestamp })))

unfoldable pub resolve_appeal : Env → Address → ℕ → Bool → RefundCall Unit
unfolding uphold_appeal deny_appeal
resolve_appeal env admin appeal_id uphold = do
  stored_admin_only env admin
  s ← gets (λ s. s)
  appeal ← ok_or (s.appeals.appeals appeal_id) (core refund_not_found)
  err_if appeal.resolved (core already_processed)
  if uphold then uphold_appeal env appeal.refund_id else deny_appeal env appeal.refund_id
  on_appeals (
      modify (λ a. record a {
        appeals =
            put a.appeals appeal_id
              (some (record appeal { resolved = true; outcome = some uphold }));
      }))
