-- ===== src/Escrow/Clawback.antt =====
-- Clawback of an escrow by an admin: `initiate_clawback`, `execute_clawback` and `cancel_clawback` of
-- contracts/escrow/src/lib.rs.
pub mod Rules
use facilpay_contracts.Prelude.{ℕ, ◌+◌, Bool, true, false, not, ◌&&◌, Option, none, some, ltb, put}
use facilpay_contracts.Escrow.Errors.{
  unauthorized, invalid_status, already_processed, clawback_delay_too_short, not_ready, basic,
  escrow, action,
}
use facilpay_contracts.Escrow.Release.{get_escrow, set_escrow, escrow_or_err}
use facilpay_contracts.Escrow.Storage.{Call, on_transfers}
use facilpay_contracts.Escrow.Timelock.{admin_only}
use facilpay_contracts.Escrow.Types.{resolved, ClawbackRequest}
use facilpay_contracts.Host.{
  transfer, Address, Bytes, Env, ◌>>=◌, ◌>>◌, pure, gets, ok_or, modify, err_if, u64,
}

abbrev pub min_clawback_delay : ℕ
min_clawback_delay = 86400

-- Is a request open for the escrow?
abbrev has_open_request : (ℕ → Option ClawbackRequest) → Option ℕ → Bool
has_open_request requests none = false
has_open_request requests (some id) = elim (requests id) [
  | none ↦ false
  | some r ↦ not r.executed && not r.cancelled
]

unfoldable pub initiate_clawback : Env → Address → ℕ → Bytes → ℕ → Call ℕ
initiate_clawback env admin escrow_id reason_hash delay_seconds = do
  admin_only env admin
  err_if (ltb delay_seconds min_clawback_delay) (escrow clawback_delay_too_short)
  escrow_or_err escrow_id
  s ← gets (λ s. s)
  err_if (has_open_request s.clawbacks.requests (s.clawbacks.by_escrow escrow_id))
      (escrow already_processed)
  counter ← u64 (s.clawbacks.counter + 1)
  execute_after ← u64 (env.timestamp + delay_seconds)
  modify (λ s. record s {
    clawbacks = record {
      counter = counter;
      requests = put s.clawbacks.requests counter (
          some (record {
            request_id = counter;
            escrow_id = escrow_id;
            initiated_by = admin;
            reason_hash = reason_hash;
            execute_after = execute_after;
            executed = false;
            cancelled = false;
          }));
      by_escrow = put s.clawbacks.by_escrow escrow_id (some counter);
    };
  })
  pure counter

abbrev set_request : ℕ → ClawbackRequest → Call Unit
set_request id r = modify (λ s. record s {
  clawbacks = record (s.clawbacks) { requests = put s.clawbacks.requests id (some r) };
})

unfoldable pub execute_clawback : Env → Address → ℕ → Call Unit
execute_clawback env admin id = do
  admin_only env admin
  s ← gets (λ s. s)
  r ← ok_or (s.clawbacks.requests id) (basic unauthorized)
  err_if r.executed (escrow already_processed)
  err_if r.cancelled (escrow invalid_status)
  err_if (ltb env.timestamp r.execute_after) (action not_ready)
  e ← get_escrow r.escrow_id
  on_transfers (transfer env e.token env.current_contract admin e.amount)
  set_escrow r.escrow_id (record e { status = resolved })
  set_request id (record r { executed = true })

unfoldable pub cancel_clawback : Env → Address → ℕ → Call Unit
cancel_clawback env admin id = do
  admin_only env admin
  s ← gets (λ s. s)
  r ← ok_or (s.clawbacks.requests id) (basic unauthorized)
  err_if r.executed (escrow already_processed)
  err_if r.cancelled (escrow invalid_status)
  set_request id (record r { cancelled = true })
