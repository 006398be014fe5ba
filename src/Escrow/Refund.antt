-- ===== src/Escrow/Refund.antt =====
-- Refund, expiry and renewal of an escrow: `refund_escrow`, `expire_escrow`, `is_escrow_expired`,
-- `set_renewal_config` and `extend_escrow_expiry` of contracts/escrow/src/lib.rs.
pub mod Rules
use facilpay_contracts.Prelude.{
  ℕ, ◌+◌, Bool, false, not, ◌&&◌, ◌||◌, Option, none, some, ltb, leb, ◌==◌, if◌then◌else◌, contains,
  put,
}
use facilpay_contracts.Escrow.Errors.{
  unauthorized, not_an_admin, invalid_status, already_processed, release_on_hold_period,
  escrow_not_expired, escrow_already_expired, renewal_disabled, max_renewals_reached,
  new_expiry_not_after_current, renewal_period_too_short, renewal_period_too_long, basic, escrow,
}
use facilpay_contracts.Escrow.Governance.{get_multisig_config}
use facilpay_contracts.Escrow.Payout.{transfer_if_token_contract}
use facilpay_contracts.Escrow.Release.{set_escrow, escrow_or_err}
use facilpay_contracts.Escrow.Storage.{Storage, Call, on_governance, on_transfers}
use facilpay_contracts.Escrow.Types.{
  EscrowStatus, locked, disputed, resolved, cancelled, status_eq, Escrow, EscrowRenewalConfig,
}
use facilpay_contracts.Host.{
  Address, Env, ok, ◌>>=◌, ◌>>◌, pure, fail, gets, modify, err_if, require_auth, u32, u64,
  unsigned_sub, i128,
}
use facilpay_contracts.Prelude.Int.{pos, ◌*ℤ◌, ◌/ℤ◌}

-- `match escrow.status` of `refund_escrow`
abbrev refundable : Env → Escrow → EscrowStatus → Call Unit
refundable env e locked = do
  held_until ← u64 (e.created_at + e.min_hold_period)
  err_if (ltb env.timestamp held_until) (escrow release_on_hold_period)
refundable env e disputed = pure tt
refundable env e _ = fail (escrow already_processed)

unfoldable pub refund_escrow : Env → Address → ℕ → Call Unit
unfolding transfer_if_token_contract
refund_escrow env caller id = do
  require_auth env caller
  e ← escrow_or_err id
  err_if (not (e.customer == caller) && not (e.merchant == caller)) (basic unauthorized)
  refundable env e e.status
  set_escrow id (record e { status = resolved })
  on_transfers (transfer_if_token_contract env e.token e.customer e.amount)

unfoldable pub is_escrow_expired : Env → ℕ → Storage → Bool
is_escrow_expired env id s = elim (s.book.escrows id) [
  | none ↦ false
  | some e ↦ if e.expiry_timestamp == 0 then false else leb e.expiry_timestamp env.timestamp
]

-- `match escrow.status` of `expire_escrow`
abbrev expirable : EscrowStatus → Call Unit
expirable locked = pure tt
expirable disputed = fail (escrow invalid_status)
expirable _ = fail (escrow escrow_already_expired)

unfoldable pub expire_escrow : Env → ℕ → Call Unit
unfolding transfer_if_token_contract
expire_escrow env id = do
  e ← escrow_or_err id
  expirable e.status
  err_if (e.expiry_timestamp == 0 || ltb env.timestamp e.expiry_timestamp)
      (escrow escrow_not_expired)
  set_escrow id (record e { status = cancelled })
  on_transfers (transfer_if_token_contract env e.token e.customer e.amount)

unfoldable pub set_renewal_config : Env → Address → EscrowRenewalConfig → Call Unit
set_renewal_config env admin config = do
  require_auth env admin
  multisig ← on_governance get_multisig_config
  err_if (not (contains multisig.admins admin)) (basic not_an_admin)
  modify (λ s. record s { renewals = record (s.renewals) { config = some config } })

-- The part of `extend_escrow_expiry` under `if let Some(config)`.
unfoldable pub renew : Env → Address → ℕ → Escrow → ℕ → EscrowRenewalConfig → Call Unit
unfolding ◌*ℤ◌ ◌/ℤ◌
renew env caller id e new_expiry config = do
  err_if (not config.enabled) (escrow renewal_disabled)
  s ← gets (λ s. s)
  err_if (leb config.max_renewals (s.renewals.count id)) (escrow max_renewals_reached)
  extension ←
      unsigned_sub new_expiry
        (if ltb 0 e.expiry_timestamp then e.expiry_timestamp else env.timestamp)
  err_if (ltb extension config.min_renewal_period) (escrow renewal_period_too_short)
  err_if (ltb config.max_renewal_period extension) (escrow renewal_period_too_long)
  product ← i128 (e.amount *ℤ pos config.renewal_fee_bps)
  count ← u32 (s.renewals.count id + 1)
  modify (λ s. record s {
    renewals = record (s.renewals) {
      last = put s.renewals.last id (
          some (record {
            renewal_id = count;
            escrow_id = id;
            renewed_by = caller;
            new_expiry_timestamp = new_expiry;
            renewal_fee = product /ℤ 10000;
            renewed_at = env.timestamp;
            renewal_count = count;
          }));
      count = put s.renewals.count id count;
    };
  })

abbrev renew_if : Option EscrowRenewalConfig → (EscrowRenewalConfig → Call Unit) → Call Unit
renew_if config f s = elim config [ none ↦ ok (tt, s) | some c ↦ f c s ]

unfoldable pub extend_escrow_expiry : Env → Address → ℕ → ℕ → Call Unit
unfolding renew
extend_escrow_expiry env caller id new_expiry = do
  require_auth env caller
  e ← escrow_or_err id
  err_if (not (caller == e.customer) && not (caller == e.merchant)) (basic unauthorized)
  err_if (not (status_eq e.status locked)) (escrow invalid_status)
  err_if (leb new_expiry env.timestamp) (escrow escrow_already_expired)
  err_if (ltb 0 e.expiry_timestamp && leb new_expiry e.expiry_timestamp)
      (escrow new_expiry_not_after_current)
  s ← gets (λ s. s)
  renew_if s.renewals.config (renew env caller id e new_expiry)
  set_escrow id (record e { expiry_timestamp = new_expiry; last_activity_at = env.timestamp })
