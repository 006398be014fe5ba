-- ===== src/Escrow/Timelock.antt =====
-- Time-locked admin actions of contracts/escrow/src/lib.rs: `queue_action`, `execute_queued_action`,
-- `cancel_queued_action` and `set_timelock_config`.
pub mod Rules
use facilpay_contracts.Prelude.{
  ℕ, ◌+◌, true, false, not, ◌&&◌, ◌||◌, none, some, ltb, ◌==◌, unwrap_or, contains, put,
}
use facilpay_contracts.Escrow.Dispute.{internal_resolve_dispute}
use facilpay_contracts.Escrow.Errors.{
  unauthorized, not_an_admin, invalid_status, already_processed, not_ready, basic, escrow, action,
}
use facilpay_contracts.Escrow.Governance.{get_multisig_config}
use facilpay_contracts.Escrow.Release.{internal_release_escrow}
use facilpay_contracts.Escrow.Storage.{Storage, Call, on_governance}
use facilpay_contracts.Escrow.Types.{EscrowActionType, TimeLockConfig, TimeLockAction}
use facilpay_contracts.Host.{
  Address, Bytes, Env, ◌>>=◌, ◌>>◌, pure, gets, ok_or, modify, err_if, require_auth, u64,
}

-- `get_timelock_config`
abbrev pub timelock_config_of : Storage → TimeLockConfig
timelock_config_of s =
    unwrap_or s.settings.timelock_config (record { delay = 86400; grace_period = 86400 })

abbrev set_action : ℕ → TimeLockAction → Call Unit
set_action id a = modify (λ s. record s {
  timelock = record (s.timelock) { actions = put s.timelock.actions id (some a) };
})

-- `get_multisig_config` and the test that `admin` is listed
abbrev pub admin_only : Env → Address → Call Unit
admin_only env admin = do
  require_auth env admin
  config ← on_governance get_multisig_config
  err_if (not (contains config.admins admin)) (basic not_an_admin)

unfoldable pub queue_action : Env → Address → ℕ → EscrowActionType → Bytes → Call ℕ
queue_action env admin escrow_id action_type payload = do
  admin_only env admin
  s ← gets (λ s. s)
  action_id ← u64 (s.timelock.counter + 1)
  modify (λ s. record s { timelock = record (s.timelock) { counter = action_id } })
  after_delay ← u64 (env.timestamp + (timelock_config_of s).delay)
  expiry ← u64 (after_delay + (timelock_config_of s).grace_period)
  set_action action_id (record {
    action_id = action_id;
    action_type = action_type;
    escrow_id = escrow_id;
    proposed_by = admin;
    queued_at = env.timestamp;
    executable_after = after_delay;
    expires_at = expiry;
    executed = false;
    cancelled = false;
    payload = payload;
  })
  pure action_id

-- `match action.action_type`
unfoldable pub carry_out : Env → ℕ → EscrowActionType → Call Unit
carry_out env id (EscrowActionType.resolve_dispute to_merchant) =
    internal_resolve_dispute env id to_merchant
carry_out env id EscrowActionType.force_release = internal_release_escrow env id true none
carry_out env id (EscrowActionType.update_release_timestamp t) = pure tt
carry_out env id EscrowActionType.cancel_escrow = pure tt

unfoldable pub execute_queued_action : Env → ℕ → Call Unit
execute_queued_action env id = do
  s ← gets (λ s. s)
  a ← ok_or (s.timelock.actions id) (basic unauthorized)
  err_if a.executed (escrow already_processed)
  err_if a.cancelled (escrow already_processed)
  err_if (ltb env.timestamp a.executable_after) (action not_ready)
  err_if (ltb a.expires_at env.timestamp) (escrow invalid_status)
  set_action id (record a { executed = true })
  carry_out env a.escrow_id a.action_type

unfoldable pub cancel_queued_action : Env → Address → ℕ → Call Unit
cancel_queued_action env admin id = do
  require_auth env admin
  config ← on_governance get_multisig_config
  err_if (not (contains config.admins admin)) (basic not_an_admin)
  s ← gets (λ s. s)
  a ← ok_or (s.timelock.actions id) (basic unauthorized)
  err_if a.executed (escrow invalid_status)
  err_if a.cancelled (escrow already_processed)
  err_if (not (a.proposed_by == admin) && not (contains config.admins admin)) (basic unauthorized)
  set_action id (record a { cancelled = true })

unfoldable pub set_timelock_config : Env → Address → TimeLockConfig → Call Unit
set_timelock_config env admin config = do
  admin_only env admin
  err_if (ltb config.delay 3600 || ltb 604800 config.delay) (escrow invalid_status)
  modify (λ s. record s { settings = record (s.settings) { timelock_config = some config } })
