-- ===== src/Escrow/Timelock/Rules.antt =====
-- When a queued action may be carried out.
use facilpay_contracts.Prelude.{ℕ, ◌+◌, ◌≤◌, ◌<◌, ◌≡◌, ◌≢◌, true, false, some, arith, put}
use facilpay_contracts.Escrow.Errors.{already_processed, not_ready, escrow, action}
use facilpay_contracts.Escrow.Storage.{Storage}
use facilpay_contracts.Escrow.Timelock.{
  timelock_config_of, queue_action, carry_out, execute_queued_action, cancel_queued_action,
  set_timelock_config,
}
use facilpay_contracts.Escrow.Types.{EscrowActionType, TimeLockConfig, TimeLockAction}
use facilpay_contracts.Host.{Address, Bytes, Env, ok, err}

-- An execution that succeeds fell into the window of an action that was neither executed nor
-- cancelled, and marks it. Anyone may call.
pub execute_queued_action-needs :
    (env : Env) (id : ℕ) (a : TimeLockAction) (s t : Storage)
    → s.timelock.actions id ≡ some a
    → execute_queued_action env id s ≡ ok (tt, t)
    → (a.executed ≡ false)
      × (a.cancelled ≡ false)
      × (a.executable_after ≤ env.timestamp)
      × (env.timestamp ≤ a.expires_at)
      × (carry_out env a.escrow_id a.action_type (record s {
        timelock = record (s.timelock) {
          actions = put s.timelock.actions id (some (record a { executed = true }));
        };
      })
          ≡ ok (tt, t))
unfolding execute_queued_action
execute_queued_action-needs env id a s t h r = ground arith

-- What an admin queues waits for the delay of the configuration, or a day without one: before that,
-- nobody's execution succeeds, whatever the action is.
pub queue_action_waits :
    (env later : Env) (admin : Address) (escrow_id : ℕ) (kind : EscrowActionType) (payload : Bytes)
    (id : ℕ) (s t : Storage)
    → queue_action env admin escrow_id kind payload s ≡ ok (id, t)
    → later.timestamp < env.timestamp + (timelock_config_of s).delay
    → execute_queued_action later id t ≡ err (action not_ready)
unfolding queue_action execute_queued_action
queue_action_waits env later admin escrow_id kind payload id s t r early = ground arith

-- An action that was cancelled is never carried out, and is not cancelled again.
pub cancel_queued_action_final :
    (env later : Env) (admin other : Address) (id : ℕ) (s t u : Storage)
    → cancel_queued_action env admin id s ≡ ok (tt, t)
    → (execute_queued_action later id t ≡ err (escrow already_processed))
      × (cancel_queued_action later other id t ≢ ok (tt, u))
unfolding cancel_queued_action execute_queued_action
cancel_queued_action_final env later admin other id s t u r = ground arith

-- A stored configuration has a delay between an hour and a week.
pub set_timelock_config-bounds :
    (env : Env) (admin : Address) (config : TimeLockConfig) (s t : Storage)
    → set_timelock_config env admin config s ≡ ok (tt, t)
    → (3600 ≤ (timelock_config_of t).delay) × ((timelock_config_of t).delay ≤ 604800)
unfolding set_timelock_config
set_timelock_config-bounds env admin config s t r = ground arith
