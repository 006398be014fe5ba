-- ===== src/Payment/SpendLimits.antt =====
-- Spend limits of contracts/payment/src/lib.rs: their setting and removal, the question whether an
-- amount is allowed, and the check that payments make.
pub mod Rules
use facilpay_contracts.Prelude.{
  ℕ, ◌+◌, Bool, true, not, Option, none, some, ltb, if◌then◌else◌, contains, put,
}
use facilpay_contracts.Host.{
  Address, Env, ◌>>=◌, ◌>>◌, pure, gets, ok_or, modify, err_if, require_auth, u64, i128,
}
use facilpay_contracts.Payment.Errors.{
  unauthorized, multi_sig_not_initialized, spend_limit_exceeded, basic, feature,
}
use facilpay_contracts.Payment.Storage.{CustomerSpendLimit, PaymentCall}
use facilpay_contracts.Prelude.Int.{ℤ, pos, ◌+ℤ◌, ltb_ℤ, leb_ℤ}

abbrev pub admin_or_err : Env → Address → PaymentCall Unit
admin_or_err env admin = do
  require_auth env admin
  s ← gets (λ s. s)
  config ← ok_or s.multisig (basic multi_sig_not_initialized)
  err_if (not (contains config.admins admin)) (basic unauthorized)

unfoldable pub set_customer_spend_limit : Env → Address → Address → ℤ → ℕ → PaymentCall Unit
set_customer_spend_limit env admin customer limit period_seconds = do
  admin_or_err env admin
  modify (λ s. record s {
    spend_limits = put s.spend_limits customer (
        some (record {
          customer = customer;
          limit_amount = limit;
          period_seconds = period_seconds;
          used = pos 0;
          period_start = env.timestamp;
        }));
  })

unfoldable pub remove_customer_spend_limit : Env → Address → Address → PaymentCall Unit
remove_customer_spend_limit env admin customer = do
  admin_or_err env admin
  modify (λ s. record s { spend_limits = put s.spend_limits customer none })

-- `match limit`: without a limit every amount is allowed.
abbrev pub allowance : Env → ℤ → Option CustomerSpendLimit → PaymentCall Bool
allowance env amount none = pure true
allowance env amount (some l) = do
  period_end ← u64 (l.period_start + l.period_seconds)
  total ← i128 ((if ltb period_end env.timestamp then pos 0 else l.used) +ℤ amount)
  pure (leb_ℤ total l.limit_amount)

unfoldable pub check_spend_allowance : Env → Address → ℤ → PaymentCall Bool
unfolding ◌+ℤ◌
check_spend_allowance env customer amount = do
  s ← gets (λ s. s)
  allowance env amount (s.spend_limits customer)

-- The limit with a new period begun, if the old one is over.
abbrev pub renewed : Env → ℕ → CustomerSpendLimit → CustomerSpendLimit
renewed env period_end l =
    if ltb period_end env.timestamp
    then record l { used = pos 0; period_start = env.timestamp }
    else l

abbrev pub spend : Env → Address → ℤ → Option CustomerSpendLimit → PaymentCall Unit
spend env customer amount none = pure tt
spend env customer amount (some l) = do
  period_end ← u64 (l.period_start + l.period_seconds)
  let limit = renewed env period_end l
  total ← i128 (limit.used +ℤ amount)
  err_if (ltb_ℤ limit.limit_amount total) (feature spend_limit_exceeded)
  modify (λ s. record s {
    spend_limits = put s.spend_limits customer (some (record limit { used = total }));
  })

unfoldable pub check_and_update_spend_limit : Env → Address → ℤ → PaymentCall Unit
unfolding ◌+ℤ◌
check_and_update_spend_limit env customer amount = do
  s ← gets (λ s. s)
  spend env customer amount (s.spend_limits customer)
