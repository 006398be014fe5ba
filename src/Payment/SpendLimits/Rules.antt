-- ===== src/Payment/SpendLimits/Rules.antt =====
-- What a spend limit allows.
use facilpay_contracts.Prelude.{◌+◌, ◌≡◌, ◌⊎◌, Bool, true, false, some, arith, ltb, if◌then◌else◌}
use facilpay_contracts.Host.{Address, Env, ok, err, is_ok}
use facilpay_contracts.Payment.Errors.{spend_limit_exceeded, feature}
use facilpay_contracts.Payment.SpendLimits.{
  check_spend_allowance, renewed, check_and_update_spend_limit,
}
use facilpay_contracts.Payment.Storage.{CustomerSpendLimit, PaymentStorage}
use facilpay_contracts.Prelude.Int.{ℤ, pos, ◌+ℤ◌, ◌≤ℤ◌}

-- The question and the check agree: where the question answers, the check succeeds if the answer is
-- yes, and refuses by the limit if it is no.
pub check_spend_allowance-agrees :
    (env : Env) (customer : Address) (amount : ℤ) (answer : Bool) (s t : PaymentStorage)
    → check_spend_allowance env customer amount s ≡ ok (answer, t)
    → ((answer ≡ true) × (is_ok (check_and_update_spend_limit env customer amount s) ≡ true))
      ⊎ ((answer ≡ false)
          × (check_and_update_spend_limit env customer amount s
              ≡ err (feature spend_limit_exceeded)))
unfolding check_spend_allowance check_and_update_spend_limit
check_spend_allowance-agrees env customer amount answer s t r = ground arith

-- What is spent in a period stays within the limit: a check that succeeds leaves the sum of the
-- period, which starts again once the old period is over, at the limit or below it.
pub check_and_update_spend_limit-within :
    (env : Env) (customer : Address) (amount : ℤ) (l : CustomerSpendLimit) (s t : PaymentStorage)
    → s.spend_limits customer ≡ some l
    → check_and_update_spend_limit env customer amount s ≡ ok (tt, t)
    → (l' : CustomerSpendLimit) × (t.spend_limits customer ≡ some l')
      × (l'.limit_amount ≡ l.limit_amount)
      × (l'.used
          ≡ (if ltb (l.period_start + l.period_seconds) env.timestamp then pos 0 else l.used)
            +ℤ amount)
      × (l'.used ≤ℤ l.limit_amount)
unfolding check_and_update_spend_limit
check_and_update_spend_limit-within env customer amount l s t h r =
    let fresh = renewed env (l.period_start + l.period_seconds) l in
    (
      record fresh { used = fresh.used +ℤ amount },
      ground arith,
      ground arith,
      ground arith,
      ground arith,
    )
