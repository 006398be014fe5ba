-- ===== src/Refund/Breaker/Rules.antt =====
-- What the circuit breaker and the detection of fraud come to.
use facilpay_contracts.Prelude.{ℕ, ◌≡◌, Bool, false, none, arith}
use facilpay_contracts.Host.{Address, Env, ok, after, as_u32}
use facilpay_contracts.Prelude.Int.{ℤ, pos, pos_part, ◌*ℤ◌, ◌/ℤ◌}
use facilpay_contracts.Refund.Breaker.{
  breaker_state, count_refund, count_in_window, check_and_update_circuit_breaker,
  get_customer_payment_count, check_fraud_signals,
}
use facilpay_contracts.Refund.Storage.{Breaker, Fraud}

-- Does the state on record say that the breaker has tripped?
abbrev pub is_tripped : Breaker → Bool
is_tripped b = (breaker_state b).tripped

-- The rate of the refunds that a window has counted.
abbrev pub counted_rate : Breaker → ℕ
counted_rate b = as_u32 ((b.refund_volume *ℤ pos 10000) /ℤ pos_part b.payment_volume)

-- The breaker never trips: where the one on record has not, no check ever leaves one on record that
-- has. The check that finds the rate too high answers with an error, and the host rolls its record
-- of that back with the rest of the call.
pub breaker_never_trips :
    (env : Env) (refund_amount payment_amount : ℤ) (b : Breaker)
    → is_tripped b ≡ false
    → is_tripped (after b (check_and_update_circuit_breaker env refund_amount payment_amount b))
      ≡ false
unfolding check_and_update_circuit_breaker count_in_window count_refund
breaker_never_trips env refund_amount payment_amount b h = ground arith

-- No address is ever flagged for fraud, whatever its refunds are and however the detection is
-- configured: the number of payments that it compares with is 0.
pub check_fraud_signals_never :
    (env : Env) (address : Address) (total_refunds : ℕ) (f : Fraud)
    → check_fraud_signals env address total_refunds f ≡ ok (none, f)
unfolding check_fraud_signals get_customer_payment_count
check_fraud_signals_never env address total_refunds f = ground arith
