-- ===== src/Refund/Breaker.antt =====
-- The circuit breaker and the detection of fraud of contracts/refund/src/lib.rs.
pub mod Rules
use facilpay_contracts.Prelude.{
  ℕ, ◌+◌, ◌*◌, ◌/◌, ◌%◌, Bool, true, false, not, ◌||◌, Option, none, some, ltb, leb, ◌==◌,
  if◌then◌else◌, unwrap_or, put,
}
use facilpay_contracts.Host.{
  Address, Env, ok, err, Action, ◌>>=◌, ◌>>◌, pure, fail, gets, modify, when, u32_bound, u32, u64,
  i128, as_u32,
}
use facilpay_contracts.Prelude.Int.{ℤ, pos, pos_part, ◌+ℤ◌, ◌*ℤ◌, ◌/ℤ◌, leb_ℤ}
use facilpay_contracts.Refund.Errors.{circuit_breaker_tripped, Error, core}
use facilpay_contracts.Refund.Limits.{given}
use facilpay_contracts.Refund.Storage.{
  Breaker, FraudSignal, FraudConfig, Fraud, RefundCall, on_breaker, stored_admin_only,
}
use facilpay_contracts.Refund.Types.{CircuitBreakerConfig, CircuitBreakerState}

-- `get_circuit_breaker_state`
abbrev pub breaker_state : Breaker → CircuitBreakerState
breaker_state b = unwrap_or b.state (record {
  tripped = false;
  tripped_at = none;
  trip_count = 0;
  last_refund_rate_bps = 0;
  resets_at = none;
})

-- `match state.resets_at`: is the time of the reset there?
abbrev pub is_reached : Option ℕ → ℕ → Bool
is_reached none now = false
is_reached (some resets_at) now = leb resets_at now

-- A breaker that has tripped refuses, until its cooldown is over.
abbrev pub reset_after_cooldown :
    Env → CircuitBreakerState → Action Error Breaker CircuitBreakerState
reset_after_cooldown env state b = elim state.tripped [
  | false ↦ ok (state, b)
  | true ↦ elim (is_reached state.resets_at env.timestamp) [
    | false ↦ err (core circuit_breaker_tripped)
    | true ↦
        let state' : CircuitBreakerState = record state {
          tripped = false;
          tripped_at = none;
          resets_at = none;
        } in
        ok (state', record b { state = some state' })
  ]
]

abbrev pub trip : Env → CircuitBreakerConfig → CircuitBreakerState → ℕ → Action Error Breaker Unit
trip env config state rate_bps = do
  trip_count ← u32 (state.trip_count + 1)
  resets_at ← u64 (env.timestamp + config.cooldown_seconds)
  modify (λ b. record b {
    state = some (record state {
      tripped = true;
      tripped_at = some env.timestamp;
      trip_count = trip_count;
      last_refund_rate_bps = rate_bps;
      resets_at = some resets_at;
    });
  })
  fail (core circuit_breaker_tripped)

-- The volumes of the window with the new refund, against the rate that is allowed.
unfoldable pub count_refund :
    Env → CircuitBreakerConfig → CircuitBreakerState → ℤ → ℤ → Action Error Breaker Unit
unfolding ◌*ℤ◌ ◌/ℤ◌
count_refund env config state new_refund_vol new_payment_vol b =
    elim (leb_ℤ new_payment_vol (pos 0)) [
      | true ↦ ok (tt, b)
      | false ↦
          (do
            product ← i128 (new_refund_vol *ℤ pos 10000)
            let rate_bps = as_u32 (product /ℤ pos_part new_payment_vol)
            elim (ltb config.max_refund_rate_bps rate_bps) [
              | true ↦ trip env config state rate_bps
              | false ↦ modify (λ b. record b {
                refund_volume = new_refund_vol;
                payment_volume = new_payment_vol;
              })
            ])
            b
    ]

-- A window that is over begins again.
abbrev pub window_at : Env → ℕ → Breaker → Breaker
window_at env window_end b =
    if leb window_end env.timestamp || (b.window_start == 0)
    then record b { window_start = env.timestamp; refund_volume = pos 0; payment_volume = pos 0 }
    else b

-- The refund is counted in the window.
unfoldable pub count_in_window :
    Env → ℤ → ℤ → CircuitBreakerConfig → CircuitBreakerState → Action Error Breaker Unit
unfolding ◌+ℤ◌ count_refund
count_in_window env refund_amount payment_amount config state = do
  b ← gets (λ b. b)
  window_end ← u64 (b.window_start + config.measurement_window_seconds)
  modify (window_at env window_end)
  b' ← gets (λ b. b)
  new_refund_vol ← i128 (b'.refund_volume +ℤ refund_amount)
  new_payment_vol ← i128 (b'.payment_volume +ℤ payment_amount)
  count_refund env config state new_refund_vol new_payment_vol

unfoldable pub check_and_update_circuit_breaker : Env → ℤ → ℤ → Action Error Breaker Unit
unfolding count_in_window
check_and_update_circuit_breaker env refund_amount payment_amount = do
  b ← gets (λ b. b)
  given b.config λ config. when config.enabled (do
    state ← reset_after_cooldown env (breaker_state b)
    count_in_window env refund_amount payment_amount config state)

unfoldable pub check_circuit_breaker : Env → Breaker → Bool
check_circuit_breaker env b = elim b.config [
  | none ↦ false
  | some config ↦
      if not config.enabled || not (breaker_state b).tripped
      then false
      else not (is_reached (breaker_state b).resets_at env.timestamp)
]

unfoldable pub reset_circuit_breaker : Env → Address → RefundCall Unit
reset_circuit_breaker env admin = do
  stored_admin_only env admin
  on_breaker (
      modify (λ b. record b {
        state =
            some
              (record (breaker_state b) { tripped = false; tripped_at = none; resets_at = none });
      }))

-- `get_customer_payment_count`: the contract has no such data, and answers 0.
unfoldable pub get_customer_payment_count : Address → ℕ
get_customer_payment_count address = 0

-- `match existing_signal`
abbrev pub raise_signal :
    Env → Address → ℕ → ℕ → ℕ → Option FraudSignal → Action Error Fraud (Option FraudSignal)
raise_signal env address rate payments refunds none f =
    (do
      let signal : FraudSignal = record {
        address = address;
        refund_rate_bps = rate;
        total_payments = payments;
        total_refunds = refunds;
        flagged_at = env.timestamp;
        reviewed = false;
      }
      f ← gets (λ f. f)
      flagged ← u64 (f.flagged + 1)
      modify (λ f. record f { signals = put f.signals address (some signal); flagged = flagged })
      pure (some signal))
      f
raise_signal env address rate payments refunds (some signal) f = elim signal.reviewed [
  | true ↦ ok (none, f)
  | false ↦
      let signal' : FraudSignal = record signal {
        refund_rate_bps = rate;
        total_payments = payments;
        total_refunds = refunds;
      } in
      ok (some signal', record f { signals = put f.signals address (some signal') })
]

abbrev pub fraud_config : Option FraudConfig → FraudConfig
fraud_config config =
    unwrap_or config
      (record { max_refund_rate_bps = 2000; min_transactions_for_check = 5; enabled = true })

-- `total_refunds` is the number of refunds of the customer so far.
unfoldable pub check_fraud_signals : Env → Address → ℕ → Action Error Fraud (Option FraudSignal)
unfolding get_customer_payment_count
check_fraud_signals env address total_refunds f =
    let config = fraud_config f.config in
    let total_payments = get_customer_payment_count address in
    elim (not config.enabled || ltb total_payments config.min_transactions_for_check) [
      | true ↦ ok (none, f)
      | false ↦
          (do
            product ← u64 (if ltb 0 total_payments then total_refunds * 10000 else 0)
            let rate = (product / total_payments) % u32_bound
            if ltb config.max_refund_rate_bps rate
                then raise_signal env address rate total_payments total_refunds (f.signals address)
                else pure none)
            f
    ]
