-- ===== src/Refund/Limits.antt =====
-- What limits a refund, in contracts/refund/src/lib.rs: the cap of a payment, the rate limit of a
-- customer, the quota of a merchant, the cooldown record and the fee.
pub mod Rules
use facilpay_contracts.Prelude.{
  ℕ, ◌+◌, true, false, ◌&&◌, ◌||◌, Option, none, some, ltb, leb, ◌==◌, if◌then◌else◌, unwrap_or,
  put,
}
use facilpay_contracts.Host.{
  transfer, Address, Env, ok, Action, ◌>>=◌, ◌>>◌, pure, gets, ok_or, modify, err_if, when,
  require_auth, u32, u64, saturating_u64, saturating_u32, saturating_i128, checked_i128,
}
use facilpay_contracts.Prelude.Int.{ℤ, pos, ◌+ℤ◌, ◌-ℤ◌, ◌*ℤ◌, ◌/ℤ◌, ltb_ℤ, min_ℤ, max_ℤ}
use facilpay_contracts.Refund.Errors.{
  invalid_amount, invalid_payment_id, refund_exceeds_policy, policy_not_found,
  refund_rate_limit_exceeded, refund_count_cap_exceeded, refund_amount_cap_exceeded, Error, core,
  ext,
}
use facilpay_contracts.Refund.Storage.{
  Limits, RefundCall, on_limits, on_refund_transfers, stored_admin_only,
}
use facilpay_contracts.Refund.Types.{
  PaymentRefundCap, MerchantRefundQuota, CustomerRefundRateLimit, GlobalRefundRateLimit,
  RefundFeeConfig,
}

-- `if let Some(…)` and `match` with `None => return Ok(())`
abbrev pub given : {V S : Type 0} → Option V → (V → Action Error S Unit) → Action Error S Unit
given o f s = elim o [ none ↦ ok (tt, s) | some v ↦ f v s ]

unfoldable pub check_payment_refund_cap : ℕ → ℤ → Action Error Limits Unit
unfolding ◌+ℤ◌
check_payment_refund_cap payment_id refund_amount = do
  s ← gets (λ s. s)
  given (s.caps payment_id) λ cap. do
    let used = unwrap_or (s.usage payment_id) (0, pos 0)
    err_if (leb cap.max_refund_count used.0) (ext refund_count_cap_exceeded)
    err_if (ltb_ℤ cap.max_total_amount (saturating_i128 (used.1 +ℤ refund_amount)))
        (ext refund_amount_cap_exceeded)

unfoldable pub update_payment_refund_usage : ℕ → ℤ → Action Error Limits Unit
unfolding ◌+ℤ◌
update_payment_refund_usage payment_id refund_amount = do
  s ← gets (λ s. s)
  let used = unwrap_or (s.usage payment_id) (0, pos 0)
  modify (λ s. record s {
    usage =
        put s.usage payment_id
          (some (saturating_u32 (used.0 + 1), saturating_i128 (used.1 +ℤ refund_amount)));
  })

-- The limits of the global configuration that count at a time.
unfoldable pub effective_global_rate_limit : GlobalRefundRateLimit → ℕ → ℕ × ℕ
effective_global_rate_limit g now =
    if ltb 0 g.next_config_effective_at && leb g.next_config_effective_at now
    then (g.next_max_requests_per_window, g.next_window_seconds)
    else (g.max_requests_per_window, g.window_seconds)

-- `match customer_limit_opt`; without any limit there is nothing to check.
abbrev pub limit_of :
    ℕ
    → Address
    → Option CustomerRefundRateLimit
    → Option GlobalRefundRateLimit
    → Option CustomerRefundRateLimit
limit_of now customer (some l) global = some l
limit_of now customer none none = none
limit_of now customer none (some g) =
    let limits = effective_global_rate_limit g now in
    some (record {
      customer = customer;
      window_start = now;
      request_count = 0;
      max_requests_per_window = limits.0;
      window_seconds = limits.1;
      custom_override = false;
    })

-- The limit at the start of a new window.
abbrev pub new_window :
    ℕ → Option GlobalRefundRateLimit → CustomerRefundRateLimit → CustomerRefundRateLimit
new_window now none l = record l { window_start = now; request_count = 0 }
new_window now (some g) l =
    let limits = effective_global_rate_limit g now in
    if l.custom_override then record l { window_start = now; request_count = 0 } else record l {
      window_start = now;
      request_count = 0;
      max_requests_per_window = limits.0;
      window_seconds = limits.1;
    }

unfoldable pub check_and_update_customer_refund_rate_limit :
    Env → Address → Action Error Limits Unit
unfolding effective_global_rate_limit
check_and_update_customer_refund_rate_limit env customer = do
  s ← gets (λ s. s)
  let now = env.timestamp
  given (limit_of now customer (s.customer_limits customer) s.global_limit) λ l. do
    window_end ← u64 (l.window_start + l.window_seconds)
    let limit = if leb window_end now then new_window now s.global_limit l else l
    err_if (leb limit.max_requests_per_window limit.request_count) (core refund_rate_limit_exceeded)
    count ← u32 (limit.request_count + 1)
    modify (λ s. record s {
      customer_limits =
          put s.customer_limits customer (some (record limit { request_count = count }));
    })

-- The quota in a new period, if the old one is over.
abbrev pub quota_at : ℕ → MerchantRefundQuota → MerchantRefundQuota
quota_at now q =
    if ltb (saturating_u64 (q.period_start + q.period_seconds)) now
    then record q { used = pos 0; period_start = now }
    else q

-- The quota of a merchant, as `process_refund_internal` enforces it.
unfoldable pub use_quota : Env → Address → ℤ → Action Error Limits Unit
unfolding ◌+ℤ◌
use_quota env merchant amount = do
  s ← gets (λ s. s)
  given (s.quotas merchant) λ q. do
    let quota = quota_at env.timestamp q
    new_used ← ok_or (checked_i128 (quota.used +ℤ amount)) (core invalid_amount)
    err_if (ltb_ℤ quota.limit new_used) (core refund_exceeds_policy)
    modify
        (λ s. record s { quotas = put s.quotas merchant (some (record quota { used = new_used })) })

unfoldable pub update_customer_refund_cooldown : Env → Address → Action Error Limits Unit
update_customer_refund_cooldown env customer = do
  s ← gets (λ s. s)
  given s.cooldown_config λ config. when config.enabled (
      modify (λ s. record s {
        cooldowns = put s.cooldowns customer (
            some (record {
              customer = customer;
              last_refund_requested_at = env.timestamp;
              cooldown_seconds = config.cooldown_seconds;
            }));
      }))

-- The fee on an amount: at the rate, then at least the minimum, then at most the maximum.
unfoldable pub refund_fee : RefundFeeConfig → ℤ → ℤ
unfolding ◌*ℤ◌ ◌/ℤ◌
refund_fee config amount =
    min_ℤ (max_ℤ (saturating_i128 (amount *ℤ pos config.fee_bps) /ℤ 10000) config.min_fee)
      config.max_fee

-- Without an active configuration nothing is deducted.
abbrev pub fee_under :
    Option RefundFeeConfig → ℤ × ℤ → (RefundFeeConfig → RefundCall (ℤ × ℤ)) → RefundCall (ℤ × ℤ)
fee_under none unchanged f s = ok (unchanged, s)
fee_under (some config) unchanged f s = elim config.active [
  | true ↦ f config s
  | false ↦ ok (unchanged, s)
]

-- The part of `deduct_refund_fee` under `if fee > 0`.
abbrev pub collect_refund_fee : Env → Address → RefundFeeConfig → ℤ → RefundCall Unit
collect_refund_fee env token config fee = do
  on_refund_transfers (transfer env token env.current_contract config.treasury fee)
  on_limits
      (modify (λ l. record l { accumulated_fees = saturating_i128 (l.accumulated_fees +ℤ fee) }))

unfoldable pub deduct_refund_fee : Env → ℤ → Address → RefundCall (ℤ × ℤ)
unfolding refund_fee ◌+ℤ◌ ◌-ℤ◌
deduct_refund_fee env amount token = do
  s ← gets (λ s. s)
  let none_taken : ℤ × ℤ = (amount, pos 0)
  fee_under s.limits.fee_config none_taken λ config. do
    let fee = refund_fee config amount
    when (ltb_ℤ (pos 0) fee) (collect_refund_fee env token config fee)
    pure (saturating_i128 (amount -ℤ fee), fee)

unfoldable pub set_payment_refund_cap : Env → Address → PaymentRefundCap → RefundCall Unit
set_payment_refund_cap env admin cap = do
  stored_admin_only env admin
  err_if (cap.payment_id == 0) (core invalid_payment_id)
  on_limits (modify (λ l. record l { caps = put l.caps cap.payment_id (some cap) }))

unfoldable pub set_merchant_refund_quota : Env → Address → Address → ℤ → ℕ → RefundCall Unit
set_merchant_refund_quota env admin merchant limit period_seconds = do
  stored_admin_only env admin
  on_limits (
      modify (λ l. record l {
        quotas = put l.quotas merchant (
            some (record {
              merchant = merchant;
              limit = limit;
              period_seconds = period_seconds;
              used = pos 0;
              period_start = env.timestamp;
            }));
      }))

unfoldable pub reset_merchant_quota : Env → Address → Address → RefundCall Unit
reset_merchant_quota env admin merchant = do
  stored_admin_only env admin
  s ← gets (λ s. s)
  quota ← ok_or (s.limits.quotas merchant) (core policy_not_found)
  on_limits (
      modify (λ l. record l {
        quotas =
            put l.quotas merchant
              (some (record quota { used = pos 0; period_start = env.timestamp }));
      }))

-- No test here that the signer is the admin of the contract.
unfoldable pub set_customer_rate_limit : Env → Address → Address → ℕ → ℕ → RefundCall Unit
set_customer_rate_limit env admin customer max_per_window window_seconds = do
  require_auth env admin
  s ← gets (λ s. s)
  let limit = unwrap_or (s.limits.customer_limits customer) (record {
    customer = customer;
    window_start = env.timestamp;
    request_count = 0;
    max_requests_per_window = max_per_window;
    window_seconds = window_seconds;
    custom_override = true;
  })
  on_limits (
      modify (λ l. record l {
        customer_limits = put l.customer_limits customer (
            some (record limit {
              max_requests_per_window = max_per_window;
              window_seconds = window_seconds;
              custom_override = true;
            }));
      }))

unfoldable pub set_global_refund_rate_limit : Env → Address → ℕ → ℕ → RefundCall Unit
set_global_refund_rate_limit env admin max_per_window window_seconds = do
  require_auth env admin
  err_if (max_per_window == 0 || window_seconds == 0) (core invalid_amount)
  on_limits (
      modify (λ l. record l {
        global_limit = some (record {
          max_requests_per_window = max_per_window;
          window_seconds = window_seconds;
          next_max_requests_per_window = max_per_window;
          next_window_seconds = window_seconds;
          next_config_effective_at = 0;
        });
      }))

-- `match` of `update_rate_limit`
abbrev pub updated_limit : ℕ → ℕ → ℕ → Option GlobalRefundRateLimit → GlobalRefundRateLimit
updated_limit now new_window_seconds new_max_refunds (some g) = record g {
  next_max_requests_per_window = new_max_refunds;
  next_window_seconds = new_window_seconds;
  next_config_effective_at = now;
}
updated_limit now new_window_seconds new_max_refunds none = record {
  max_requests_per_window = new_max_refunds;
  window_seconds = new_window_seconds;
  next_max_requests_per_window = new_max_refunds;
  next_window_seconds = new_window_seconds;
  next_config_effective_at = 0;
}

unfoldable pub update_rate_limit : Env → Address → ℕ → ℕ → RefundCall Unit
update_rate_limit env admin new_window_seconds new_max_refunds = do
  require_auth env admin
  err_if (new_max_refunds == 0 || new_window_seconds == 0) (core invalid_amount)
  on_limits (
      modify (λ l. record l {
        global_limit =
            some (updated_limit env.timestamp new_window_seconds new_max_refunds l.global_limit);
      }))
