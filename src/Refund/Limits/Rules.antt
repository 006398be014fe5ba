-- ===== src/Refund/Limits/Rules.antt =====
-- The rate limit of a customer and the quota of a merchant are kept.
use facilpay_contracts.Prelude.{
  ◌+◌, ◌≤◌, ◌<◌, ◌≡◌, refl, ◌≢◌, ◌⊎◌, inl, inr, false, some, arith, leb, Bool-cases, Option-cases,
}
use facilpay_contracts.Host.{Address, Env, ok, fits_i128}
use facilpay_contracts.Prelude.Int.{ℤ, ◌+ℤ◌, ltb_ℤ}
use facilpay_contracts.Refund.Limits.{
  effective_global_rate_limit, check_and_update_customer_refund_rate_limit, quota_at, use_quota,
}
use facilpay_contracts.Refund.Storage.{Limits}
use facilpay_contracts.Refund.Types.{MerchantRefundQuota, CustomerRefundRateLimit}

module _ (env : Env) where
  -- A request that passes the rate limit of its customer leaves the customer's count at most at the
  -- limit and other customers' counts as they were; the count starts at 1 in a new window, or is one
  -- more than before in a window that is not over.
  pub check_and_update_customer_refund_rate_limit-within :
      (customer : Address) (l : CustomerRefundRateLimit) (s t : Limits)
      → check_and_update_customer_refund_rate_limit env customer s ≡ ok (tt, t)
      → t.customer_limits customer ≡ some l
      → (l.request_count ≤ l.max_requests_per_window)
        × ((a : Address) → a ≢ customer → t.customer_limits a ≡ s.customer_limits a)
        × (((l.request_count ≡ 1) × (l.window_start ≡ env.timestamp))
            ⊎ ((k : CustomerRefundRateLimit) × (s.customer_limits customer ≡ some k)
                × (l.request_count ≡ k.request_count + 1)
                × (l.window_start ≡ k.window_start)
                × (env.timestamp < k.window_start + k.window_seconds)))
  unfolding check_and_update_customer_refund_rate_limit effective_global_rate_limit
  check_and_update_customer_refund_rate_limit-within customer l s t e h =
      elim (Option-cases (s.customer_limits customer)) [
        | inl n ↦ elim (Option-cases s.global_limit) [
          | inl m ↦ absurd (ground (arith, n, m))
          | inr m ↦ (
            ground (arith, n, m),
            ground (arith, n, m),
            inl (ground (arith, n, m), ground (arith, n, m)),
          )
        ]
        | inr k ↦ elim (Option-cases s.global_limit) [
          | inl m ↦ elim (Bool-cases (leb (k.0.window_start + k.0.window_seconds) env.timestamp)) [
            | inl b ↦ (
              ground (arith, k.1, m),
              ground (arith, k.1, m),
              inl (ground (arith, k.1, m), ground (arith, k.1, m)),
            )
            | inr b ↦ (
              ground (arith, k.1, m),
              ground (arith, k.1, m),
              inr (
                k.0,
                k.1,
                ground (arith, k.1, m),
                ground (arith, k.1, m),
                ground (arith, k.1, m),
              ),
            )
          ]
          | inr m ↦ elim (Bool-cases (leb (k.0.window_start + k.0.window_seconds) env.timestamp)) [
            | inl b ↦ (
              ground (arith, k.1, m.1),
              ground (arith, k.1, m.1),
              inl (ground (arith, k.1, m.1), ground (arith, k.1, m.1)),
            )
            | inr b ↦ (
              ground (arith, k.1, m.1),
              ground (arith, k.1, m.1),
              inr (
                k.0,
                k.1,
                ground (arith, k.1, m.1),
                ground (arith, k.1, m.1),
                ground (arith, k.1, m.1),
              ),
            )
          ]
        ]
      ]

  -- A processed refund uses the quota of its merchant: what is used stays at most at the limit, and
  -- grows by the amount, from 0 if the period was over.
  pub use_quota-within :
      (merchant : Address) (amount : ℤ) (q : MerchantRefundQuota) (s t : Limits)
      → s.quotas merchant ≡ some q
      → use_quota env merchant amount s ≡ ok (tt, t)
      → (k : MerchantRefundQuota) × (t.quotas merchant ≡ some k)
        × (k.used ≡ (quota_at env.timestamp q).used +ℤ amount)
        × (ltb_ℤ k.limit k.used ≡ false)
        × (k.limit ≡ q.limit)
  unfolding use_quota
  use_quota-within merchant amount q s t h e =
      elim (Bool-cases (fits_i128 ((quota_at env.timestamp q).used +ℤ amount))) [
        | inl b ↦ (
          record (quota_at env.timestamp q) { used = (quota_at env.timestamp q).used +ℤ amount },
          ground (arith, h, b),
          refl,
          ground (arith, h, b),
          ground arith,
        )
        | inr b ↦ absurd (ground (arith, h, b))
      ]
