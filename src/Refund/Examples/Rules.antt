-- ===== src/Refund/Examples/Rules.antt =====
-- Tests of the history, the policies, the breaker and the limits.
use facilpay_contracts.Prelude.{
  ℕ, ◌+◌, ◌≤◌, ◌<◌, ◌≡◌, refl, ◌≢◌, ◌⊎◌, true, some, List, [], ◌∷◌, put,
}
use facilpay_contracts.Host.{Address, after}
use facilpay_contracts.Prelude.Int.{pos}
use facilpay_contracts.Refund.Breaker.{check_and_update_circuit_breaker}
use facilpay_contracts.Refund.Examples.{
  now, no_history, closed_breaker, customer_limit, limits, storage_in,
}
use facilpay_contracts.Refund.History.{append_customer_refund_history}
use facilpay_contracts.Refund.Limits.{check_and_update_customer_refund_rate_limit}
use facilpay_contracts.Refund.Limits.Rules.{check_and_update_customer_refund_rate_limit-within}
use facilpay_contracts.Refund.Policies.{set_refund_policy, set_merchant_parent, tier_for}
use facilpay_contracts.Refund.Policies.Tiers.{Narrowest, set_refund_policy-Narrowest}
use facilpay_contracts.Refund.Storage.{CustomerHistory, Breaker, Limits, RefundStorage}
use facilpay_contracts.Refund.Types.{requested, RefundTier, RefundPolicy, CustomerRefundRateLimit}

abbrev longer_history : CustomerHistory
longer_history = after no_history (append_customer_refund_history 10 1 no_history)

abbrev tiers : List RefundTier
tiers =
    record { days_from_purchase = 30; max_refund_bps = 5000 }
    ∷ record { days_from_purchase = 7; max_refund_bps = 10000 }
    ∷ []

abbrev policy_storage : RefundStorage
policy_storage =
    after (storage_in requested) (set_refund_policy now 20 tiers (storage_in requested))

set_refund_policy-Narrowest_example :
    (now.authorized 20 ≡ true)
    × ((policy : RefundPolicy) × (policy_storage.policies.policy
          ≡ put (storage_in requested).policies.policy 20 (some policy))
        × (policy.active ≡ true)
        × ((days : ℕ) → Narrowest days tiers (tier_for days policy.tiers)))
unfolding set_refund_policy
set_refund_policy-Narrowest_example =
    set_refund_policy-Narrowest now 20 tiers (storage_in requested) policy_storage refl

abbrev parent_storage : RefundStorage
parent_storage =
    after (storage_in requested) (set_merchant_parent now 1 20 21 (storage_in requested))

abbrev counted_breaker : Breaker
counted_breaker =
    after closed_breaker (check_and_update_circuit_breaker now (pos 300) (pos 1000) closed_breaker)

abbrev counted_limits : Limits
counted_limits = after limits (check_and_update_customer_refund_rate_limit now 10 limits)

check_and_update_customer_refund_rate_limit-within_example :
    ((record customer_limit { request_count = 3 }).request_count
      ≤ (record customer_limit { request_count = 3 }).max_requests_per_window)
    × ((a : Address) → a ≢ 10 → counted_limits.customer_limits a ≡ limits.customer_limits a)
    × ((((record customer_limit { request_count = 3 }).request_count ≡ 1)
          × ((record customer_limit { request_count = 3 }).window_start ≡ now.timestamp))
        ⊎ ((k : CustomerRefundRateLimit) × (limits.customer_limits 10 ≡ some k)
            × ((record customer_limit { request_count = 3 }).request_count ≡ k.request_count + 1)
            × ((record customer_limit { request_count = 3 }).window_start ≡ k.window_start)
            × (now.timestamp < k.window_start + k.window_seconds)))
unfolding check_and_update_customer_refund_rate_limit
check_and_update_customer_refund_rate_limit-within_example =
    check_and_update_customer_refund_rate_limit-within now 10
      (record customer_limit { request_count = 3 }) limits counted_limits refl refl
