-- ===== src/Refund/Storage.antt =====
-- The storage of the refund contract, a field for each kind of key, grouped by component.
use facilpay_contracts.Prelude.{ℕ, ◌+◌, Bool, not, Option, some, List, ◌==◌, put, put_at}
use facilpay_contracts.Host.{
  Address, Transfer, Env, Action, ◌>>=◌, ◌>>◌, gets, ok_or, modify, err_if, require_auth, zoom, u64,
}
use facilpay_contracts.Pausing.{Pausing}
use facilpay_contracts.Prelude.Int.{ℤ}
use facilpay_contracts.Refund.Errors.{unauthorized, Error, core}
use facilpay_contracts.Refund.Types.{
  RefundRecord, PaymentRefundCap, MerchantRefundQuota, RefundAppeal, ArbitrationCase,
  ArbitratorVote, ArbitrationFeeConfig, ArbitrationStakeConfig, ArbitrationStake,
  ArbitratorReputation, ArbitrationTierConfig, RefundVoucher, EligibilityRule, RefundPolicy,
  RefundPolicyVersion, CustomerRefundRateLimit, GlobalRefundRateLimit, RefundFeeConfig,
  RefundCooldownConfig, CustomerRefundCooldown, CircuitBreakerConfig, CircuitBreakerState,
  RefundTtlConfig,
}

-- `DataKey` RefundsByStatus, RefundStatusCount (0 for an absent slot) and RefundStatusIndex. A status
-- stands in the keys by its number.
pub record StatusIndex : Type 0 where
  pub by_status : ℕ → ℕ → Option ℕ
  pub count : ℕ → ℕ
  pub place : ℕ → Option ℕ

-- `DataKey` Refund and RefundCounter, and the status index.
pub record Ledger : Type 0 where
  pub refunds : ℕ → Option RefundRecord
  pub counter : ℕ
  pub index : StatusIndex

-- A list by positions under a key, with its length: MerchantRefunds, PaymentRefunds,
-- AppealByCustomer, CustomerVoucher.
pub record Register : Type 0 where
  pub entry : ℕ → ℕ → Option ℕ
  pub len : ℕ → ℕ

-- `DataKey` CustomerRefunds, CustomerRefundCount, CustomerRefundHistoryStart and, in the persistent
-- storage, CustomerRefundsArchive.
pub record CustomerHistory : Type 0 where
  pub hot : Address → ℕ → Option ℕ
  pub count : Address → ℕ
  pub start : Address → ℕ
  pub archive : Address → ℕ → Option ℕ

-- `SystemKey` CircuitBreakerConfigKey, CircuitBreakerStateKey, WindowStart, WindowRefundVolume and
-- WindowPaymentVolume.
pub record Breaker : Type 0 where
  pub config : Option CircuitBreakerConfig
  pub state : Option CircuitBreakerState
  pub window_start : ℕ
  pub refund_volume : ℤ
  pub payment_volume : ℤ

-- Caps, quotas, rate limits, cooldowns and the fee of a refund.
pub record Limits : Type 0 where
  pub caps : ℕ → Option PaymentRefundCap
  pub usage : ℕ → Option (ℕ × ℤ)
  pub quotas : Address → Option MerchantRefundQuota
  pub customer_limits : Address → Option CustomerRefundRateLimit
  pub global_limit : Option GlobalRefundRateLimit
  pub cooldown_config : Option RefundCooldownConfig
  pub cooldowns : Address → Option CustomerRefundCooldown
  pub fee_config : Option RefundFeeConfig
  pub accumulated_fees : ℤ
  pub ttl_config : Option RefundTtlConfig

-- `DataKey` RefundPolicy, DefaultRefundPolicy, CustomerTier, CustomerTierPolicy, StrictTierPolicy,
-- `PolicyKey` RefundPolicyVersion and RefundPolicyVersionCount, the slots named by a symbol
-- (`parent_of`, `requires_admin_approval`, `auto_approve_below`, `inherit_from_parent`), and the rule
-- of an eligibility entry.
pub record Policies : Type 0 where
  pub policy : Address → Option RefundPolicy
  pub default_policy : Option RefundPolicy
  pub versions : Address → ℕ → Option RefundPolicyVersion
  pub version_count : Address → ℕ
  pub parent_of : Address → Option Address
  pub requires_admin_approval : Address → Option Bool
  pub auto_approve_below : Address → ℤ
  pub inherit_from_parent : Address → Option Bool
  pub customer_tier : Address → Option ℕ
  pub tier_policy_bps : Address → ℕ → Option ℕ
  pub strict_tier_policy : Address → Bool
  pub eligibility : Address → Address → Option EligibilityRule

-- `SystemKey` Appeal, AppealCounter, AppealByRefund, AppealByCustomer, RefundRejectedAt, and
-- `DataKey` AppealWindowSeconds.
pub record Appeals : Type 0 where
  pub appeals : ℕ → Option RefundAppeal
  pub counter : ℕ
  pub by_refund : ℕ → Option ℕ
  pub by_customer : Register
  pub rejected_at : ℕ → Option ℕ
  pub window : Option ℕ

-- `ArbitrationKey`, and `DataKey` PoolToken.
pub record Arbitration : Type 0 where
  pub cases : ℕ → Option ArbitrationCase
  pub counter : ℕ
  pub arbitrators : List Address
  pub voted : ℕ → List Address
  pub votes : ℕ → Address → Option ArbitratorVote
  pub fee_config : Option ArbitrationFeeConfig
  pub treasury_fees : ℤ
  pub stake_config : Option ArbitrationStakeConfig
  pub stakes : ℕ → Option ArbitrationStake
  pub reputations : Address → Option ArbitratorReputation
  pub timeout : Option ℕ
  pub senior : List Address
  pub tier_config : Option ArbitrationTierConfig
  pub escalated : ℕ → Bool
  pub pool_token : ℕ → Option Address

-- `VoucherKey`
pub record Vouchers : Type 0 where
  pub vouchers : ℕ → Option RefundVoucher
  pub counter : ℕ
  pub by_customer : Register

pub record FraudSignal : Type 0 where
  pub address : Address
  pub refund_rate_bps : ℕ
  pub total_payments : ℕ
  pub total_refunds : ℕ
  pub flagged_at : ℕ
  pub reviewed : Bool

pub record FraudConfig : Type 0 where
  pub max_refund_rate_bps : ℕ
  pub min_transactions_for_check : ℕ
  pub enabled : Bool

-- `SystemKey` FraudConfig, FraudSignal and FlaggedAddressesIndex.
pub record Fraud : Type 0 where
  pub config : Option FraudConfig
  pub signals : Address → Option FraudSignal
  pub flagged : ℕ

pub record RefundStorage : Type 0 where
  pub admin : Option Address
  pub payment_contract : Option Address
  pub ledger : Ledger
  pub merchant_refunds : Register
  pub payment_refunds : Register
  pub history : CustomerHistory
  pub breaker : Breaker
  pub fraud : Fraud
  pub limits : Limits
  pub policies : Policies
  pub appeals : Appeals
  pub arbitration : Arbitration
  pub vouchers : Vouchers
  pub token_count : ℕ
  pub token_active : Address → Option Bool
  pub pausing : Pausing
  pub transfers : List Transfer

abbrev pub RefundCall : Type 0 → Type 0
RefundCall A = Action Error RefundStorage A

module _ {A : Type 0} where
  abbrev pub on_ledger : Action Error Ledger A → RefundCall A
  on_ledger = zoom (λ s. s.ledger) (λ s x. record s { ledger = x })

  abbrev pub on_breaker : Action Error Breaker A → RefundCall A
  on_breaker = zoom (λ s. s.breaker) (λ s x. record s { breaker = x })

  abbrev pub on_fraud : Action Error Fraud A → RefundCall A
  on_fraud = zoom (λ s. s.fraud) (λ s x. record s { fraud = x })

  abbrev pub on_merchant_refunds : Action Error Register A → RefundCall A
  on_merchant_refunds = zoom (λ s. s.merchant_refunds) (λ s x. record s { merchant_refunds = x })

  abbrev pub on_payment_refunds : Action Error Register A → RefundCall A
  on_payment_refunds = zoom (λ s. s.payment_refunds) (λ s x. record s { payment_refunds = x })

  abbrev pub on_limits : Action Error Limits A → RefundCall A
  on_limits = zoom (λ s. s.limits) (λ s x. record s { limits = x })

  abbrev pub on_policies : Action Error Policies A → RefundCall A
  on_policies = zoom (λ s. s.policies) (λ s x. record s { policies = x })

  abbrev pub on_history : Action Error CustomerHistory A → RefundCall A
  on_history = zoom (λ s. s.history) (λ s x. record s { history = x })

  abbrev pub on_appeals : Action Error Appeals A → RefundCall A
  on_appeals = zoom (λ s. s.appeals) (λ s x. record s { appeals = x })

  abbrev pub on_arbitration : Action Error Arbitration A → RefundCall A
  on_arbitration = zoom (λ s. s.arbitration) (λ s x. record s { arbitration = x })

  abbrev pub on_refund_pausing : Action Error Pausing A → RefundCall A
  on_refund_pausing = zoom (λ s. s.pausing) (λ s x. record s { pausing = x })

  abbrev pub on_vouchers : Action Error Vouchers A → RefundCall A
  on_vouchers = zoom (λ s. s.vouchers) (λ s x. record s { vouchers = x })

  abbrev pub on_refund_transfers : Action Error (List Transfer) A → RefundCall A
  on_refund_transfers = zoom (λ s. s.transfers) (λ s x. record s { transfers = x })

-- `admin.require_auth()` and the test against the stored admin
abbrev pub stored_admin_only : Env → Address → RefundCall Unit
stored_admin_only env admin = do
  require_auth env admin
  s ← gets (λ s. s)
  stored ← ok_or s.admin (core unauthorized)
  err_if (not (admin == stored)) (core unauthorized)

-- `push_back` of an entry under a key; the counter is a `u64`.
abbrev pub append_to : Address → ℕ → Action Error Register Unit
append_to key id = do
  r ← gets (λ r. r)
  count ← u64 (r.len key + 1)
  modify
      (λ r. record { entry = put_at r.entry key (r.len key) (some id); len = put r.len key count })
