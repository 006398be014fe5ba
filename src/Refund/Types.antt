-- ===== src/Refund/Types.antt =====
-- The stored records and enums of contracts/refund/src/lib.rs.
use facilpay_contracts.Prelude.{ℕ, Bool, true, false, Option, List}
use facilpay_contracts.Host.{Address, Bytes}
use facilpay_contracts.Prelude.Int.{ℤ}

pub data RefundStatus : Type 0 where
  requested approved rejected processed pending_appeal : RefundStatus

-- The number of a status, by which the keys of the status index and `==` tell statuses apart.
abbrev pub status_code : RefundStatus → ℕ
status_code requested = 0
status_code approved = 1
status_code rejected = 2
status_code processed = 3
status_code pending_appeal = 4

pub data RefundReasonCode : Type 0 where
  product_defect non_delivery duplicate_charge unauthorized_charge : RefundReasonCode
  customer_request other_reason : RefundReasonCode

pub record RefundRecord : Type 0 where
  pub id : ℕ
  pub payment_id : ℕ
  pub merchant : Address
  pub customer : Address
  pub amount : ℤ
  pub original_payment_amount : ℤ
  pub token : Address
  pub original_token : Address
  pub status : RefundStatus
  pub requested_at : ℕ
  pub reason : Bytes
  pub reason_code : RefundReasonCode
  pub approved_at : Option ℕ
  pub rejected_at : Option ℕ
  pub processed_at : Option ℕ
  pub rejected_by : Option Address
  pub appeal_deadline : Option ℕ
  pub expires_at : Option ℕ

pub record PaymentRefundCap : Type 0 where
  pub payment_id : ℕ
  pub max_refund_count : ℕ
  pub max_total_amount : ℤ

pub record MerchantRefundQuota : Type 0 where
  pub merchant : Address
  pub limit : ℤ
  pub period_seconds : ℕ
  pub used : ℤ
  pub period_start : ℕ

pub record RefundAppeal : Type 0 where
  pub appeal_id : ℕ
  pub refund_id : ℕ
  pub appellant : Address
  pub reason : Bytes
  pub filed_at : ℕ
  pub resolved : Bool
  pub outcome : Option Bool

pub data ArbitrationStatus : Type 0 where
  open_case decided appealed closed : ArbitrationStatus

abbrev pub is_open_case : ArbitrationStatus → Bool
is_open_case open_case = true
is_open_case _ = false

pub record ArbitrationCase : Type 0 where
  pub case_id : ℕ
  pub refund_id : ℕ
  pub arbitrators : List Address
  pub votes_for_refund : ℕ
  pub votes_against_refund : ℕ
  pub status : ArbitrationStatus
  pub created_at : ℕ
  pub deadline : ℕ
  pub fee_pool : ℤ
  pub timeout_at : ℕ
  pub default_favor_customer : Bool

pub record ArbitratorVote : Type 0 where
  pub arbitrator : Address
  pub voted_for_refund : Bool
  pub reasoning_hash : Bytes
  pub voted_at : ℕ

pub record ArbitrationFeeConfig : Type 0 where
  pub arbitrator_share_bps : ℕ
  pub treasury_share_bps : ℕ
  pub treasury_address : Address
  pub fee_token : Address
  pub fee_per_case : ℤ

pub record ArbitrationStakeConfig : Type 0 where
  pub token : Address
  pub amount : ℤ
  pub enabled : Bool

pub record ArbitrationStake : Type 0 where
  pub case_id : ℕ
  pub staker : Address
  pub amount : ℤ
  pub deposited_at : ℕ
  pub returned : Bool

pub record ArbitratorReputation : Type 0 where
  pub arbitrator : Address
  pub total_cases : ℕ
  pub majority_votes : ℕ
  pub minority_votes : ℕ
  pub avg_resolution_time : ℕ
  pub score : ℤ
  pub last_active : ℕ

pub record ArbitrationTierConfig : Type 0 where
  pub junior_quorum : ℕ
  pub senior_quorum : ℕ
  pub escalation_timeout_seconds : ℕ

pub record RefundVoucher : Type 0 where
  pub voucher_id : ℕ
  pub refund_id : ℕ
  pub customer : Address
  pub merchant : Address
  pub amount : ℤ
  pub token : Address
  pub issued_at : ℕ
  pub expires_at : ℕ
  pub redeemed : Bool

pub data EligibilityRule : Type 0 where
  allow block : EligibilityRule

pub record RefundTier : Type 0 where
  pub days_from_purchase : ℕ
  pub max_refund_bps : ℕ

pub record RefundPolicy : Type 0 where
  pub merchant : Address
  pub tiers : List RefundTier
  pub active : Bool
  pub created_at : ℕ
  pub updated_at : ℕ
  pub default_window_seconds : ℕ

pub record RefundPolicyVersion : Type 0 where
  pub version : ℕ
  pub policy : RefundPolicy
  pub created_at : ℕ
  pub created_by : Address

pub record CustomerRefundRateLimit : Type 0 where
  pub customer : Address
  pub window_start : ℕ
  pub request_count : ℕ
  pub max_requests_per_window : ℕ
  pub window_seconds : ℕ
  pub custom_override : Bool

pub record GlobalRefundRateLimit : Type 0 where
  pub max_requests_per_window : ℕ
  pub window_seconds : ℕ
  pub next_max_requests_per_window : ℕ
  pub next_window_seconds : ℕ
  pub next_config_effective_at : ℕ

pub record RefundFeeConfig : Type 0 where
  pub fee_bps : ℕ
  pub min_fee : ℤ
  pub max_fee : ℤ
  pub treasury : Address
  pub fee_token : Address
  pub active : Bool

pub record RefundCooldownConfig : Type 0 where
  pub cooldown_seconds : ℕ
  pub enabled : Bool

pub record CustomerRefundCooldown : Type 0 where
  pub customer : Address
  pub last_refund_requested_at : ℕ
  pub cooldown_seconds : ℕ

pub record CircuitBreakerConfig : Type 0 where
  pub max_refund_rate_bps : ℕ
  pub measurement_window_seconds : ℕ
  pub cooldown_seconds : ℕ
  pub enabled : Bool

pub record CircuitBreakerState : Type 0 where
  pub tripped : Bool
  pub tripped_at : Option ℕ
  pub trip_count : ℕ
  pub last_refund_rate_bps : ℕ
  pub resets_at : Option ℕ

pub record RefundTtlConfig : Type 0 where
  pub default_ttl_seconds : ℕ
  pub active : Bool
