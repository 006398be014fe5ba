-- ===== src/Payment/Errors.antt =====
-- The errors of contracts/payment/src/lib.rs.

pub data BasicError : Type 0 where
  unauthorized metadata_too_large notes_too_large invalid_currency : BasicError
  invalid_batch_size batch_partial_failure rate_limit_exceeded : BasicError
  daily_volume_exceeded address_flagged address_already_flagged : BasicError
  amount_exceeds_limit multi_sig_not_initialized insufficient_admins : BasicError
  not_an_admin already_approved oracle_call_failed contract_paused : BasicError
  function_paused invalid_tier_thresholds oracle_feed_stale : BasicError
  oracle_not_configured invalid_amount verification_level_not_found : BasicError
  tier_limits_not_configured invalid_interval invalid_bps : BasicError
  schema_already_at_target : BasicError

pub data PaymentError : Type 0 where
  not_found invalid_status already_processed expired not_expired : PaymentError
  no_expiration transfer_failed refund_exceeds_payment not_yet_due : PaymentError
  scheduled_payment_cancelled metadata_already_set metadata_not_found : PaymentError
  hash_mismatch already_fully_paid installment_exceeds_remaining : PaymentError
  partial_payment_not_found merchant_rate_limit_exceeded : PaymentError
  amount_rate_limit_exceeded payout_schedule_not_found payout_not_yet_due : PaymentError
  nothing_to_settle billing_overflow invalid_line_item invalid_schedule_time : PaymentError
  token_not_allowed : PaymentError

pub data SubscriptionError : Type 0 where
  not_found ended grace_period_expired billing_cap_exceeded : SubscriptionError
  group_size_limit_exceeded merchant_paused : SubscriptionError

pub data ProposalError : Type 0 where
  not_found expired already_executed threshold_not_met requires_multi_sig : ProposalError
  insufficient_approvals proposal_expired : ProposalError

pub data FeatureError : Type 0 where
  escrow_mapping_not_found escrow_bridge_failed fee_config_not_found : FeatureError
  insufficient_fees condition_not_met condition_already_evaluated : FeatureError
  auto_escrow_rule_not_found auto_escrow_below_minimum : FeatureError
  auto_escrow_already_triggered condition_evaluation_failed : FeatureError
  condition_runtime_not_met invalid_fee_config channel_not_found : FeatureError
  invalid_signature invalid_nonce channel_closed channel_expired : FeatureError
  channel_not_expired invalid_split_shares too_many_recipients : FeatureError
  invalid_counterparty split_config_not_found split_already_executed : FeatureError
  loyalty_not_configured insufficient_points points_expired nothing_to_sweep : FeatureError
  sweep_recipient_not_set spend_limit_exceeded spend_limit_not_configured : FeatureError
  settlement_not_ready finality_config_not_found settlement_already_finalized : FeatureError
  rebate_threshold_not_met rebate_already_claimed rebate_config_not_found : FeatureError
  forward_config_not_found forward_loop invalid_forward_bps : FeatureError
  sender_is_recipient below_min_split_amount : FeatureError

pub data Error : Type 0 where
  basic : BasicError → Error
  payment : PaymentError → Error
  subscription : SubscriptionError → Error
  proposal : ProposalError → Error
  feature : FeatureError → Error
