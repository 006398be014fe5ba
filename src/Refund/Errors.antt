-- ===== src/Refund/Errors.antt =====
-- The errors of contracts/refund/src/lib.rs and their numbers.

pub data CoreError : Type 0 where
  invalid_amount refund_not_found unauthorized invalid_payment_id : CoreError
  invalid_status already_processed refund_exceeds_payment : CoreError
  total_refunds_exceed_payment refund_window_expired : CoreError
  refund_exceeds_policy policy_not_found policy_inactive : CoreError
  quorum_not_reached not_arbitrator contract_paused function_paused : CoreError
  case_not_timed_out batch_refund_too_large circular_inheritance : CoreError
  max_inheritance_depth_error refund_not_rejected appeal_window_expired : CoreError
  appeal_already_filed refund_rate_limit_exceeded payment_contract_not_set : CoreError
  payment_ownership_mismatch circuit_breaker_tripped invalid_fee_config : CoreError
  insufficient_treasury_fees : CoreError

pub data ExtError : Type 0 where
  arbitrator_not_found invalid_score_threshold : ExtError
  auto_refund_trigger_not_found duplicate_auto_refund_trigger : ExtError
  address_flagged_for_fraud fraud_signal_not_found hook_not_found : ExtError
  max_hooks_per_event_reached hook_not_owned_by_subscriber : ExtError
  invalid_hook_address customer_blocked_from_refund : ExtError
  eligibility_entry_not_found template_not_found template_inactive : ExtError
  refund_count_cap_exceeded refund_amount_cap_exceeded : ExtError
  unsupported_refund_token voucher_not_found voucher_expired : ExtError
  voucher_already_redeemed evidence_already_submitted case_already_escalated : ExtError
  tier_policy_not_found schema_already_at_target : ExtError

pub data Error : Type 0 where
  core : CoreError → Error
  ext : ExtError → Error
