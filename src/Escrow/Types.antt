-- ===== src/Escrow/Types.antt =====
-- The records and enums that contracts/escrow/src/lib.rs stores.
use facilpay_contracts.Prelude.{ℕ, Bool, true, false, Option, List}
use facilpay_contracts.Host.{Address, Bytes}
use facilpay_contracts.Prelude.Int.{ℤ}

pub data EscrowStatus : Type 0 where
  locked released disputed resolved cancelled : EscrowStatus

-- `status == s`
abbrev pub status_eq : EscrowStatus → EscrowStatus → Bool
status_eq locked locked = true
status_eq released released = true
status_eq disputed disputed = true
status_eq resolved resolved = true
status_eq cancelled cancelled = true
status_eq _ _ = false

pub data AutoResolveFavor : Type 0 where
  customer merchant split_equal : AutoResolveFavor

pub record EscalationConfig : Type 0 where
  pub timeout_seconds : ℕ
  pub favor : AutoResolveFavor

pub record EscrowFeeConfig : Type 0 where
  pub fee_bps : ℤ
  pub fee_recipient : Address
  pub enabled : Bool

pub record Escrow : Type 0 where
  pub id : ℕ
  pub customer : Address
  pub merchant : Address
  pub amount : ℤ
  pub token : Address
  pub status : EscrowStatus
  pub created_at : ℕ
  pub release_timestamp : ℕ
  pub dispute_started_at : ℕ
  pub last_activity_at : ℕ
  pub escalation_level : ℕ
  pub min_hold_period : ℕ
  pub fee_bps : ℤ
  pub expiry_timestamp : ℕ
  pub auto_refund_on_expiry : Bool
  pub escalated_at : Option ℕ
  pub escalation_timeout : ℕ
  pub auto_resolve_in_favor_of : AutoResolveFavor
  pub evidence_deadline : Option ℕ

pub record EscrowReleaseMultisig : Type 0 where
  pub signers : List Address
  pub threshold : ℕ
  pub approvals : List Address

pub record MultisigConfiguration : Type 0 where
  pub signers : List Address
  pub threshold : ℕ

pub record EscrowSubAccount : Type 0 where
  pub escrow_id : ℕ
  pub sub_id : ℕ
  pub label_hash : Bytes
  pub amount : ℤ
  pub released : Bool
  pub release_condition : Option Bytes
  pub fee_bps_override : Option ℤ

pub record EscrowHierarchyNode : Type 0 where
  pub escrow_id : ℕ
  pub parent_id : Option ℕ
  pub children : List ℕ
  pub depth : ℕ

pub record EscrowObserver : Type 0 where
  pub escrow_id : ℕ
  pub observer : Address
  pub granted_by : Address
  pub granted_at : ℕ
  pub expires_at : ℕ

pub record DisputeConfig : Type 0 where
  pub collateral_token : Address
  pub collateral_amount : ℤ
  pub collateral_enabled : Bool
  pub min_collateral_ratio_bps : ℕ

pub record DisputeCollateral : Type 0 where
  pub escrow_id : ℕ
  pub disputing_party : Address
  pub amount : ℤ
  pub token : Address
  pub deposited_at : ℕ

pub record ReputationScore : Type 0 where
  pub address : Address
  pub total_transactions : ℕ
  pub disputes_initiated : ℕ
  pub disputes_won : ℕ
  pub disputes_lost : ℕ
  pub score : ℤ
  pub last_updated : ℕ
  pub decay_rate : ℤ

pub record ReputationConfig : Type 0 where
  pub win_reward : ℤ
  pub loss_penalty : ℤ
  pub completion_reward : ℤ
  pub dispute_initiation_penalty : ℤ

pub record TenureReputationConfig : Type 0 where
  pub base_score : ℕ
  pub weight_per_day : ℕ
  pub max_bonus_days : ℕ

pub record EscrowAnalytics : Type 0 where
  pub total_escrows_created : ℕ
  pub total_value_locked : ℤ
  pub total_value_released : ℤ
  pub total_disputes : ℕ
  pub total_resolutions : ℕ
  pub dispute_rate_bps : ℤ
  pub avg_escrow_duration_seconds : ℕ
  pub total_escrows_released : ℕ

pub data ActionType : Type 0 where
  release_escrow resolve_dispute complete_payment refund_payment : ActionType
  add_admin remove_admin update_required_signatures : ActionType
  update_threshold : ℕ → ActionType

pub record MultiSigConfig : Type 0 where
  pub admins : List Address
  pub required_signatures : ℕ
  pub total_admins : ℕ
  pub proposal_ttl : ℕ

pub record AdminProposal : Type 0 where
  pub id : Bytes
  pub proposer : Address
  pub action_type : ActionType
  pub target : Address
  pub payload : Bytes
  pub approvals : List Address
  pub approval_count : ℕ
  pub executed : Bool
  pub rejected : Bool
  pub created_at : ℕ
  pub expires_at : ℕ

pub record SuccessionPlan : Type 0 where
  pub successor : Address
  pub designated_by : Address
  pub designated_at : ℕ
  pub activatable_after : ℕ
  pub activated : Bool

pub record ClawbackRequest : Type 0 where
  pub request_id : ℕ
  pub escrow_id : ℕ
  pub initiated_by : Address
  pub reason_hash : Bytes
  pub execute_after : ℕ
  pub executed : Bool
  pub cancelled : Bool

pub data ParticipantRole : Type 0 where
  customer merchant service_provider arbitrator : ParticipantRole
  custom : Bytes → ParticipantRole

pub record Participant : Type 0 where
  pub address : Address
  pub role : ParticipantRole
  pub share_bps : ℕ
  pub weight_bps : ℕ
  pub approved : Bool
  pub approved_at : Option ℕ

pub record MultiPartyEscrow : Type 0 where
  pub id : ℕ
  pub participants : List Participant
  pub total_amount : ℤ
  pub token : Address
  pub status : EscrowStatus
  pub approvals : List Address
  pub threshold_bps : ℕ
  pub created_at : ℕ
  pub release_timestamp : ℕ

pub record MultiPartyDispute : Type 0 where
  pub escrow_id : ℕ
  pub votes_for_merchant : List Address
  pub votes_for_customer : List Address
  pub quorum_required : ℕ
  pub resolution_deadline : ℕ
  pub resolved : Bool

pub data EscrowActionType : Type 0 where
  resolve_dispute : Bool → EscrowActionType
  force_release : EscrowActionType
  update_release_timestamp : ℕ → EscrowActionType
  cancel_escrow : EscrowActionType

pub record TimeLockConfig : Type 0 where
  pub delay : ℕ
  pub grace_period : ℕ

pub record TimeLockAction : Type 0 where
  pub action_id : ℕ
  pub action_type : EscrowActionType
  pub escrow_id : ℕ
  pub proposed_by : Address
  pub queued_at : ℕ
  pub executable_after : ℕ
  pub expires_at : ℕ
  pub executed : Bool
  pub cancelled : Bool
  pub payload : Bytes

pub record MigrationStatus : Type 0 where
  pub in_progress : Bool
  pub migrated_count : ℕ
  pub total_count : ℕ
  pub started_at : ℕ
  pub completed_at : Option ℕ

pub record PauseState : Type 0 where
  pub globally_paused : Bool
  pub paused_functions : List Bytes
  pub paused_at : ℕ
  pub paused_by : Address
  pub pause_reason : Bytes

pub record PauseHistory : Type 0 where
  pub function_name : Bytes
  pub paused_by : Address
  pub paused_at : ℕ
  pub unpaused_by : Option Address
  pub unpaused_at : Option ℕ
  pub reason : Bytes

pub record VestingMilestone : Type 0 where
  pub milestone_id : ℕ
  pub unlock_timestamp : ℕ
  pub amount : ℤ
  pub released : Bool
  pub description : Bytes
  pub approved_by : Option Address
  pub approved_at : Option ℕ

pub record VestingSchedule : Type 0 where
  pub escrow_id : ℕ
  pub total_amount : ℤ
  pub released_amount : ℤ
  pub start_timestamp : ℕ
  pub cliff_timestamp : ℕ
  pub end_timestamp : ℕ
  pub milestones : List VestingMilestone

pub record VestingAccelerationConfig : Type 0 where
  pub schedule_id : ℕ
  pub milestone_bps : ℕ
  pub max_acceleration_bps : ℕ
  pub total_accelerated_bps : ℕ

pub record EscrowRenewalConfig : Type 0 where
  pub enabled : Bool
  pub max_renewals : ℕ
  pub renewal_fee_bps : ℕ
  pub min_renewal_period : ℕ
  pub max_renewal_period : ℕ

pub record EscrowRenewal : Type 0 where
  pub renewal_id : ℕ
  pub escrow_id : ℕ
  pub renewed_by : Address
  pub new_expiry_timestamp : ℕ
  pub renewal_fee : ℤ
  pub renewed_at : ℕ
  pub renewal_count : ℕ
