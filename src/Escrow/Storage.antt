-- ===== src/Escrow/Storage.antt =====
-- The storage of the escrow contract: a field for each kind of `DataKey` of
-- contracts/escrow/src/lib.rs that the modelled operations read or write, grouped by the component
-- that owns it. A slot that every reader takes by `unwrap_or(0)` is a number with 0 for an absent
-- slot.
use facilpay_contracts.Prelude.{ℕ, Bool, Option, List}
use facilpay_contracts.Escrow.Errors.{Error}
use facilpay_contracts.Escrow.Types.{
  PauseHistory, EscalationConfig, EscrowFeeConfig, Escrow, EscrowReleaseMultisig, EscrowSubAccount,
  EscrowHierarchyNode, EscrowObserver, DisputeConfig, DisputeCollateral, ReputationScore,
  ReputationConfig, TenureReputationConfig, EscrowAnalytics, MultiSigConfig, AdminProposal,
  SuccessionPlan, ClawbackRequest, MultiPartyEscrow, MultiPartyDispute, TimeLockConfig,
  TimeLockAction, MigrationStatus, PauseState, VestingSchedule, VestingAccelerationConfig,
  EscrowRenewalConfig, EscrowRenewal,
}
use facilpay_contracts.Host.{Address, Bytes, Transfer, Action, zoom}
use facilpay_contracts.Prelude.Int.{ℤ}

-- `ConfigKey`: AdminMultiSig, SchemaVersion, AdminProposal, AdminProposalCounter,
-- AdminSuccessionPlan and TrustedBridge.
pub record Governance : Type 0 where
  pub multisig : Option MultiSigConfig
  pub schema_version : Option ℕ
  pub proposals : Bytes → Option AdminProposal
  pub proposal_counter : ℕ
  pub succession : Option SuccessionPlan
  pub trusted_bridges : Address → Bool

-- `ConfigKey`: AdminClawbackRequest, AdminClawbackCounter and AdminClawbackEscrow.
pub record Clawbacks : Type 0 where
  pub requests : ℕ → Option ClawbackRequest
  pub counter : ℕ
  pub by_escrow : ℕ → Option ℕ

-- `EscrowKey`: Data, Counter, ReleaseMultisig, CustomerList, CustomerCount, MerchantList,
-- MerchantCount, SubAccount, SubAccountCounter and Hierarchy; `DisputeKey`: Observer and
-- ObserverCount.
pub record Book : Type 0 where
  pub escrows : ℕ → Option Escrow
  pub counter : ℕ
  pub release_multisigs : ℕ → Option EscrowReleaseMultisig
  pub customer_list : Address → ℕ → Option ℕ
  pub customer_count : Address → ℕ
  pub merchant_list : Address → ℕ → Option ℕ
  pub merchant_count : Address → ℕ
  pub sub_accounts : ℕ → ℕ → Option EscrowSubAccount
  pub sub_account_counter : ℕ → ℕ
  pub hierarchy : ℕ → Option EscrowHierarchyNode
  pub observers : ℕ → ℕ → Option EscrowObserver
  pub observer_count : ℕ → ℕ

-- `ConfigKey`: EscrowFeeConfig, EscalationConfig, PauseStateKey, PauseHistoryEntry,
-- PauseHistoryCount, ActivePauseIndex, DisputeConfig, TimeLockConfig;
-- `DisputeKey`: EscrowMigrationStatus.
pub record Settings : Type 0 where
  pub fee_config : Option EscrowFeeConfig
  pub escalation_config : Option EscalationConfig
  pub pause_state : Option PauseState
  pub pause_history : ℕ → Option PauseHistory
  pub pause_count : ℕ
  pub active_pause : Bytes → Option ℕ
  pub dispute_config : Option DisputeConfig
  pub timelock_config : Option TimeLockConfig
  pub migration : Option MigrationStatus

-- `ParticipantKey`: ReputationScore and TenureBonusApplied; `ConfigKey`: ReputationConfig and
-- TenureConfig.
pub record Reputations : Type 0 where
  pub scores : Address → Option ReputationScore
  pub config : Option ReputationConfig
  pub tenure_config : Option TenureReputationConfig
  pub tenure_applied : ℕ → Address → Bool

-- `DisputeKey`: EscrowAnalytics; `ParticipantKey`: CustomerAnalytics and MerchantAnalytics.
pub record Statistics : Type 0 where
  pub overall : Option EscrowAnalytics
  pub by_customer : Address → Option EscrowAnalytics
  pub by_merchant : Address → Option EscrowAnalytics

-- `DisputeKey`: EscalationQueue, EscalationQueueIndex and EscalationDeadline.
pub record EscalationQueue : Type 0 where
  pub ids_at : ℕ → Option (List ℕ)
  pub index : Option (List ℕ)
  pub deadline_of : ℕ → Option ℕ

-- `DisputeKey`: EscrowRenewalConfig, EscrowRenewal and EscrowRenewalCount.
pub record Renewals : Type 0 where
  pub config : Option EscrowRenewalConfig
  pub last : ℕ → Option EscrowRenewal
  pub count : ℕ → ℕ

-- `DisputeKey`: Action and Counter.
pub record Timelock : Type 0 where
  pub actions : ℕ → Option TimeLockAction
  pub counter : ℕ

-- `EscrowKey`: MultiParty and MultiPartyCounter; `DisputeKey`: MultiPartyDispute; `DataKey`:
-- VoteWeight and ReleaseThresholdBps.
pub record MultiParties : Type 0 where
  pub deals : ℕ → Option MultiPartyEscrow
  pub counter : ℕ
  pub vote_weights : ℕ → Address → Option ℕ
  pub thresholds_bps : ℕ → Option ℕ
  pub disputes : ℕ → Option MultiPartyDispute

-- `transfers` is what the calls have moved so far, the last transfer first; `collateral` is
-- `DisputeKey` Collateral and `accumulated_fees` is `ParticipantKey` AccumulatedFees.
-- `EscrowKey`: VestingSchedule and VestingAccelerationConfig.
pub record Vesting : Type 0 where
  pub schedules : ℕ → Option VestingSchedule
  pub accelerations : ℕ → Option VestingAccelerationConfig

pub record Storage : Type 0 where
  pub governance : Governance
  pub clawbacks : Clawbacks
  pub book : Book
  pub settings : Settings
  pub reputations : Reputations
  pub statistics : Statistics
  pub queue : EscalationQueue
  pub timelock : Timelock
  pub renewals : Renewals
  pub multi_parties : MultiParties
  pub vesting : Vesting
  pub collateral : ℕ → Option DisputeCollateral
  pub accumulated_fees : Address → ℤ
  pub transfers : List Transfer

abbrev pub Call : Type 0 → Type 0
Call A = Action Error Storage A

module _ {A : Type 0} where
  abbrev pub on_governance : Action Error Governance A → Call A
  on_governance = zoom (λ s. s.governance) (λ s x. record s { governance = x })

  abbrev pub on_settings : Action Error Settings A → Call A
  on_settings = zoom (λ s. s.settings) (λ s x. record s { settings = x })

  abbrev pub on_vesting : Action Error Vesting A → Call A
  on_vesting = zoom (λ s. s.vesting) (λ s x. record s { vesting = x })

  abbrev pub on_book : Action Error Book A → Call A
  on_book = zoom (λ s. s.book) (λ s x. record s { book = x })

  abbrev pub on_reputations : Action Error Reputations A → Call A
  on_reputations = zoom (λ s. s.reputations) (λ s x. record s { reputations = x })

  abbrev pub on_statistics : Action Error Statistics A → Call A
  on_statistics = zoom (λ s. s.statistics) (λ s x. record s { statistics = x })

  abbrev pub on_queue : Action Error EscalationQueue A → Call A
  on_queue = zoom (λ s. s.queue) (λ s x. record s { queue = x })

  abbrev pub on_transfers : Action Error (List Transfer) A → Call A
  on_transfers = zoom (λ s. s.transfers) (λ s x. record s { transfers = x })
