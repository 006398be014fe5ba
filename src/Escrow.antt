-- ===== src/Escrow.antt =====
-- The escrow contract, contracts/escrow/src/lib.rs.
pub mod Errors
pub mod Types
pub mod Storage
pub mod Governance
pub mod Succession
pub mod AdminHistory
pub mod Hierarchy
pub mod Reputation
pub mod Statistics
pub mod Payout
pub mod Create
pub mod Queue
pub mod Release
pub mod Refund
pub mod Dispute
pub mod Timelock
pub mod Clawback
pub mod Vesting
pub mod Pause
pub mod Dispatch
pub mod SubAccounts
pub mod MultiParty
pub mod Lifecycle
pub mod Examples
