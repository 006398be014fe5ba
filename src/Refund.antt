-- ===== src/Refund.antt =====
-- The refund contract, contracts/refund/src/lib.rs: requests for refunds, their approval, denial and
-- processing, appeals, arbitration, policies and limits.
pub mod Errors
pub mod Types
pub mod Storage
pub mod Pause
pub mod StatusIndex
pub mod History
pub mod Limits
pub mod Policies
pub mod Breaker
pub mod Requests
pub mod Denials
pub mod Lifecycle
pub mod Arbitration
pub mod Vouchers
pub mod Examples
