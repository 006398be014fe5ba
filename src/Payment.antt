-- ===== src/Payment.antt =====
-- The payment contract, contracts/payment/src/lib.rs: payment channels, spend limits, fees, the pause
-- and the payments that an escrow holds.
pub mod Errors
pub mod Storage
pub mod Channels
pub mod SpendLimits
pub mod Pause
pub mod Fees
pub mod Bridge
pub mod Examples
