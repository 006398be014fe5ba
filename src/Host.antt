-- ===== src/Host.antt =====
-- The Soroban host as the contracts use it. A call of a contract is a function of the ledger
-- environment and of the contract's storage. It returns a value, returns one of the contract's
-- errors, or traps (a panic, a failed `require_auth`, an arithmetic overflow under
-- `overflow-checks = true` of Cargo.toml, a failed call of a token). The host keeps the new storage
-- only in the first case.
mod Call
mod Words
mod Token
pub use Call.*
unfoldable pub use Words.*
unfoldable pub use Token.*
