-- ===== src/Lib.antt =====
-- FacilPay's contracts, contracts/escrow, contracts/refund, contracts/payment and contracts/admin
-- (each in its src/lib.rs), in a cubical type theory. The escrow contract holds the amount of a
-- deal between a customer and a merchant until it is released, refunded, expired or decided in a
-- dispute. Around that it has an administration by several signatures, delayed actions of admins, a
-- reputation of the parties and statistics. The refund contract takes refunds of payments from
-- request to processing, by policies and within limits, with appeals and arbitration of denials. Of
-- the payment contract there are its channels, spend limits, fees and its pause. The admin contract
-- pauses the three others at once.
--
-- A contract call is a state monad with failure over the contract's storage (Host/Call): `ok` is
-- `Ok` with the storage it leaves, `err` is an error value of the code, and `trap` is a panic, a
-- refused `require_auth`, an `unwrap` of nothing or an arithmetic overflow, which the release
-- profile checks. The host rolls a failed call back, which `after` says.
--
-- Files, all for contracts/escrow/src/lib.rs unless another path is named:
-- - Prelude, Prelude/Tests, Lists, Maps, Int: Boolean tests, vectors, storage slots and `i128` over
--   the native numbers.
-- - Host, Host/Call, Words, Token: environment, outcomes, machine integers, and the client of a
--   token.
-- - Escrow/Errors: the error enums and their numbers. Escrow/Types: the stored records and enums.
--   Escrow/Storage: the storage, a field for each kind of key of `DataKey`, grouped by component.
-- - Escrow/Governance: `initialize`, `propose_action`, `approve_action`, `execute_action` up to its
--   dispatch, `reject_action`, `add_admin`, `add_trusted_bridge`, `remove_admin`; Numbers:
--   `u64_to_string`, `read_u64_from_bytes`. Escrow/Succession: the plan for a successor.
--   Escrow/AdminHistory: all calls of the administration in any order.
-- - Escrow/Create: `create_escrow`, `create_escrow_with_multisig`, `create_child_escrow`.
-- - Escrow/Release: `release_escrow`, `approve_escrow_release` and what they use. Escrow/Payout:
--   the fee and the transfers. Escrow/Hierarchy: `can_parent_release`.
-- - Escrow/Refund: `refund_escrow`, `expire_escrow`, `extend_escrow_expiry`.
-- - Escrow/Dispute: `dispute_escrow`, `resolve_dispute`. Escrow/Queue: the escalation queue, from
--   which a resolution takes the escrow.
-- - Escrow/Timelock: `queue_action` to `set_timelock_config`; a queued action calls the release or
--   the resolution. Escrow/Clawback: `initiate_clawback` to `cancel_clawback`. Escrow/Dispatch: the
--   dispatch of an approved proposal, to a release, a resolution or the administration.
-- - Escrow/Reputation, Escrow/Statistics: what releases and resolutions keep about the parties.
-- - Escrow/SubAccounts: the parts of an escrow. Escrow/Vesting: `create_vesting_escrow` to
--   `add_milestone`. Escrow/MultiParty: escrows with several participants, with Weights (the
--   weights and the threshold) and Disputes (their votes).
-- - Escrow/Lifecycle: the calls that act on escrows in any order.
-- - Payment, for contracts/payment/src/lib.rs: Channels, `open_channel`, `settle_channel` and
--   `close_channel_expired`; SpendLimits, `check_spend_allowance`, `check_and_update_spend_limit`
--   and the setting and removal of a limit; Fees, `deduct_fee`, `compute_fee_amount` and the tiers
--   of merchants; Pause; Storage and Errors; Bridge, `complete_escrowed_payment` to
--   `resolve_escrowed_payment_dispute`, each with its call of the escrow contract, whose storage
--   stands beside the payment contract's. No two contracts share a storage.
-- - Refund, for contracts/refund/src/lib.rs. Errors, Types and Storage: as for the escrow contract.
--   StatusIndex: the arrays of refunds by status, `add_to_status_index`,
--   `remove_from_status_index`. Requests: `request_refund`, `create_refund`, `approve_refund`,
--   `process_refund` and the internal functions under them, which call the index, Policies, Limits,
--   Breaker and History. Denials: `reject_refund`, `finalize_denial`, `expire_stale_refund`,
--   `file_appeal`, `resolve_appeal`. Lifecycle: these calls in any order; its Diagram has the
--   changes of a status. Policies: `set_refund_policy` with `sort_tiers`, `set_merchant_parent`,
--   `get_effective_refund_policy`, `validate_against_policy`. Limits: caps, rate limits, quotas,
--   the fee. Breaker: the circuit breaker and `check_fraud_signals`. History:
--   `append_customer_refund_history`. Arbitration: from `escalate_to_arbitration` and
--   `cast_arbitration_vote` to `close_arbitration_case` and `trigger_arbitration_timeout`
--   (Decisions). Vouchers: their issue and redemption. Pause.
-- - Pausing: the pause as contracts/payment and contracts/refund write it out alike,
--   `pause_contract` to `unpause_function` and `is_function_paused`; Payment/Pause and Refund/Pause
--   are the calls, with the test of the caller. Escrow/Pause: the pause of the escrow contract,
--   which keeps another history.
-- - Admin, for contracts/admin/src/lib.rs: `initialize`, `emergency_pause_all`,
--   `emergency_unpause_all`. A platform has a storage of each contract under its address, and a
--   call of a contract at an address is the call of its model there.
-- - Modules below these are named for what they prove; the modules named Examples have a test of
--   each result.
--
-- State and operations keep the source's names. A part of a function that several callers share, or
-- that a proof needs by itself, is a function of its own (`pay_out`, `settle_release`,
-- `begin_execution`, `record_win`). Loops are recursion over the list or the counter they run over.
-- Some loops have fuel: `u64_to_string` fills a buffer of 20 bytes, which every `u64` fits
-- (Escrow/Governance/Decimals), and the search of `can_parent_release` takes one round for each
-- escrow in four generations, which is all there are, since `create_child_escrow` keeps the depth
-- at 3 or less (Escrow/Hierarchy/Descendants). The loops over the parents of a merchant have the
-- bound of 5 that the code gives them.
--
-- What stands outside: whether an address has authorised the call, where a token contract answers,
-- whether a token carries out a transfer after those before it, and the encoding of an address are
-- fields of `Env`, and whether a signature fits is an argument of the settlement; `owns`, an
-- argument of a refund request, is the answer of the payment contract at an address to
-- `check_payment_customer`, or false where that call fails. The contracts keep no balances of
-- tokens: the transfers that they make are a list, the last one first. A slot that all readers take
-- by `unwrap_or(0)` is a number with 0 for an absent slot.
--
-- Not modelled: events and the lifetime of storage entries, which no call reads back, and the
-- notification of other contracts by hooks, whose answers are ignored. Of the escrow contract:
-- evidence, appeals and escalation by time, insurance, watchdog, templates, batches, swaps, escrows
-- in several tokens, on conditions or with an oracle, migration. Of the refund contract: batches,
-- automatic refunds, evidence, categories, templates of policies, the lists of eligibility, the
-- automatic assignment of arbitrators, several setters of configurations and the listings. Of the
-- payment contract: payments themselves with `create_escrowed_payment`, subscriptions, splits,
-- loyalty and reports. They are left for later.
pub mod Prelude
pub mod Host
pub mod Pausing
pub mod Escrow
pub mod Payment
pub mod Refund
pub mod Admin
