-- ===== src/Payment/Bridge.antt =====
-- Payments whose money an escrow holds, contracts/payment/src/lib.rs: their completion, cancellation
-- and disputes, each of which calls the escrow contract.
pub mod Calls
pub mod Rules
pub mod Examples
use facilpay_contracts.Prelude.{
  ℕ, Bool, true, false, not, ◌&&◌, ◌||◌, Option, none, some, ◌==◌, contains, put,
}
use facilpay_contracts.Escrow.Dispute.{dispute_escrow, resolve_dispute}
use facilpay_contracts.Escrow.Refund.{refund_escrow}
use facilpay_contracts.Escrow.Release.{release_escrow}
use facilpay_contracts.Escrow.Storage.{Storage, Call}
use facilpay_contracts.Escrow.Types.{MultiSigConfig}
use facilpay_contracts.Host.{
  Address, Bytes, Env, Outcome, ok, err, trap, Action, ◌>>=◌, ◌>>◌, gets, ok_or, modify, err_if,
  require_auth,
}
use facilpay_contracts.Payment.Errors.{
  unauthorized, invalid_status, already_processed, Error, multi_sig_not_initialized, not_found,
  escrow_mapping_not_found, escrow_bridge_failed, basic, payment, feature,
}
use facilpay_contracts.Prelude.Int.{ℤ}

pub data Currency : Type 0 where
  xlm usdc usdt btc eth : Currency

pub data PaymentStatus : Type 0 where
  pending completed refunded partial_refunded cancelled : PaymentStatus

abbrev pub is_pending : PaymentStatus → Bool
is_pending pending = true
is_pending completed = false
is_pending refunded = false
is_pending partial_refunded = false
is_pending cancelled = false

pub record PaymentRecord : Type 0 where
  pub id : ℕ
  pub customer : Address
  pub merchant : Address
  pub amount : ℤ
  pub token : Address
  pub currency : Currency
  pub status : PaymentStatus
  pub created_at : ℕ
  pub expires_at : ℕ
  pub metadata : Bytes
  pub notes : Bytes
  pub refunded_amount : ℤ

pub record EscrowedPayment : Type 0 where
  pub payment_id : ℕ
  pub escrow_id : ℕ
  pub escrow_contract : Address
  pub auto_release_on_complete : Bool

pub record EscrowedPaymentDispute : Type 0 where
  pub payment_id : ℕ
  pub raised_by : Address
  pub reason : Bytes
  pub raised_at : ℕ
  pub resolved : Bool
  pub resolved_at : Option ℕ
  pub favor_customer : Option Bool

-- The payment contract's storage (`PaymentKey`: Data; `StateDataKey`: EscrowedPayment and
-- EscrowedPaymentDispute; `ConfigKey`: MultiSigConfig) with the storage of each escrow contract that
-- it may call: `none` where no escrow contract is deployed.
pub record Bridges : Type 0 where
  pub payments : ℕ → Option PaymentRecord
  pub escrowed_payments : ℕ → Option EscrowedPayment
  pub disputes : ℕ → Option EscrowedPaymentDispute
  pub multisig : Option MultiSigConfig
  pub escrow_contracts : Address → Option Storage

abbrev pub BridgeCall : Type 0 → Type 0
BridgeCall A = Action Error Bridges A

-- The environment of a called contract: `require_auth` passes for the contract that calls.
abbrev pub called : Env → Address → Env
called env at = record env {
  current_contract = at;
  authorized = λ a. a == env.current_contract || env.authorized a;
}

-- A called contract keeps its new storage if it returns a value; an error and a trap are both
-- `is_err` of a `try_` call.
abbrev pub keep_escrow :
    {E : Type 0} → Address → Bridges → Outcome E (Unit × Storage) → Outcome Error (Unit × Bridges)
keep_escrow at b (ok r) =
    ok (tt, record b { escrow_contracts = put b.escrow_contracts at (some r.1) })
keep_escrow at b (err _) = err (feature escrow_bridge_failed)
keep_escrow at b trap = err (feature escrow_bridge_failed)

-- `EscrowContractClient`: a `try_` call that must not fail.
unfoldable pub try_escrow : Env → Address → (Env → Call Unit) → BridgeCall Unit
try_escrow env at call b = elim (b.escrow_contracts at) [
  | none ↦ err (feature escrow_bridge_failed)
  | some s ↦ keep_escrow at b (call (called env at) s)
]

abbrev pub admin_only : Env → Address → BridgeCall Unit
admin_only env admin = do
  require_auth env admin
  b ← gets (λ b. b)
  config ← ok_or b.multisig (basic multi_sig_not_initialized)
  err_if (not (contains config.admins admin)) (basic unauthorized)

abbrev pub payment_or_err : ℕ → BridgeCall PaymentRecord
payment_or_err payment_id = do b ← gets (λ b. b); ok_or (b.payments payment_id) (payment not_found)

abbrev pub get_escrowed_payment : ℕ → BridgeCall EscrowedPayment
get_escrowed_payment payment_id = do
  b ← gets (λ b. b)
  ok_or (b.escrowed_payments payment_id) (feature escrow_mapping_not_found)

abbrev pub is_unresolved : Option EscrowedPaymentDispute → Bool
is_unresolved none = false
is_unresolved (some d) = not d.resolved

abbrev pub require_no_unresolved_escrowed_payment_dispute : ℕ → BridgeCall Unit
require_no_unresolved_escrowed_payment_dispute payment_id = do
  b ← gets (λ b. b)
  err_if (is_unresolved (b.disputes payment_id)) (payment invalid_status)

abbrev pub set_payment : ℕ → PaymentRecord → BridgeCall Unit
set_payment payment_id p = modify (λ b. record b { payments = put b.payments payment_id (some p) })

abbrev pub set_dispute : ℕ → EscrowedPaymentDispute → BridgeCall Unit
set_dispute payment_id d = modify (λ b. record b { disputes = put b.disputes payment_id (some d) })

unfoldable pub complete_escrowed_payment : Env → Address → ℕ → BridgeCall Unit
complete_escrowed_payment env admin payment_id = do
  admin_only env admin
  p ← payment_or_err payment_id
  bridge ← get_escrowed_payment payment_id
  err_if (not (is_pending p.status)) (payment invalid_status)
  require_no_unresolved_escrowed_payment_dispute payment_id
  try_escrow env bridge.escrow_contract (λ inner.
      release_escrow inner env.current_contract bridge.escrow_id bridge.auto_release_on_complete)
  set_payment payment_id (record p { status = completed })

unfoldable pub cancel_escrowed_payment : Env → Address → ℕ → BridgeCall Unit
cancel_escrowed_payment env caller payment_id = do
  require_auth env caller
  p ← payment_or_err payment_id
  bridge ← get_escrowed_payment payment_id
  err_if (not (is_pending p.status)) (payment invalid_status)
  err_if (not (p.customer == caller) && not (p.merchant == caller)) (basic unauthorized)
  require_no_unresolved_escrowed_payment_dispute payment_id
  try_escrow env bridge.escrow_contract (λ inner. refund_escrow inner caller bridge.escrow_id)
  set_payment payment_id (record p { status = cancelled })

unfoldable pub dispute_escrowed_payment : Env → Address → ℕ → Bytes → BridgeCall Unit
dispute_escrowed_payment env caller payment_id reason = do
  require_auth env caller
  p ← payment_or_err payment_id
  bridge ← get_escrowed_payment payment_id
  err_if (not (is_pending p.status)) (payment invalid_status)
  err_if (not (p.customer == caller) && not (p.merchant == caller)) (basic unauthorized)
  b ← gets (λ b. b)
  err_if (is_unresolved (b.disputes payment_id)) (payment already_processed)
  try_escrow env bridge.escrow_contract (λ inner. dispute_escrow inner caller bridge.escrow_id)
  set_dispute payment_id (record {
    payment_id = payment_id;
    raised_by = caller;
    reason = reason;
    raised_at = env.timestamp;
    resolved = false;
    resolved_at = none;
    favor_customer = none;
  })

-- The payment after a decision
abbrev pub ruled : Bool → PaymentRecord → PaymentRecord
ruled true p = record p { status = refunded; refunded_amount = p.amount }
ruled false p = record p { status = completed }

-- The dispute after a decision
abbrev pub closed : Env → Bool → EscrowedPaymentDispute → EscrowedPaymentDispute
closed env favor_customer d = record d {
  resolved = true;
  resolved_at = some env.timestamp;
  favor_customer = some favor_customer;
}

unfoldable pub resolve_escrowed_payment_dispute : Env → Address → ℕ → Bool → BridgeCall Unit
resolve_escrowed_payment_dispute env admin payment_id favor_customer = do
  admin_only env admin
  p ← payment_or_err payment_id
  bridge ← get_escrowed_payment payment_id
  b ← gets (λ b. b)
  d ← ok_or (b.disputes payment_id) (payment invalid_status)
  err_if d.resolved (payment already_processed)
  err_if (not (is_pending p.status)) (payment invalid_status)
  try_escrow env bridge.escrow_contract
      (λ inner. resolve_dispute inner admin bridge.escrow_id (not favor_customer))
  set_payment payment_id (ruled favor_customer p)
  set_dispute payment_id (closed env favor_customer d)
