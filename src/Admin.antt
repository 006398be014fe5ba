-- ===== src/Admin.antt =====
-- The admin contract, contracts/admin/src/lib.rs: one call that pauses the payment, the escrow and the
-- refund contract, and one that lets them go on.
pub mod Rules
pub mod Examples
use facilpay_contracts.Escrow.Pause.{
  pause_contract as pause_escrow, unpause_contract as unpause_escrow,
}
use facilpay_contracts.Payment.Pause.{
  pause_contract as pause_payment, unpause_contract as unpause_payment,
}
use facilpay_contracts.Refund.Pause.{
  pause_contract as pause_refund, unpause_contract as unpause_refund,
}
use facilpay_contracts.Prelude.{not, Option, none, some, ◌==◌, is_some, put}
use facilpay_contracts.Escrow.Storage.{Storage, Call}
use facilpay_contracts.Host.{
  Address, Bytes, Env, Outcome, ok, err, trap, Action, ◌>>=◌, ◌>>◌, gets, ok_or, modify, err_if,
  require_auth,
}
use facilpay_contracts.Payment.Storage.{PaymentStorage, PaymentCall}
use facilpay_contracts.Refund.Storage.{RefundStorage, RefundCall}

pub data AdminError : Type 0 where
  already_initialized not_initialized unauthorized : AdminError

-- `DataKey` of the admin contract, and the contracts of the platform, by their addresses.
pub record Platform : Type 0 where
  pub admin : Option Address
  pub pauser : Option Address
  pub payment_contract : Option Address
  pub escrow_contract : Option Address
  pub refund_contract : Option Address
  pub payments : Address → Option PaymentStorage
  pub escrows : Address → Option Storage
  pub refunds : Address → Option RefundStorage

unfoldable pub initialize :
    Env → Address → Address → Address → Address → Address → Action AdminError Platform Unit
initialize env admin pauser payment_contract escrow_contract refund_contract = do
  p ← gets (λ p. p)
  err_if (is_some p.admin) already_initialized
  require_auth env admin
  modify (λ p. record p {
    admin = some admin;
    pauser = some pauser;
    payment_contract = some payment_contract;
    escrow_contract = some escrow_contract;
    refund_contract = some refund_contract;
  })

-- What a caller makes of the outcome of another contract's call: a failure is a panic of the caller.
abbrev pub returned :
    {E S : Type 0}
    → Outcome E (Unit × S)
    → (S → Platform → Platform)
    → Action AdminError Platform Unit
returned (ok r) keep p = ok (tt, keep r.1 p)
returned (err e) keep p = trap
returned trap keep p = trap

-- A call of the contract at an address.
abbrev pub call_at :
    {E S : Type 0}
    → Option S
    → Action E S Unit
    → (S → Platform → Platform)
    → Action AdminError Platform Unit
call_at none call keep p = trap
call_at (some s) call keep p = returned (call s) keep p

abbrev pub pauser_only : Env → Address → Action AdminError Platform Unit
pauser_only env pauser = do
  require_auth env pauser
  p ← gets (λ p. p)
  stored ← ok_or p.pauser not_initialized
  err_if (not (pauser == stored)) unauthorized

-- The three calls, in the order of the source.
abbrev pub call_all :
    Call Unit → PaymentCall Unit → RefundCall Unit → Action AdminError Platform Unit
call_all on_escrow on_payment on_refund = do
  p ← gets (λ p. p)
  payment_at ← ok_or p.payment_contract not_initialized
  escrow_at ← ok_or p.escrow_contract not_initialized
  refund_at ← ok_or p.refund_contract not_initialized
  call_at (p.payments payment_at) on_payment
      (λ s p. record p { payments = put p.payments payment_at (some s) })
  call_at (p.escrows escrow_at) on_escrow
      (λ s p. record p { escrows = put p.escrows escrow_at (some s) })
  call_at (p.refunds refund_at) on_refund
      (λ s p. record p { refunds = put p.refunds refund_at (some s) })

unfoldable pub emergency_pause_all : Env → Address → Bytes → Action AdminError Platform Unit
unfolding pause_escrow pause_payment pause_refund
emergency_pause_all env pauser why = do
  pauser_only env pauser
  call_all (pause_escrow env pauser why) (pause_payment env pauser why)
      (pause_refund env pauser why)

unfoldable pub emergency_unpause_all : Env → Address → Action AdminError Platform Unit
unfolding unpause_escrow unpause_payment unpause_refund
emergency_unpause_all env pauser = do
  pauser_only env pauser
  call_all (unpause_escrow env pauser) (unpause_payment env pauser) (unpause_refund env pauser)
