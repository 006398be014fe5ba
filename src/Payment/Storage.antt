-- ===== src/Payment/Storage.antt =====
-- The storage of the payment contract, as far as channels, spend limits and the pause use it. The record of the
-- admins has the fields of the escrow contract's.
use facilpay_contracts.Prelude.{ℕ, Bool, Option, List}
use facilpay_contracts.Escrow.Types.{MultiSigConfig}
use facilpay_contracts.Host.{Address, Bytes, Transfer, Action, zoom}
use facilpay_contracts.Pausing.{Pausing}
use facilpay_contracts.Payment.Errors.{Error}
use facilpay_contracts.Prelude.Int.{ℤ}

pub record PaymentChannel : Type 0 where
  pub channel_id : ℕ
  pub customer : Address
  pub merchant : Address
  pub token : Address
  pub deposited : ℤ
  pub settled : ℤ
  pub settled_nonce : ℕ
  pub is_open : Bool
  pub expires_at : ℕ
  pub customer_pk : Bytes

pub record CustomerSpendLimit : Type 0 where
  pub customer : Address
  pub limit_amount : ℤ
  pub period_seconds : ℕ
  pub used : ℤ
  pub period_start : ℕ

-- `FeatureKey`: PaymentChannel, PaymentChannelCounter and CustomerSpendLimit; `ConfigKey`:
-- MultiSigConfig and PauseStateKey; `StateDataKey`: PauseHistoryEntry and PauseHistoryCount.
pub record PaymentStorage : Type 0 where
  pub channels : ℕ → Option PaymentChannel
  pub channel_counter : ℕ
  pub spend_limits : Address → Option CustomerSpendLimit
  pub multisig : Option MultiSigConfig
  pub pausing : Pausing
  pub transfers : List Transfer

abbrev pub PaymentCall : Type 0 → Type 0
PaymentCall A = Action Error PaymentStorage A

abbrev pub on_token : {A : Type 0} → Action Error (List Transfer) A → PaymentCall A
on_token = zoom (λ s. s.transfers) (λ s x. record s { transfers = x })

abbrev pub on_pausing : {A : Type 0} → Action Error Pausing A → PaymentCall A
on_pausing = zoom (λ s. s.pausing) (λ s x. record s { pausing = x })
