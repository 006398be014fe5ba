-- ===== src/Escrow/Payout.antt =====
-- What an escrow pays out: `transfer_if_token_contract`, the fee of a release, and the account of the
-- fees that the contract keeps, of contracts/escrow/src/lib.rs.
use facilpay_contracts.Prelude.{true, false, not, some, List, ◌∷◌, ◌==◌, unwrap_or, contains, put}
use facilpay_contracts.Escrow.Errors.{not_an_admin, invalid_status, Error, basic, escrow}
use facilpay_contracts.Escrow.Governance.{get_multisig_config}
use facilpay_contracts.Escrow.Storage.{Storage, Call, on_governance, on_transfers}
use facilpay_contracts.Escrow.Types.{EscrowFeeConfig}
use facilpay_contracts.Host.{
  Address, Transfer, Env, ok, err, Action, ◌>>=◌, ◌>>◌, pure, gets, modify, err_if, when,
  require_auth, i128,
}
use facilpay_contracts.Prelude.Int.{ℤ, pos, ◌+ℤ◌, ◌-ℤ◌, ◌*ℤ◌, ◌/ℤ◌, ltb_ℤ, eqb_ℤ}

-- A transfer is skipped where no token contract answers `try_balance`, and a transfer that the
-- token refuses is an error.
unfoldable pub transfer_if_token_contract :
    Env → Address → Address → ℤ → Action Error (List Transfer) Unit
transfer_if_token_contract env token recipient amount log =
    let t : Transfer = record {
      token = token;
      from = env.current_contract;
      to = recipient;
      amount = amount;
    } in
    elim (env.is_token token) [
      | false ↦ ok (tt, log)
      | true ↦ elim (env.accepts log t) [
        | true ↦ ok (tt, t ∷ log)
        | false ↦ err (escrow invalid_status)
      ]
    ]

-- `get_escrow_fee_config`
abbrev pub fee_config_of : Env → Storage → EscrowFeeConfig
fee_config_of env s =
    unwrap_or s.settings.fee_config
      (record { fee_bps = pos 0; fee_recipient = env.current_contract; enabled = false })

-- `(amount * fee_bps) / 10000`
unfoldable pub fee_of : ℤ → ℤ → ℤ
unfolding ◌*ℤ◌ ◌/ℤ◌
fee_of amount fee_bps = (amount *ℤ fee_bps) /ℤ 10000

-- The fee part of a release: to the recipient, and on the account if that is the contract itself.
unfoldable pub collect_fee : Env → Address → ℤ → Call Unit
unfolding transfer_if_token_contract ◌+ℤ◌
collect_fee env token fee = do
  recipient ← gets (λ s. (fee_config_of env s).fee_recipient)
  on_transfers (transfer_if_token_contract env token recipient fee)
  when (recipient == env.current_contract) do
    fees ← gets (λ s. s.accumulated_fees)
    total ← i128 (fees token +ℤ fee)
    modify (λ s. record s { accumulated_fees = put s.accumulated_fees token total })

-- The fee, if there is one, and the rest to `recipient`.
unfoldable pub pay_out : Env → Address → ℤ → ℤ → Address → Call Unit
unfolding fee_of collect_fee transfer_if_token_contract ◌*ℤ◌ ◌-ℤ◌
pay_out env token amount fee_bps recipient = do
  product ← i128 (amount *ℤ fee_bps)
  rest ← i128 (amount -ℤ fee_of amount fee_bps)
  when (ltb_ℤ (pos 0) (fee_of amount fee_bps)) (collect_fee env token (fee_of amount fee_bps))
  on_transfers (transfer_if_token_contract env token recipient rest)

unfoldable pub set_escrow_fee_config : Env → Address → EscrowFeeConfig → Call Unit
set_escrow_fee_config env admin config = do
  require_auth env admin
  multisig ← on_governance get_multisig_config
  err_if (not (contains multisig.admins admin)) (basic not_an_admin)
  modify (λ s. record s { settings = record (s.settings) { fee_config = some config } })

unfoldable pub withdraw_escrow_fees : Env → Address → Address → Address → Call ℤ
unfolding transfer_if_token_contract
withdraw_escrow_fees env admin token to = do
  require_auth env admin
  multisig ← on_governance get_multisig_config
  err_if (not (contains multisig.admins admin)) (basic not_an_admin)
  fees ← gets (λ s. s.accumulated_fees)
  when (not (eqb_ℤ (fees token) (pos 0))) do
    on_transfers (transfer_if_token_contract env token to (fees token))
    modify (λ s. record s { accumulated_fees = put s.accumulated_fees token (pos 0) })
  pure (fees token)
