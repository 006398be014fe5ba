-- ===== src/Payment/Channels.antt =====
-- Payment channels of contracts/payment/src/lib.rs: `open_channel`, `settle_channel` and
-- `close_channel_expired`.
pub mod Rules
use facilpay_contracts.Prelude.{
  ℕ, ◌+◌, Bool, true, false, not, ◌&&◌, ◌||◌, some, List, ltb, leb, ◌==◌, put,
}
use facilpay_contracts.Escrow.Succession.{is_zero_xdr}
use facilpay_contracts.Host.{
  transfer, Address, Bytes, Transfer, Env, Action, ◌>>=◌, ◌>>◌, pure, gets, ok_or, unwrap, modify,
  err_if, panic_if, when, require_auth, u64, i128,
}
use facilpay_contracts.Payment.Errors.{
  unauthorized, invalid_amount, channel_not_found, invalid_nonce, channel_closed, channel_expired,
  channel_not_expired, invalid_counterparty, Error, basic, feature,
}
use facilpay_contracts.Payment.Storage.{PaymentChannel, PaymentCall, on_token}
use facilpay_contracts.Prelude.Int.{ℤ, pos, ◌-ℤ◌, ltb_ℤ, leb_ℤ}

abbrev pub set_channel : ℕ → PaymentChannel → PaymentCall Unit
set_channel id c = modify (λ s. record s { channels = put s.channels id (some c) })

abbrev pub channel_or_err : ℕ → PaymentCall PaymentChannel
channel_or_err id = do s ← gets (λ s. s); ok_or (s.channels id) (feature channel_not_found)

unfoldable pub open_channel : Env → Address → Address → Address → ℤ → ℕ → Bytes → PaymentCall ℕ
open_channel env customer merchant token amount expires_at customer_pk = do
  require_auth env customer
  err_if (leb_ℤ amount (pos 0)) (basic invalid_amount)
  zero_address ← unwrap (is_zero_xdr (env.to_xdr merchant))
  err_if zero_address (feature invalid_counterparty)
  on_token (transfer env token customer env.current_contract amount)
  s ← gets (λ s. s)
  channel_id ← u64 (s.channel_counter + 1)
  set_channel channel_id (record {
    channel_id = channel_id;
    customer = customer;
    merchant = merchant;
    token = token;
    deposited = amount;
    settled = pos 0;
    settled_nonce = 0;
    is_open = true;
    expires_at = expires_at;
    customer_pk = customer_pk;
  })
  modify (λ s. record s { channel_counter = channel_id })
  pure channel_id

-- The transfers of a settlement.
unfoldable pub pay_channel : Env → PaymentChannel → ℤ → ℤ → Action Error (List Transfer) Unit
pay_channel env c merchant_amount customer_refund = do
  when (ltb_ℤ (pos 0) merchant_amount)
      (transfer env c.token env.current_contract c.merchant merchant_amount)
  when (ltb_ℤ (pos 0) customer_refund)
      (transfer env c.token env.current_contract c.customer customer_refund)

-- `signed` is `ed25519_verify`: does the signature fit the key and the message of number, amount and
-- nonce? If not, the call traps.
unfoldable pub settle_channel :
    (signed : Bytes → ℕ → ℤ → ℕ → Bytes → Bool) → Env → ℕ → ℤ → ℕ → Bytes → PaymentCall Unit
unfolding pay_channel ◌-ℤ◌
settle_channel signed env id merchant_amount nonce signature = do
  c ← channel_or_err id
  err_if (not c.is_open) (feature channel_closed)
  err_if (ltb 0 c.expires_at && ltb c.expires_at env.timestamp) (feature channel_expired)
  err_if (leb nonce c.settled_nonce) (feature invalid_nonce)
  err_if (ltb_ℤ c.deposited merchant_amount) (basic invalid_amount)
  panic_if (not (signed c.customer_pk id merchant_amount nonce signature))
  customer_refund ← i128 (c.deposited -ℤ merchant_amount)
  on_token (pay_channel env c merchant_amount customer_refund)
  set_channel id (record c { settled = merchant_amount; settled_nonce = nonce; is_open = false })

unfoldable pub close_channel_expired : Env → Address → ℕ → PaymentCall Unit
close_channel_expired env caller id = do
  require_auth env caller
  c ← channel_or_err id
  err_if (not (caller == c.customer) && not (caller == c.merchant)) (basic unauthorized)
  err_if (not c.is_open) (feature channel_closed)
  err_if (c.expires_at == 0 || leb env.timestamp c.expires_at) (feature channel_not_expired)
  on_token (
      when (ltb_ℤ (pos 0) c.deposited)
        (transfer env c.token env.current_contract c.customer c.deposited))
  set_channel id (record c { is_open = false })
