-- ===== src/Payment/Channels/Rules.antt =====
-- What a channel pays.
use facilpay_contracts.Prelude.{
  ℕ, ◌+◌, ◌≤◌, ◌<◌, ◌≡◌, ◌≢◌, ◌⊎◌, Bool, true, false, some, List, ◌∷◌, arith, if◌then◌else◌, put,
}
use facilpay_contracts.Host.{moved, Address, Bytes, Transfer, Env, ok, err}
use facilpay_contracts.Payment.Channels.{pay_channel, settle_channel, close_channel_expired}
use facilpay_contracts.Payment.Errors.{channel_closed, feature}
use facilpay_contracts.Payment.Storage.{PaymentChannel, PaymentStorage}
use facilpay_contracts.Prelude.Int.{ℤ, pos, negsuc, ◌-ℤ◌, ◌≤ℤ◌, ltb_ℤ}

-- The transfers of a settlement: the amount to the merchant and the rest of the deposit to the
-- customer, each only if it is positive.
abbrev pub settlement : Env → PaymentChannel → ℤ → List Transfer → List Transfer
settlement env c amount log =
    let to_merchant : List Transfer =
      if ltb_ℤ (pos 0) amount
      then record { token = c.token; from = env.current_contract; to = c.merchant; amount = amount }
        ∷ log
      else log in
    if ltb_ℤ amount c.deposited
    then record {
      token = c.token;
      from = env.current_contract;
      to = c.customer;
      amount = c.deposited -ℤ amount;
    }
      ∷ to_merchant
    else to_merchant

module _ (signed : Bytes → ℕ → ℤ → ℕ → Bytes → Bool) where
  -- A settlement that succeeds was of an open channel in time, with a fresh nonce, and signed by the
  -- customer for the amount, which is at most the deposit. It closes the channel, and pays the amount
  -- to the merchant and the rest of the deposit to the customer, each only if it is positive. If
  -- neither the amount nor the deposit is negative, exactly the deposit is paid out.
  pub settle_channel-pays :
      (env : Env) (id nonce : ℕ) (amount : ℤ) (signature : Bytes) (c : PaymentChannel)
      (s t : PaymentStorage)
      → s.channels id ≡ some c
      → settle_channel signed env id amount nonce signature s ≡ ok (tt, t)
      → (c.is_open ≡ true)
        × ((c.expires_at ≡ 0) ⊎ (env.timestamp ≤ c.expires_at))
        × (c.settled_nonce < nonce)
        × (signed c.customer_pk id amount nonce signature ≡ true)
        × (amount ≤ℤ c.deposited)
        × (t.channels
            ≡ put s.channels id
                (some (record c { settled = amount; settled_nonce = nonce; is_open = false })))
        × (t.transfers ≡ settlement env c amount s.transfers)
        × ((n m : ℕ)
            → (c.deposited ≡ pos n) × (amount ≡ pos m)
            → moved t.transfers ≡ moved s.transfers + n)
  unfolding settle_channel pay_channel ◌-ℤ◌
  settle_channel-pays env id nonce amount signature c s t h r = (
    ground arith,
    ground arith,
    ground arith,
    ground arith,
    ground arith,
    ground arith,
    ground arith,
    λ n m d. ground (arith, d),
  )

  -- A channel pays once: after a settlement or a close, neither succeeds.
  pub channel_once :
      (env later : Env) (caller other : Address) (id nonce nonce' : ℕ) (amount amount' : ℤ)
      (signature signature' : Bytes) (s t u : PaymentStorage)
      → (settle_channel signed env id amount nonce signature s ≡ ok (tt, t))
        ⊎ (close_channel_expired env caller id s ≡ ok (tt, t))
      → (settle_channel signed later id amount' nonce' signature' t ≡ err (feature channel_closed))
        × (close_channel_expired later other id t ≢ ok (tt, u))
  unfolding settle_channel close_channel_expired
  channel_once env later caller other id nonce nonce' amount amount' signature signature' s t u r =
      ground arith

  -- A settlement does not look whether the amount is negative: one that succeeds with such an amount,
  -- of a deposit that is not negative, pays more than the deposit out to the customer.
  pub settle_channel_negative-overpays :
      (env : Env) (id n m nonce : ℕ) (signature : Bytes) (c : PaymentChannel) (s t : PaymentStorage)
      → s.channels id ≡ some c
      → c.deposited ≡ pos n
      → settle_channel signed env id (negsuc m) nonce signature s ≡ ok (tt, t)
      → (moved t.transfers ≡ moved s.transfers + n + m + 1)
        × (t.transfers
            ≡ record {
              token = c.token;
              from = env.current_contract;
              to = c.customer;
              amount = pos (n + m + 1);
            }
              ∷ s.transfers)
  unfolding settle_channel pay_channel ◌-ℤ◌
  settle_channel_negative-overpays env id n m nonce signature c s t h d r = ground arith
