-- ===== src/Payment/Examples.antt =====
-- Tests: a channel, a spend limit and fees, and calls at one time.
use facilpay_contracts.Prelude.{
  ℕ, ◌+◌, ◌≤◌, ◌<◌, ◌≡◌, refl, ◌⊎◌, Bool, true, false, none, some, [], ◌∷◌, ◌==◌, put,
}
use facilpay_contracts.Host.{moved, Bytes, Env, after}
use facilpay_contracts.Payment.Channels.{pay_channel, settle_channel}
use facilpay_contracts.Payment.Channels.Rules.{
  settlement, settle_channel-pays, settle_channel_negative-overpays,
}
use facilpay_contracts.Payment.Fees.{
  FeeStorage, clamp_fee, compute_fee_amount, take_fee, charge, deduct_fee,
}
use facilpay_contracts.Payment.Fees.Tiers.{Taken, deduct_fee-splits}
use facilpay_contracts.Payment.Storage.{PaymentChannel, CustomerSpendLimit, PaymentStorage}
use facilpay_contracts.Prelude.Int.{ℤ, pos, negsuc, ◌+ℤ◌, ◌-ℤ◌, ◌*ℤ◌, ◌/ℤ◌, ◌≤ℤ◌}

abbrev now : Env
now = record {
  timestamp = 1000000;
  current_contract = 99;
  authorized = λ _. true;
  is_token = λ a. a == 50;
  accepts = λ _ _. true;
  to_xdr = λ _. 1 ∷ [];
}

abbrev channel : PaymentChannel
channel = record {
  channel_id = 1;
  customer = 10;
  merchant = 20;
  token = 50;
  deposited = pos 1000;
  settled = pos 0;
  settled_nonce = 0;
  is_open = true;
  expires_at = 2000000;
  customer_pk = [];
}

abbrev limit : CustomerSpendLimit
limit = record {
  customer = 10;
  limit_amount = pos 500;
  period_seconds = 86400;
  used = pos 300;
  period_start = 990000;
}

abbrev pub start : PaymentStorage
start = record {
  channels = put (λ _. none) 1 (some channel);
  channel_counter = 1;
  spend_limits = put (λ _. none) 10 (some limit);
  multisig = none;
  pausing = record { state = none; history = λ _. none; count = 0 };
  transfers = [];
}

-- A signature of which the first byte is the nonce.
abbrev signed : Bytes → ℕ → ℤ → ℕ → Bytes → Bool
signed key id amount nonce [] = false
signed key id amount nonce (x ∷ _) = x == nonce

abbrev settled_storage : PaymentStorage
settled_storage = after (start) (settle_channel signed now 1 (pos 600) 1 (1 ∷ []) (start))

settle_channel-pays_example :
    (channel.is_open ≡ true)
    × ((channel.expires_at ≡ 0) ⊎ (now.timestamp ≤ channel.expires_at))
    × (channel.settled_nonce < 1)
    × (signed channel.customer_pk 1 (pos 600) 1 (1 ∷ []) ≡ true)
    × ((pos 600) ≤ℤ channel.deposited)
    × (settled_storage.channels
        ≡ put start.channels 1
            (some (record channel { settled = (pos 600); settled_nonce = 1; is_open = false })))
    × (settled_storage.transfers ≡ settlement now channel (pos 600) start.transfers)
    × ((n m : ℕ)
        → (channel.deposited ≡ pos n) × ((pos 600) ≡ pos m)
        → moved settled_storage.transfers ≡ moved start.transfers + n)
unfolding settle_channel pay_channel ◌+ℤ◌ ◌-ℤ◌
settle_channel-pays_example =
    settle_channel-pays signed now 1 1 (pos 600) (1 ∷ []) channel start settled_storage refl refl

abbrev overpaid_storage : PaymentStorage
overpaid_storage = after (start) (settle_channel signed now 1 (negsuc 499) 1 (1 ∷ []) (start))

settle_channel_negative-overpays_example :
    (moved overpaid_storage.transfers ≡ moved start.transfers + 1000 + 499 + 1)
    × (overpaid_storage.transfers
        ≡ record {
          token = channel.token;
          from = now.current_contract;
          to = channel.customer;
          amount = pos (1000 + 499 + 1);
        }
          ∷ start.transfers)
unfolding settle_channel pay_channel ◌+ℤ◌ ◌-ℤ◌
settle_channel_negative-overpays_example =
    settle_channel_negative-overpays signed now 1 1000 499 1 (1 ∷ []) channel start overpaid_storage
      refl refl refl

abbrev fees : FeeStorage
fees = record {
  config = some (record {
    fee_bps = 200;
    min_fee = pos 5;
    max_fee = pos 50;
    treasury = 98;
    fee_token = 50;
    active = true;
  });
  thresholds = none;
  records = λ _. none;
  accumulated = pos 7;
  transfers = [];
}

abbrev charged : FeeStorage
charged = after (fees) (deduct_fee now (pos 1000) 20 50 10 (fees))

deduct_fee-splits_example :
    ((pos 980) +ℤ (pos 20) ≡ (pos 1000))
    × (charged.accumulated ≡ fees.accumulated +ℤ (pos 20))
    × Taken now 50 10 (pos 20) fees charged
unfolding deduct_fee charge take_fee compute_fee_amount clamp_fee ◌*ℤ◌ ◌/ℤ◌ ◌+ℤ◌ ◌-ℤ◌
deduct_fee-splits_example =
    deduct_fee-splits now (pos 1000) (pos 980) (pos 20) 20 50 10 fees charged refl
