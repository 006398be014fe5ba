-- ===== src/Payment/Fees.antt =====
-- Fees of contracts/payment/src/lib.rs: `deduct_fee`, `compute_fee_amount`, and the tier that a
-- merchant earns by its volume.
pub mod Tiers
use facilpay_contracts.Prelude.{
  ℕ, ◌*◌, ◌/◌, Bool, true, false, not, ◌&&◌, Option, none, some, List, [], ◌∷◌, ltb, ◌==◌,
  if◌then◌else◌, unwrap_or, put,
}
use facilpay_contracts.Host.{
  transfer, Address, Transfer, Env, ok, Action, ◌>>=◌, ◌>>◌, pure, gets, modify, zoom, u32,
  unsigned_sub, i128,
}
use facilpay_contracts.Payment.Errors.{Error}
use facilpay_contracts.Prelude.Int.{ℤ, pos, ◌+ℤ◌, ◌-ℤ◌, ◌*ℤ◌, ◌/ℤ◌, ltb_ℤ, leb_ℤ}

pub data FeeTier : Type 0 where
  standard premium enterprise : FeeTier

pub record FeeConfig : Type 0 where
  pub fee_bps : ℕ
  pub min_fee : ℤ
  pub max_fee : ℤ
  pub treasury : Address
  pub fee_token : Address
  pub active : Bool

pub record MerchantFeeRecord : Type 0 where
  pub merchant : Address
  pub total_fees_paid : ℤ
  pub total_volume : ℤ
  pub fee_tier : FeeTier

-- `ConfigKey` FeeConfig and TierThresholds, `MerchantDataKey` FeeRecord, `PaymentKey`
-- AccumulatedFees, and the transfers.
pub record FeeStorage : Type 0 where
  pub config : Option FeeConfig
  pub thresholds : Option (List (FeeTier × ℤ))
  pub records : Address → Option MerchantFeeRecord
  pub accumulated : ℤ
  pub transfers : List Transfer

abbrev pub FeeCall : Type 0 → Type 0
FeeCall A = Action Error FeeStorage A

-- `get_tier_discount_bps`
abbrev pub tier_discount_bps : FeeTier → ℕ
tier_discount_bps standard = 0
tier_discount_bps premium = 750
tier_discount_bps enterprise = 2000

abbrev pub tier_rank : FeeTier → ℕ
tier_rank standard = 0
tier_rank premium = 1
tier_rank enterprise = 2

-- The fee between its bounds; a bound that is not positive does not count.
unfoldable pub clamp_fee : ℤ → ℤ → ℤ → ℤ
clamp_fee raw_fee min_fee max_fee =
    let least = if ltb_ℤ (pos 0) min_fee && ltb_ℤ raw_fee min_fee then min_fee else raw_fee in
    let most = if ltb_ℤ (pos 0) max_fee && ltb_ℤ max_fee least then max_fee else least in
    if ltb_ℤ most (pos 0) then pos 0 else most

unfoldable pub compute_fee_amount : {S : Type 0} → ℤ → ℕ → FeeTier → ℤ → ℤ → Action Error S ℤ
unfolding ◌*ℤ◌ ◌/ℤ◌ clamp_fee
compute_fee_amount amount fee_bps tier min_fee max_fee = do
  discounted ← u32 (fee_bps * tier_discount_bps tier)
  effective_bps ← unsigned_sub fee_bps (discounted / 10000)
  product ← i128 (amount *ℤ pos effective_bps)
  pure (clamp_fee (product /ℤ 10000) min_fee max_fee)

-- `get_or_default_merchant_fee_record`
abbrev pub fee_record_of : (Address → Option MerchantFeeRecord) → Address → MerchantFeeRecord
fee_record_of records merchant = unwrap_or (records merchant) (record {
  merchant = merchant;
  total_fees_paid = pos 0;
  total_volume = pos 0;
  fee_tier = standard;
})

-- The configuration that counts for the token.
abbrev pub fee_config_for : Address → Option FeeConfig → Option FeeConfig
fee_config_for token none = none
fee_config_for token (some c) =
    if not c.active then none else if c.fee_token == token then some c else none

-- The part of `deduct_fee` behind the computation of the fee. `transfer_from` moves from the customer.
unfoldable pub take_fee : Env → ℤ → Address → Address → ℤ → FeeCall (ℤ × ℤ)
unfolding ◌-ℤ◌ ◌+ℤ◌
take_fee env amount token customer fee s = elim (leb_ℤ fee (pos 0)) [
  | true ↦ ok ((amount, pos 0), s)
  | false ↦
      (do
        net_amount ← i128 (amount -ℤ fee)
        zoom (λ s. s.transfers) (λ s x. record s { transfers = x })
            (transfer env token customer env.current_contract fee)
        total ← i128 (s.accumulated +ℤ fee)
        modify (λ s. record s { accumulated = total })
        pure (net_amount, fee))
        s
]

-- The part of `deduct_fee` under an active configuration.
unfoldable pub charge : Env → ℤ → Address → Address → Address → FeeConfig → FeeCall (ℤ × ℤ)
unfolding compute_fee_amount take_fee
charge env amount merchant token customer c = do
  s ← gets (λ s. s)
  let r = fee_record_of s.records merchant
  fee ← compute_fee_amount amount c.fee_bps r.fee_tier c.min_fee c.max_fee
  take_fee env amount token customer fee

unfoldable pub deduct_fee : Env → ℤ → Address → Address → Address → FeeCall (ℤ × ℤ)
unfolding charge
deduct_fee env amount merchant token customer s = elim (fee_config_for token s.config) [
  | none ↦ ok ((amount, pos 0), s)
  | some c ↦ charge env amount merchant token customer c s
]

abbrev pub premium_volume : ℕ
premium_volume = 10000

abbrev pub enterprise_volume : ℕ
enterprise_volume = 100000

-- `get_stored_or_default_thresholds`
abbrev pub default_thresholds : List (FeeTier × ℤ)
default_thresholds = (premium, pos premium_volume) ∷ (enterprise, pos enterprise_volume) ∷ []

-- The loop of `calculate_tier`: the last threshold given for a tier, or the default.
abbrev pub threshold_in : FeeTier → ℤ → List (FeeTier × ℤ) → ℤ
threshold_in tier value [] = value
threshold_in tier value ((t, v) ∷ rest) =
    threshold_in tier (if tier_rank t == tier_rank tier then v else value) rest

unfoldable pub calculate_tier : List (FeeTier × ℤ) → ℤ → FeeTier
calculate_tier thresholds total_volume =
    if leb_ℤ (threshold_in enterprise (pos enterprise_volume) thresholds) total_volume
    then enterprise
    else if leb_ℤ (threshold_in premium (pos premium_volume) thresholds) total_volume
    then premium
    else standard

unfoldable pub update_merchant_fee_record_post_completion : Address → ℤ → ℤ → FeeCall Unit
unfolding calculate_tier ◌+ℤ◌
update_merchant_fee_record_post_completion merchant amount fee_amount = do
  s ← gets (λ s. s)
  let r = fee_record_of s.records merchant
  volume ← i128 (r.total_volume +ℤ amount)
  fees ← i128 (r.total_fees_paid +ℤ fee_amount)
  let computed = calculate_tier (unwrap_or s.thresholds default_thresholds) volume
  modify (λ s. record s {
    records = put s.records merchant (
        some (record r {
          total_volume = volume;
          total_fees_paid = fees;
          fee_tier =
              if ltb (tier_rank r.fee_tier) (tier_rank computed) then computed else r.fee_tier;
        }));
  })
