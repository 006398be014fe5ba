-- ===== src/Payment/Fees/Tiers.antt =====
-- What fees and tiers may become.
use facilpay_contracts.Prelude.{
  ℕ, ◌-◌, ◌*◌, ◌/◌, ◌≤◌, ◌≡◌, sym, subst, ◌⊎◌, inl, inr, ◌∷◌, arith, Option-cases, unwrap_or,
}
use facilpay_contracts.Host.{Address, Env, ok, >>=-eq-ok}
use facilpay_contracts.Payment.Fees.{
  FeeTier, FeeStorage, tier_discount_bps, tier_rank, clamp_fee, compute_fee_amount, fee_record_of,
  fee_config_for, take_fee, charge, deduct_fee, default_thresholds, calculate_tier,
  update_merchant_fee_record_post_completion,
}
use facilpay_contracts.Prelude.Int.{ℤ, pos, ◌+ℤ◌, ◌*ℤ◌, ◌/ℤ◌, ◌≤ℤ◌, ◌<ℤ◌, +ℤ_zero, -ℤ_cancel}

clamp_fee-bounds :
    (raw_fee min_fee max_fee : ℤ)
    → (pos 0 ≤ℤ clamp_fee raw_fee min_fee max_fee)
      × ((max_fee ≤ℤ pos 0) ⊎ (clamp_fee raw_fee min_fee max_fee ≤ℤ max_fee))
      × (((pos 0 <ℤ max_fee) × (max_fee <ℤ min_fee))
          ⊎ (min_fee ≤ℤ clamp_fee raw_fee min_fee max_fee))
unfolding clamp_fee
clamp_fee-bounds raw_fee min_fee max_fee = ground arith

compute_fee_amount-clamp_fee :
    {S : Type 0} (amount : ℤ) (fee_bps : ℕ) (tier : FeeTier) (min_fee max_fee fee : ℤ) (s t : S)
    → compute_fee_amount amount fee_bps tier min_fee max_fee s ≡ ok (fee, t)
    → (raw_fee : ℤ) × (t ≡ s) × (fee ≡ clamp_fee raw_fee min_fee max_fee)
unfolding compute_fee_amount
compute_fee_amount-clamp_fee amount fee_bps tier min_fee max_fee fee s t r = (
  (amount *ℤ pos (fee_bps - fee_bps * tier_discount_bps tier / 10000)) /ℤ 10000,
  ground arith,
  ground arith,
)

-- A fee is never negative, never above a positive maximum, and never below a minimum that the maximum
-- allows.
pub compute_fee_amount-bounds :
    {S : Type 0} (amount : ℤ) (fee_bps : ℕ) (tier : FeeTier) (min_fee max_fee fee : ℤ) (s t : S)
    → compute_fee_amount amount fee_bps tier min_fee max_fee s ≡ ok (fee, t)
    → (pos 0 ≤ℤ fee)
      × ((max_fee ≤ℤ pos 0) ⊎ (fee ≤ℤ max_fee))
      × (((pos 0 <ℤ max_fee) × (max_fee <ℤ min_fee)) ⊎ (min_fee ≤ℤ fee))
compute_fee_amount-bounds amount fee_bps tier min_fee max_fee fee s t r =
    let (raw, _, q) = compute_fee_amount-clamp_fee amount fee_bps tier min_fee max_fee fee s t r in
    subst
      (λ z.
        (pos 0 ≤ℤ z)
        × ((max_fee ≤ℤ pos 0) ⊎ (z ≤ℤ max_fee))
        × (((pos 0 <ℤ max_fee) × (max_fee <ℤ min_fee)) ⊎ (min_fee ≤ℤ z)))
      (sym q) (clamp_fee-bounds raw min_fee max_fee)

-- The fee that was taken.
abbrev pub Taken : Env → Address → Address → ℤ → FeeStorage → FeeStorage → Type 0
Taken env token customer fee s t =
    ((fee ≡ pos 0) × (t.transfers ≡ s.transfers))
    ⊎ ((pos 0 <ℤ fee)
        × (t.transfers
            ≡ record { token = token; from = customer; to = env.current_contract; amount = fee }
              ∷ s.transfers))

take_fee-splits :
    (env : Env) (amount net fee taken : ℤ) (token customer : Address) (s t : FeeStorage)
    → take_fee env amount token customer fee s ≡ ok ((net, taken), t)
    → (net +ℤ taken ≡ amount)
      × (t.accumulated ≡ s.accumulated +ℤ taken)
      × Taken env token customer taken s t
unfolding take_fee
take_fee-splits env amount net fee taken token customer s t r =
    ground (arith, -ℤ_cancel amount fee, +ℤ_zero amount, +ℤ_zero s.accumulated)

-- What is deducted as a fee and what is left add up to the amount, and the fee, if there is one, is
-- what moves from the customer to the contract and onto the account of fees.
pub deduct_fee-splits :
    (env : Env) (amount net fee : ℤ) (merchant token customer : Address) (s t : FeeStorage)
    → deduct_fee env amount merchant token customer s ≡ ok ((net, fee), t)
    → (net +ℤ fee ≡ amount)
      × (t.accumulated ≡ s.accumulated +ℤ fee)
      × Taken env token customer fee s t
unfolding deduct_fee charge
deduct_fee-splits env amount net fee merchant token customer s t r =
    elim (Option-cases (fee_config_for token s.config)) [
      | inl free ↦ ground (arith, +ℤ_zero amount, +ℤ_zero s.accumulated)
      | inr (c, h) ↦
          let computing =
            compute_fee_amount {S = FeeStorage} amount c.fee_bps
              (fee_record_of s.records merchant).fee_tier c.min_fee c.max_fee in
          let (x, u, first, rest) =
            >>=-eq-ok computing (take_fee env amount token customer) s (ground (arith, r, h)) in
          let (raw, same, q) =
            compute_fee_amount-clamp_fee amount c.fee_bps
              (fee_record_of s.records merchant).fee_tier c.min_fee c.max_fee x s u first in
          subst
            (λ z.
              (net +ℤ fee ≡ amount)
              × (t.accumulated ≡ z.accumulated +ℤ fee)
              × Taken env token customer fee z t)
            same (take_fee-splits env amount net x fee token customer u t rest)
    ]

-- A completed payment never lowers the tier of its merchant, and leaves it at least at the tier that
-- the new volume earns.
pub update_merchant_fee_record-raises :
    (merchant : Address) (amount fee_amount : ℤ) (s t : FeeStorage)
    → update_merchant_fee_record_post_completion merchant amount fee_amount s ≡ ok (tt, t)
    → (tier_rank (fee_record_of s.records merchant).fee_tier
        ≤ tier_rank (fee_record_of t.records merchant).fee_tier)
      × ((fee_record_of t.records merchant).total_volume
          ≡ (fee_record_of s.records merchant).total_volume +ℤ amount)
      × (tier_rank (
            calculate_tier
              (unwrap_or s.thresholds default_thresholds)
              (fee_record_of t.records merchant).total_volume)
          ≤ tier_rank (fee_record_of t.records merchant).fee_tier)
unfolding update_merchant_fee_record_post_completion
update_merchant_fee_record-raises merchant amount fee_amount s t r = ground arith
