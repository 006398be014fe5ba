-- ===== src/Escrow/Release/Fees.antt =====
-- The fee of a release is a part of the amount.
use facilpay_contracts.Prelude.{
  ℕ, ◌+◌, ◌-◌, ◌*◌, ◌/◌, ◌≤◌, ◌≡◌, true, ◌∷◌, arith, ◌==◌, if◌then◌else◌,
}
use facilpay_contracts.Escrow.Payout.{fee_config_of, fee_of, pay_out}
use facilpay_contracts.Escrow.Release.Payment.{pay_out-pays}
use facilpay_contracts.Escrow.Storage.{Storage}
use facilpay_contracts.Host.{moved, Address, Env, ok}
use facilpay_contracts.Prelude.Int.{pos, ◌-ℤ◌, ◌*ℤ◌, ◌/ℤ◌}
use native.Mathlib.Nat.{mul-le-mul_left}

-- With a rate between 0 and 10000 the fee of an amount lies between 0 and the amount.
pub fee_of-bounds :
    (n bps : ℕ)
    → bps ≤ 10000
    → (fee_of (pos n) (pos bps) ≡ pos (n * bps / 10000)) × (n * bps / 10000 ≤ n)
unfolding fee_of ◌*ℤ◌ ◌/ℤ◌
fee_of-bounds n bps b = ground (arith, mul-le-mul_left {m = bps} {n = 10000} n b)

-- Of an amount that is not negative, with a rate between 0 and 10000, a payout in a token moves the
-- amount, no more and no less: the fee, n * bps / 10000, if it is positive, to the recipient of fees,
-- and the rest to the recipient.
pub pay_out-moves :
    (env : Env) (token : Address) (n bps : ℕ) (recipient : Address) (s t : Storage)
    → bps ≤ 10000
    → env.is_token token ≡ true
    → pay_out env token (pos n) (pos bps) recipient s ≡ ok (tt, t)
    → (moved t.transfers ≡ moved s.transfers + n)
      × (t.transfers
          ≡ record {
            token = token;
            from = env.current_contract;
            to = recipient;
            amount = pos (n - n * bps / 10000);
          }
            ∷ (if n * bps / 10000 == 0
                then s.transfers
                else record {
                  token = token;
                  from = env.current_contract;
                  to = (fee_config_of env s).fee_recipient;
                  amount = pos (n * bps / 10000);
                }
                  ∷ s.transfers))
unfolding ◌-ℤ◌
pay_out-moves env token n bps recipient s t b k r =
    ground (arith, fee_of-bounds n bps b, pay_out-pays env token (pos n) (pos bps) recipient s t r)
