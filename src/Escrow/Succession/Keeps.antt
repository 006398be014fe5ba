-- ===== src/Escrow/Succession/Keeps.antt =====
-- The calls of a succession keep the invariant of the administration.
use facilpay_contracts.Prelude.{ℕ, ◌≡◌, arith, push_back-Distinct}
use facilpay_contracts.Escrow.Governance.Invariant.{IsValid}
use facilpay_contracts.Escrow.Storage.{Governance}
use facilpay_contracts.Escrow.Succession.{
  designate_successor, activate_succession, revoke_succession,
}
use facilpay_contracts.Host.{Address, Env, ok}

module _ (g g' : Governance) (v : IsValid g) where
  pub designate_successor-IsValid :
      (env : Env) (admin successor : Address) (delay : ℕ)
      → designate_successor env admin successor delay g ≡ ok (tt, g')
      → IsValid g'
  unfolding designate_successor
  designate_successor-IsValid env admin successor delay e = record {
    config = ground (arith, v.config);
    proposals = λ j. ground (arith, v.proposals j);
  }

  pub activate_succession-IsValid :
      (env : Env) (successor : Address)
      → activate_succession env successor g ≡ ok (tt, g')
      → IsValid g'
  unfolding activate_succession
  activate_succession-IsValid env successor e = record {
    config = grind (arith, v.config, push_back-Distinct);
    proposals = λ j. ground (arith, v.proposals j);
  }

  pub revoke_succession-IsValid :
      (env : Env) (admin : Address) → revoke_succession env admin g ≡ ok (tt, g') → IsValid g'
  unfolding revoke_succession
  revoke_succession-IsValid env admin e = record {
    config = ground (arith, v.config);
    proposals = λ j. ground (arith, v.proposals j);
  }
