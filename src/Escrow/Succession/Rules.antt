-- ===== src/Escrow/Succession/Rules.antt =====
-- What a succession needs and does.
use facilpay_contracts.Prelude.{
  ℕ, ◌+◌, ◌≤◌, ◌<◌, ◌≡◌, ◌≢◌, true, false, some, arith, if◌then◌else◌, push_back, contains,
  contains-push_back,
}
use facilpay_contracts.Escrow.Storage.{Governance}
use facilpay_contracts.Escrow.Succession.{designate_successor, activate_succession}
use facilpay_contracts.Escrow.Types.{MultiSigConfig, SuccessionPlan}
use facilpay_contracts.Host.{Address, Env, ok}

-- The configuration with `a` among the admins.
abbrev pub with_admin : MultiSigConfig → Address → MultiSigConfig
with_admin c a =
    if contains c.admins a
    then c
    else record c { admins = push_back c.admins a; total_admins = c.total_admins + 1 }

-- An activation that succeeds was signed by the designated successor, after the delay, of a plan
-- that was still open. It makes the successor an admin, keeps the other admins and the threshold,
-- and closes the plan.
pub activate_succession-admits :
    (env : Env) (successor : Address) (c : MultiSigConfig) (p : SuccessionPlan) (g g' : Governance)
    → g.multisig ≡ some c
    → g.succession ≡ some p
    → activate_succession env successor g ≡ ok (tt, g')
    → (p.successor ≡ successor)
      × (p.activated ≡ false)
      × (p.activatable_after ≤ env.timestamp)
      × (env.authorized successor ≡ true)
      × (g'.multisig ≡ some (with_admin c successor))
      × (contains (with_admin c successor).admins successor ≡ true)
      × (g'.succession ≡ some (record p { activated = true }))
unfolding activate_succession
activate_succession-admits env successor c p g g' m s e =
    ground (arith, contains-push_back c.admins successor successor)

-- A plan that is designated waits out its delay: until then, whoever signs, no activation succeeds.
pub activate_succession_waits :
    (env later : Env) (admin successor caller : Address) (delay : ℕ) (g g' g'' : Governance)
    → designate_successor env admin successor delay g ≡ ok (tt, g')
    → later.timestamp < env.timestamp + delay
    → later.timestamp < 18446744073709551615
    → activate_succession later caller g' ≢ ok (tt, g'')
unfolding designate_successor activate_succession
activate_succession_waits env later admin successor caller delay g g' g'' e t b = ground arith

-- A plan is used once: after an activation no second one succeeds.
pub activate_succession_once :
    (env later : Env) (successor caller : Address) (g g' g'' : Governance)
    → activate_succession env successor g ≡ ok (tt, g')
    → activate_succession later caller g' ≢ ok (tt, g'')
unfolding activate_succession
activate_succession_once env later successor caller g g' g'' e f = ground arith
