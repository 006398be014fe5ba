-- ===== src/Escrow/Governance/Membership.antt =====
-- The admins on record and their number.
use facilpay_contracts.Prelude.{
  ◌+◌, ◌≤◌, ◌≡◌, false, ◌||◌, Option, none, some, arith, ◌==◌, if◌then◌else◌, length,
  length-push_back, contains, Distinct, contains-push_back, push_back-Distinct, contains-without,
  without-Distinct, without_absent, length-without,
}
use facilpay_contracts.Escrow.Governance.{add_admin, remove_admin, dispatch_admin}
use facilpay_contracts.Escrow.Storage.{Governance}
use facilpay_contracts.Escrow.Types.{ActionType, MultiSigConfig}
use facilpay_contracts.Host.{Address, Bytes, Env, ok}

-- `total_admins` is the number of admins.
abbrev pub Config-IsCounted : Option MultiSigConfig → Type 0
Config-IsCounted none = Unit
Config-IsCounted (some c) = Distinct c.admins × (c.total_admins ≡ length c.admins)

-- `remove_admin` takes away that admin and no other, keeps the number of admins right, and leaves
-- enough of them to reach the threshold.
pub remove_admin-removes :
    (env : Env) (caller admin other : Address) (c c' : MultiSigConfig) (g g' : Governance)
    → g.multisig ≡ some c
    → Config-IsCounted (some c)
    → remove_admin env caller admin g ≡ ok (tt, g')
    → g'.multisig ≡ some c'
    → (contains c'.admins admin ≡ false)
      × (contains c'.admins other ≡ (if admin == other then false else contains c.admins other))
      × Config-IsCounted (some c')
      × (c'.required_signatures ≤ c'.total_admins)
unfolding remove_admin
remove_admin-removes env caller admin other c c' g g' hc v e hc' = ground (
  arith,
  contains-without c.admins admin admin,
  contains-without c.admins admin other,
  without-Distinct c.admins admin,
  length-without c.admins admin,
)

-- `add_admin` adds that admin and no other, and keeps the number of admins right and the threshold.
pub add_admin-adds :
    (env : Env) (caller admin other : Address) (c c' : MultiSigConfig) (g g' : Governance)
    → g.multisig ≡ some c
    → Config-IsCounted (some c)
    → add_admin env caller admin g ≡ ok (tt, g')
    → g'.multisig ≡ some c'
    → (contains c'.admins other ≡ (contains c.admins other || (admin == other)))
      × Config-IsCounted (some c')
      × (c'.required_signatures ≡ c.required_signatures)
unfolding add_admin
add_admin-adds env caller admin other c c' g g' hc v e hc' = ground (
  arith,
  contains-push_back c.admins admin other,
  push_back-Distinct c.admins admin,
  length-push_back c.admins admin,
)

-- A `RemoveAdmin` proposal does not look whether its target is an admin. If it is none, and the
-- number of admins on record was right, a dispatch that succeeds leaves the list as it is and the
-- number one short.
pub dispatch_remove_absent-miscounts :
    (target : Address) (payload : Bytes) (c c' : MultiSigConfig) (g g' : Governance)
    → g.multisig ≡ some c
    → Config-IsCounted (some c)
    → contains c.admins target ≡ false
    → dispatch_admin ActionType.remove_admin target payload g ≡ ok (tt, g')
    → g'.multisig ≡ some c'
    → (c'.admins ≡ c.admins) × (c'.total_admins + 1 ≡ length c'.admins)
unfolding dispatch_admin
dispatch_remove_absent-miscounts target payload c c' g g' hc v absent e hc' =
    ground (arith, without_absent c.admins target)
