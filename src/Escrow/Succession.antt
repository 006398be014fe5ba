-- ===== src/Escrow/Succession.antt =====
-- Succession of an admin: `designate_successor`, `activate_succession` and `revoke_succession` of
-- contracts/escrow/src/lib.rs.
pub mod Rules
pub mod Keeps
use facilpay_contracts.Prelude.{
  ℕ, zero, suc, ◌+◌, Bool, true, false, not, Option, none, some, ltb, ◌==◌, if◌then◌else◌,
  get_elem?, contains,
}
use facilpay_contracts.Escrow.Errors.{
  unauthorized, not_an_admin, invalid_address, already_processed, succession_plan_exists, not_ready,
  same_beneficiary, Error, basic, escrow, action,
}
use facilpay_contracts.Escrow.Governance.{get_multisig_config, enlist}
use facilpay_contracts.Escrow.Storage.{Governance}
use facilpay_contracts.Escrow.Types.{SuccessionPlan}
use facilpay_contracts.Host.{
  Address, Bytes, Env, Action, ◌>>=◌, ◌>>◌, gets, ok_or, unwrap, modify, err_if, require_auth,
  saturating_u64,
}

-- `is_zero_address`: the first 44 bytes of the address's XDR. A byte that is missing panics.
abbrev zero_from : Bytes → ℕ → ℕ → Option Bool
zero_from xdr zero at = some true
zero_from xdr (suc n) at =
    let rest = zero_from xdr n (at + 1) in
    elim (get_elem? xdr at) [ none ↦ none | some b ↦ if b == 0 then rest else some false ]

pub is_zero_xdr : Bytes → Option Bool
is_zero_xdr xdr = elim (get_elem? xdr 0) [
  | none ↦ none
  | some a ↦
      if a == 0
      then elim (get_elem? xdr 4) [
        | none ↦ none
        | some b ↦ if b == 0 then zero_from xdr 32 12 else some false
      ]
      else some false
]

abbrev pub is_zero_address : {S : Type 0} → Env → Address → Action Error S Bool
is_zero_address env a = unwrap (is_zero_xdr (env.to_xdr a))

abbrev is_pending : Option SuccessionPlan → Bool
is_pending none = false
is_pending (some p) = not p.activated

unfoldable pub designate_successor : Env → Address → Address → ℕ → Action Error Governance Unit
designate_successor env admin successor delay_seconds = do
  require_auth env admin
  config ← get_multisig_config
  err_if (not (contains config.admins admin)) (basic not_an_admin)
  zero_address ← is_zero_address env successor
  err_if zero_address (basic invalid_address)
  err_if (successor == admin) (action same_beneficiary)
  existing ← gets (λ g. g.succession)
  err_if (is_pending existing) (escrow succession_plan_exists)
  modify (λ g. record g {
    succession = some (record {
      successor = successor;
      designated_by = admin;
      designated_at = env.timestamp;
      activatable_after = saturating_u64 (env.timestamp + delay_seconds);
      activated = false;
    });
  })

unfoldable pub activate_succession : Env → Address → Action Error Governance Unit
unfolding enlist
activate_succession env successor = do
  require_auth env successor
  slot ← gets (λ g. g.succession)
  plan ← ok_or slot (basic unauthorized)
  err_if plan.activated (escrow already_processed)
  err_if (not (plan.successor == successor)) (basic unauthorized)
  err_if (ltb env.timestamp plan.activatable_after) (action not_ready)
  config ← get_multisig_config
  enlist config successor
  modify (λ g. record g { succession = some (record plan { activated = true }) })

unfoldable pub revoke_succession : Env → Address → Action Error Governance Unit
revoke_succession env admin = do
  require_auth env admin
  config ← get_multisig_config
  err_if (not (contains config.admins admin)) (basic not_an_admin)
  slot ← gets (λ g. g.succession)
  plan ← ok_or slot (basic unauthorized)
  err_if plan.activated (escrow already_processed)
  modify (λ g. record g { succession = none })
