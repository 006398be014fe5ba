-- ===== src/Escrow/Governance.antt =====
-- The multi-signature administration of contracts/escrow/src/lib.rs: admins, proposals and the
-- admin actions that a proposal carries out. (`execute_action` is in Escrow/Dispatch.antt, since a
-- proposal may also release an escrow.)
pub mod Numbers
pub mod Invariant
pub mod Decimals
pub mod Membership
use facilpay_contracts.Prelude.{
  ℕ, ◌+◌, ◌%◌, true, false, not, ◌||◌, some, [], ◌∷◌, ltb, leb, ◌==◌, is_some, length, push_back,
  contains, without, put, put_bytes,
}
use facilpay_contracts.Escrow.Errors.{
  unauthorized, not_an_admin, already_approved, multi_sig_not_initialized, insufficient_admins,
  invalid_status, invalid_threshold, Error, basic, escrow,
}
use facilpay_contracts.Escrow.Governance.Numbers.{u64_to_string, read_u64_from_bytes}
use facilpay_contracts.Escrow.Storage.{Governance}
use facilpay_contracts.Escrow.Types.{ActionType, MultiSigConfig, AdminProposal}
use facilpay_contracts.Host.{
  Address, Bytes, Env, Action, ◌>>=◌, ◌>>◌, pure, fail, gets, ok_or, unwrap, modify, err_if,
  panic_if, when, require_auth, u32_bound, u32, u64, unsigned_sub,
}

abbrev pub initial_schema_version : ℕ
initial_schema_version = 1

unfoldable pub initialize : Address → Action Error Governance Unit
initialize admin = do
  g ← gets (λ g. g)
  panic_if (is_some g.multisig)
  modify (λ g. record g {
    multisig = some (record {
      admins = admin ∷ [];
      required_signatures = 1;
      total_admins = 1;
      proposal_ttl = 604800;
    });
    schema_version = some initial_schema_version;
  })

-- `get_multisig_config`, which panics before `initialize`
abbrev pub get_multisig_config : Action Error Governance MultiSigConfig
get_multisig_config = do g ← gets (λ g. g.multisig); unwrap g

-- the same slot, read with `ok_or(MultiSigNotInitialized)`
abbrev pub multisig_or_err : Action Error Governance MultiSigConfig
multisig_or_err = do g ← gets (λ g. g.multisig); ok_or g (basic multi_sig_not_initialized)

abbrev set_multisig : MultiSigConfig → Action Error Governance Unit
set_multisig config = modify (λ g. record g { multisig = some config })

abbrev set_proposal : Bytes → AdminProposal → Action Error Governance Unit
set_proposal key p = modify (λ g. record g { proposals = put_bytes g.proposals key (some p) })

unfoldable pub propose_action :
    Env → Address → ActionType → Address → Bytes → Action Error Governance Bytes
unfolding u64_to_string
propose_action env proposer action_type target payload = do
  require_auth env proposer
  config ← multisig_or_err
  err_if (not (contains config.admins proposer)) (basic not_an_admin)
  g ← gets (λ g. g)
  counter ← u64 (g.proposal_counter + 1)
  modify (λ g. record g { proposal_counter = counter })
  proposal_id ← u64_to_string counter
  expires_at ← u64 (env.timestamp + config.proposal_ttl)
  set_proposal proposal_id (record {
    id = proposal_id;
    proposer = proposer;
    action_type = action_type;
    target = target;
    payload = payload;
    approvals = proposer ∷ [];
    approval_count = 1;
    executed = false;
    rejected = false;
    created_at = env.timestamp;
    expires_at = expires_at;
  })
  pure proposal_id

unfoldable pub approve_action : Env → Address → Bytes → Action Error Governance Unit
approve_action env approver proposal_id = do
  require_auth env approver
  config ← multisig_or_err
  err_if (not (contains config.admins approver)) (basic not_an_admin)
  slot ← gets (λ g. g.proposals proposal_id)
  proposal ← ok_or slot (basic unauthorized)
  err_if (proposal.executed || proposal.rejected) (escrow invalid_status)
  err_if (ltb proposal.expires_at env.timestamp) (escrow invalid_status)
  err_if (contains proposal.approvals approver) (basic already_approved)
  count ← u32 (proposal.approval_count + 1)
  set_proposal proposal_id (record proposal {
    approvals = push_back proposal.approvals approver;
    approval_count = count;
  })

-- `execute_action` up to `dispatch_action`: the guards, and the proposal marked as executed.
unfoldable pub begin_execution : Env → Bytes → Action Error Governance AdminProposal
begin_execution env proposal_id = do
  config ← multisig_or_err
  slot ← gets (λ g. g.proposals proposal_id)
  proposal ← ok_or slot (basic unauthorized)
  err_if (proposal.executed || proposal.rejected) (escrow invalid_status)
  err_if (ltb proposal.expires_at env.timestamp) (escrow invalid_status)
  err_if (ltb proposal.approval_count config.required_signatures) (escrow invalid_status)
  set_proposal proposal_id (record proposal { executed = true })
  pure (record proposal { executed = true })

unfoldable pub reject_action : Env → Address → Bytes → Action Error Governance Unit
reject_action env rejecter proposal_id = do
  require_auth env rejecter
  config ← multisig_or_err
  err_if (not (contains config.admins rejecter)) (basic not_an_admin)
  slot ← gets (λ g. g.proposals proposal_id)
  proposal ← ok_or slot (basic unauthorized)
  err_if (proposal.executed || proposal.rejected) (escrow invalid_status)
  set_proposal proposal_id (record proposal { rejected = true })

-- Adds `new_admin` unless it is one: the common part of `add_admin`, `activate_succession` and an
-- `AddAdmin` proposal.
unfoldable pub enlist : MultiSigConfig → Address → Action Error Governance Unit
enlist config new_admin = when (not (contains config.admins new_admin)) do
  total ← u32 (config.total_admins + 1)
  set_multisig (record config { admins = push_back config.admins new_admin; total_admins = total })

unfoldable pub add_admin : Env → Address → Address → Action Error Governance Unit
unfolding enlist
add_admin env caller new_admin = do
  require_auth env caller
  config ← multisig_or_err
  err_if (not (contains config.admins caller)) (basic not_an_admin)
  enlist config new_admin

unfoldable pub add_trusted_bridge : Env → Address → Address → Action Error Governance Unit
add_trusted_bridge env caller bridge = do
  require_auth env caller
  config ← multisig_or_err
  err_if (not (contains config.admins caller)) (basic not_an_admin)
  modify (λ g. record g { trusted_bridges = put g.trusted_bridges bridge true })

unfoldable pub remove_admin : Env → Address → Address → Action Error Governance Unit
remove_admin env caller admin = do
  require_auth env caller
  config ← multisig_or_err
  err_if (not (contains config.admins caller)) (basic not_an_admin)
  err_if (leb config.total_admins config.required_signatures) (escrow invalid_status)
  let new_admins = without config.admins admin
  err_if (length new_admins == length config.admins) (basic not_an_admin)
  total ← unsigned_sub config.total_admins 1
  set_multisig (record config { admins = new_admins; total_admins = total })

-- The direct call is forbidden.
unfoldable pub update_required_signatures : Env → Address → ℕ → Action Error Governance Unit
update_required_signatures env caller required = do
  require_auth env caller
  fail (basic unauthorized)

-- The branches of `dispatch_action` on the administration. The last three action types are another
-- module's, or do nothing.
unfoldable pub dispatch_admin : ActionType → Address → Bytes → Action Error Governance Unit
unfolding enlist read_u64_from_bytes
dispatch_admin ActionType.add_admin target payload = do
  config ← multisig_or_err
  enlist config target
dispatch_admin ActionType.remove_admin target payload = do
  config ← multisig_or_err
  err_if (leb config.total_admins config.required_signatures) (escrow invalid_status)
  total ← unsigned_sub config.total_admins 1
  set_multisig (record config { admins = without config.admins target; total_admins = total })
dispatch_admin ActionType.update_required_signatures target payload = do
  let required = read_u64_from_bytes payload 0 % u32_bound
  config ← multisig_or_err
  err_if (required == 0 || ltb config.total_admins required) (escrow invalid_threshold)
  set_multisig (record config { required_signatures = required })
dispatch_admin (ActionType.update_threshold new_threshold) target payload = do
  config ← multisig_or_err
  err_if (new_threshold == 0) (escrow invalid_threshold)
  err_if (ltb config.total_admins new_threshold) (basic insufficient_admins)
  set_multisig (record config { required_signatures = new_threshold })
dispatch_admin _ target payload = pure tt
