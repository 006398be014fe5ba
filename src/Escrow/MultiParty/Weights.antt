-- ===== src/Escrow/MultiParty/Weights.antt =====
-- The weights of the participants' approvals and the threshold that they have to reach:
-- `get_approval_weight`, `set_participant_weight` and `update_approval_threshold_bps` of
-- contracts/escrow/src/lib.rs.
use facilpay_contracts.Prelude.{
  ℕ, Bool, true, false, not, ◌||◌, some, List, [], ◌∷◌, ltb, ◌==◌, if◌then◌else◌, unwrap_or,
  contains, put, put_at,
}
use facilpay_contracts.Escrow.Errors.{
  not_an_admin, participant_not_found, invalid_status, invalid_threshold, Error, basic, escrow,
}
use facilpay_contracts.Escrow.Governance.{get_multisig_config}
use facilpay_contracts.Escrow.MultiParty.{
  is_listed, sum_u32, on_multi_parties, deal_or_err, set_deal, sum_approved_weight,
}
use facilpay_contracts.Escrow.Storage.{MultiParties, Call, on_governance}
use facilpay_contracts.Escrow.Types.{locked, status_eq, Participant}
use facilpay_contracts.Host.{
  Address, Env, Action, ◌>>=◌, ◌>>◌, pure, gets, modify, err_if, require_auth,
}

unfoldable pub get_approval_weight : ℕ → Action Error MultiParties (ℕ × ℕ)
unfolding sum_approved_weight
get_approval_weight id = do
  e ← deal_or_err id
  m ← gets (λ m. m)
  approved ← sum_approved_weight (m.vote_weights id) 0 e.participants
  pure (approved, unwrap_or (m.thresholds_bps id) e.threshold_bps)

abbrev pub any_approved : List Participant → Bool
any_approved [] = false
any_approved (p ∷ ps) = if p.approved then true else any_approved ps

abbrev pub with_weight : Address → ℕ → Participant → Participant
with_weight a weight_bps p = if p.address == a then record p { weight_bps = weight_bps } else p

abbrev pub all_with_weight : Address → ℕ → List Participant → List Participant
all_with_weight a weight_bps [] = []
all_with_weight a weight_bps (p ∷ ps) = with_weight a weight_bps p ∷ all_with_weight a weight_bps ps

unfoldable pub set_participant_weight : Env → Address → ℕ → Address → ℕ → Call Unit
unfolding sum_u32
set_participant_weight env admin id participant weight_bps = do
  require_auth env admin
  config ← on_governance get_multisig_config
  err_if (not (contains config.admins admin)) (basic not_an_admin)
  e ← on_multi_parties (deal_or_err id)
  err_if (not (status_eq e.status locked)) (escrow invalid_status)
  err_if (any_approved e.participants) (escrow invalid_status)
  let updated = all_with_weight participant weight_bps e.participants
  new_total ← sum_u32 (λ p. p.weight_bps) 0 updated
  err_if (not (is_listed e.participants participant)) (basic participant_not_found)
  err_if (not (new_total == 10000)) (escrow invalid_status)
  on_multi_parties do
    set_deal id (record e { participants = updated })
    modify (λ m. record m { vote_weights = put_at m.vote_weights id participant (some weight_bps) })

unfoldable pub update_approval_threshold_bps : Env → Address → ℕ → ℕ → Call Unit
update_approval_threshold_bps env admin id threshold_bps = do
  require_auth env admin
  config ← on_governance get_multisig_config
  err_if (not (contains config.admins admin)) (basic not_an_admin)
  err_if (ltb threshold_bps 1 || ltb 10000 threshold_bps) (escrow invalid_threshold)
  e ← on_multi_parties (deal_or_err id)
  err_if (not (status_eq e.status locked)) (escrow invalid_status)
  on_multi_parties do
    set_deal id (record e { threshold_bps = threshold_bps })
    modify (λ m. record m { thresholds_bps = put m.thresholds_bps id (some threshold_bps) })
