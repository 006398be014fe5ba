-- ===== src/Escrow/MultiParty/Disputes.antt =====
-- The dispute over an escrow with several participants: `dispute_multi_party_escrow`,
-- `vote_on_multi_party_dispute` and `resolve_multi_party_dispute` of contracts/escrow/src/lib.rs.
use facilpay_contracts.Prelude.{
  ℕ, ◌+◌, ◌/◌, Bool, true, false, not, Option, none, some, List, [], ◌∷◌, ltb, leb, if◌then◌else◌,
  length, push_back, contains, put,
}
use facilpay_contracts.Escrow.Errors.{
  unauthorized, duplicate_approval, invalid_status, already_processed, not_disputed,
  approvals_threshold_not_met, Error, basic, escrow, action,
}
use facilpay_contracts.Escrow.MultiParty.{
  is_listed, on_multi_parties, deal_or_err, set_deal, pay_shares,
}
use facilpay_contracts.Escrow.Storage.{MultiParties, Call, on_transfers}
use facilpay_contracts.Escrow.Types.{
  locked, released, disputed, resolved, status_eq, ParticipantRole, Participant, MultiPartyEscrow,
  MultiPartyDispute,
}
use facilpay_contracts.Host.{
  transfer, Address, Transfer, Env, Action, ◌>>=◌, ◌>>◌, gets, ok_or, modify, err_if, require_auth,
  u64,
}

abbrev pub set_dispute : ℕ → MultiPartyDispute → Action Error MultiParties Unit
set_dispute id d = modify (λ m. record m { disputes = put m.disputes id (some d) })

unfoldable pub dispute_multi_party_escrow : Env → Address → ℕ → Action Error MultiParties Unit
dispute_multi_party_escrow env caller id = do
  require_auth env caller
  e ← deal_or_err id
  err_if (not (status_eq e.status locked)) (escrow invalid_status)
  err_if (not (is_listed e.participants caller)) (basic unauthorized)
  resolution_deadline ← u64 (env.timestamp + 604800)
  set_dispute id (record {
    escrow_id = id;
    votes_for_merchant = [];
    votes_for_customer = [];
    quorum_required = length e.participants / 2 + 1;
    resolution_deadline = resolution_deadline;
    resolved = false;
  })
  set_deal id (record e { status = disputed })

abbrev pub dispute_or_err : ℕ → Action Error MultiParties MultiPartyDispute
dispute_or_err id = do m ← gets (λ m. m); ok_or (m.disputes id) (action not_disputed)

unfoldable pub vote_on_multi_party_dispute :
    Env → Address → ℕ → Bool → Action Error MultiParties Unit
vote_on_multi_party_dispute env voter id favor_merchant = do
  require_auth env voter
  e ← deal_or_err id
  d ← dispute_or_err id
  err_if d.resolved (escrow already_processed)
  err_if (not (is_listed e.participants voter)) (basic unauthorized)
  err_if (contains d.votes_for_merchant voter) (basic duplicate_approval)
  err_if (contains d.votes_for_customer voter) (basic duplicate_approval)
  set_dispute id (
      if favor_merchant
      then record d { votes_for_merchant = push_back d.votes_for_merchant voter }
      else record d { votes_for_customer = push_back d.votes_for_customer voter })

-- Which side the votes favor, if they or the deadline decide.
unfoldable pub favored : ℕ → MultiPartyDispute → Option Bool
favored now d =
    if leb d.quorum_required (length d.votes_for_merchant)
    then some true
    else if leb d.quorum_required (length d.votes_for_customer)
    then some false
    else if ltb d.resolution_deadline now
    then some false
    else none

abbrev pub is_customer : ParticipantRole → Bool
is_customer ParticipantRole.customer = true
is_customer _ = false

-- The first participant with the role of the customer.
abbrev pub find_customer : List Participant → Option Address
find_customer [] = none
find_customer (p ∷ ps) = if is_customer p.role then some p.address else find_customer ps

-- The transfers of the resolution.
unfoldable pub pay_resolution : Env → MultiPartyEscrow → Bool → Action Error (List Transfer) Unit
unfolding pay_shares
pay_resolution env e true = pay_shares env e.token e.total_amount e.participants
pay_resolution env e false = elim (find_customer e.participants) [
  | some customer ↦ transfer env e.token env.current_contract customer e.total_amount
  | none ↦ pay_shares env e.token e.total_amount e.participants
]

unfoldable pub resolve_multi_party_dispute : Env → ℕ → Call Unit
unfolding favored pay_resolution
resolve_multi_party_dispute env id = do
  e ← on_multi_parties (deal_or_err id)
  d ← on_multi_parties (dispute_or_err id)
  err_if d.resolved (escrow already_processed)
  favor_merchant ← ok_or (favored env.timestamp d) (action approvals_threshold_not_met)
  on_multi_parties (set_dispute id (record d { resolved = true }))
  on_transfers (pay_resolution env e favor_merchant)
  on_multi_parties
      (set_deal id (record e { status = if favor_merchant then released else resolved }))
