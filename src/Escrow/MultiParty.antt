-- ===== src/Escrow/MultiParty.antt =====
-- Escrows with several participants of contracts/escrow/src/lib.rs: creation, weighted approval,
-- release by shares, and the dispute that the participants vote on.
pub mod Weights
pub mod Disputes
pub mod Shares
pub mod Votes
pub mod Creation
pub mod Approval
use facilpay_contracts.Prelude.{
  ℕ, ◌+◌, Bool, true, false, not, ◌||◌, Option, none, some, List, [], ◌∷◌, ltb, ◌==◌, if◌then◌else◌,
  unwrap_or, length, push_back, contains, put, put_at,
}
use facilpay_contracts.Escrow.Errors.{
  unauthorized, duplicate_approval, not_found, invalid_status, release_not_yet_available,
  approvals_threshold_not_met, Error, basic, escrow, action,
}
use facilpay_contracts.Escrow.Storage.{MultiParties, Call, on_transfers}
use facilpay_contracts.Escrow.Types.{locked, released, status_eq, Participant, MultiPartyEscrow}
use facilpay_contracts.Host.{
  transfer, Address, Transfer, Env, Action, ◌>>=◌, ◌>>◌, pure, gets, ok_or, modify, err_if, when,
  require_auth, zoom, u32, u64, i128,
}
use facilpay_contracts.Prelude.Int.{ℤ, pos, ◌*ℤ◌, ◌/ℤ◌, ltb_ℤ}

-- The inner loop of the search for a participant that is listed twice, and the outer one.
abbrev pub is_listed : List Participant → Address → Bool
is_listed [] a = false
is_listed (p ∷ ps) a = if p.address == a then true else is_listed ps a

abbrev pub has_duplicate : List Participant → Bool
has_duplicate [] = false
has_duplicate (p ∷ ps) = if is_listed ps p.address then true else has_duplicate ps

-- `total_shares += p.share_bps`, and the same for the weights, from a starting value.
unfoldable pub sum_u32 : {S : Type 0} → (Participant → ℕ) → ℕ → List Participant → Action Error S ℕ
sum_u32 f acc [] = pure acc
sum_u32 f acc (p ∷ ps) = u32 (acc + f p) >>= λ sum. sum_u32 f sum ps

abbrev pub normalized : List Participant → List Participant
normalized [] = []
normalized (p ∷ ps) = record p { approved = false; approved_at = none } ∷ normalized ps

-- Each participant's slot `VoteWeight` takes the share.
abbrev pub set_vote_weights :
    ℕ → List Participant → (ℕ → Address → Option ℕ) → ℕ → Address → Option ℕ
set_vote_weights id [] slots = slots
set_vote_weights id (p ∷ ps) slots =
    set_vote_weights id ps (put_at slots id p.address (some p.share_bps))

abbrev pub on_multi_parties : {A : Type 0} → Action Error MultiParties A → Call A
on_multi_parties = zoom (λ s. s.multi_parties) (λ s x. record s { multi_parties = x })

unfoldable pub create_multi_party_escrow :
    Env → Address → List Participant → ℤ → Address → ℕ → Call ℕ
unfolding sum_u32
create_multi_party_escrow env customer participants total_amount token release_timestamp = do
  require_auth env customer
  err_if (ltb (length participants) 2 || ltb 10 (length participants)) (escrow invalid_status)
  err_if (has_duplicate participants) (basic duplicate_approval)
  total_shares ← sum_u32 (λ p. p.share_bps) 0 participants
  total_weights ← sum_u32 (λ p. p.weight_bps) 0 participants
  err_if (not (total_shares == 10000)) (escrow invalid_status)
  err_if (not (total_weights == 10000)) (escrow invalid_status)
  on_transfers (transfer env token customer env.current_contract total_amount)
  m ← on_multi_parties (gets (λ m. m))
  escrow_id ← u64 (m.counter + 1)
  on_multi_parties (
      modify (λ m. record m {
        deals = put m.deals escrow_id (
            some (record {
              id = escrow_id;
              participants = normalized participants;
              total_amount = total_amount;
              token = token;
              status = locked;
              approvals = [];
              threshold_bps = 10000;
              created_at = env.timestamp;
              release_timestamp = release_timestamp;
            }));
        counter = escrow_id;
        vote_weights = set_vote_weights escrow_id (normalized participants) m.vote_weights;
        thresholds_bps = put m.thresholds_bps escrow_id (some 10000);
      }))
  pure escrow_id

abbrev pub deal_or_err : ℕ → Action Error MultiParties MultiPartyEscrow
deal_or_err id = do m ← gets (λ m. m); ok_or (m.deals id) (escrow not_found)

abbrev pub set_deal : ℕ → MultiPartyEscrow → Action Error MultiParties Unit
set_deal id e = modify (λ m. record m { deals = put m.deals id (some e) })

-- The weight that a participant's vote has: the slot, or the participant's own entry.
abbrev pub weight_of : (Address → Option ℕ) → Participant → ℕ
weight_of slots p = unwrap_or (slots p.address) p.weight_bps

-- The loop of `approve_release` that finds the caller and marks it.
unfoldable pub mark_approved :
    (Address → Option ℕ)
    → ℕ
    → Address
    → List Participant
    → Action Error MultiParties (List Participant)
mark_approved slots now caller [] = pure []
mark_approved slots now caller (p ∷ ps) =
    when (p.address == caller) (
      err_if (weight_of slots p == 0) (basic unauthorized)
      >> err_if p.approved (basic duplicate_approval))
    >> mark_approved slots now caller ps
    >>= λ rest. pure (
        (if p.address == caller
          then record p { weight_bps = weight_of slots p; approved = true; approved_at = some now }
          else p)
        ∷ rest)

unfoldable pub approve_release : Env → Address → ℕ → Action Error MultiParties Unit
unfolding mark_approved
approve_release env caller id = do
  require_auth env caller
  e ← deal_or_err id
  err_if (not (status_eq e.status locked)) (escrow invalid_status)
  err_if (contains e.approvals caller) (basic duplicate_approval)
  m ← gets (λ m. m)
  participants ← mark_approved (m.vote_weights id) env.timestamp caller e.participants
  err_if (not (is_listed e.participants caller)) (basic unauthorized)
  set_deal id (record e { participants = participants; approvals = push_back e.approvals caller })

-- `sum_approved_weight`
unfoldable pub sum_approved_weight :
    {S : Type 0} → (Address → Option ℕ) → ℕ → List Participant → Action Error S ℕ
sum_approved_weight slots acc [] = pure acc
sum_approved_weight slots acc (p ∷ ps) =
    u32 (acc + (if p.approved then weight_of slots p else 0)) >>= λ sum.
    sum_approved_weight slots sum ps

-- The loop that pays each participant its share of the amount.
unfoldable pub pay_shares : Env → Address → ℤ → List Participant → Action Error (List Transfer) Unit
unfolding ◌*ℤ◌ ◌/ℤ◌
pay_shares env token total_amount [] = pure tt
pay_shares env token total_amount (p ∷ ps) =
    when (ltb 0 p.share_bps) (
      i128 (total_amount *ℤ pos p.share_bps) >>= λ product.
      when (ltb_ℤ (pos 0) (product /ℤ 10000))
        (transfer env token env.current_contract p.address (product /ℤ 10000)))
    >> pay_shares env token total_amount ps

unfoldable pub release_multi_party_escrow : Env → ℕ → Call Unit
unfolding sum_approved_weight pay_shares
release_multi_party_escrow env id = do
  e ← on_multi_parties (deal_or_err id)
  err_if (not (status_eq e.status locked)) (escrow invalid_status)
  m ← on_multi_parties (gets (λ m. m))
  approved_weight ← sum_approved_weight (m.vote_weights id) 0 e.participants
  err_if (ltb approved_weight (unwrap_or (m.thresholds_bps id) e.threshold_bps))
      (action approvals_threshold_not_met)
  err_if (ltb env.timestamp e.release_timestamp) (escrow release_not_yet_available)
  on_transfers (pay_shares env e.token e.total_amount e.participants)
  on_multi_parties (set_deal id (record e { status = released }))
