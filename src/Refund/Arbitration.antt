-- ===== src/Refund/Arbitration.antt =====
-- Arbitration of contracts/refund/src/lib.rs: the escalation of a denied refund to arbitrators with a
-- fee and a stake, their votes, and the decision with its payments.
pub mod Decisions
pub mod Votes
pub mod Reopening
use facilpay_contracts.Prelude.{
  ℕ, ◌+◌, Bool, true, false, not, ◌||◌, Option, none, some, List, [], ◌∷◌, ltb, ◌==◌, if◌then◌else◌,
  unwrap_or, is_some, length, push_back, contains, put, put_at,
}
use facilpay_contracts.Host.{
  transfer, Address, Bytes, Transfer, Env, Action, ◌>>=◌, ◌>>◌, pure, gets, ok_or, unwrap, modify,
  err_if, when, require_auth, u32, u64, i128,
}
use facilpay_contracts.Prelude.Int.{ℤ, pos, ◌+ℤ◌, ◌*ℤ◌, ◌/ℤ◌, ltb_ℤ, leb_ℤ}
use facilpay_contracts.Refund.Denials.{is_denied}
use facilpay_contracts.Refund.Errors.{
  invalid_amount, refund_not_found, unauthorized, invalid_status, already_processed,
  quorum_not_reached, not_arbitrator, Error, core,
}
use facilpay_contracts.Refund.Requests.{refund_or_err, move_refund}
use facilpay_contracts.Refund.Storage.{
  RefundCall, on_ledger, on_arbitration, on_refund_transfers, stored_admin_only,
}
use facilpay_contracts.Refund.Types.{
  approved, rejected, pending_appeal, status_code, open_case, is_open_case, ArbitrationCase,
  ArbitratorVote, ArbitrationFeeConfig, ArbitrationStakeConfig, ArbitrationStake,
}

-- `SystemKey` and `ArbitrationKey` slots that hold a case.
abbrev pub case_or_err : ℕ → RefundCall ArbitrationCase
case_or_err id = do s ← gets (λ s. s); ok_or (s.arbitration.cases id) (core refund_not_found)

abbrev pub set_case : ArbitrationCase → RefundCall Unit
set_case c = on_arbitration (modify (λ a. record a { cases = put a.cases c.case_id (some c) }))

unfoldable pub register_arbitrator : Env → Address → Address → RefundCall Unit
register_arbitrator env admin arbitrator = do
  require_auth env admin
  s ← gets (λ s. s)
  stored ← unwrap s.admin
  err_if (not (admin == stored)) (core unauthorized)
  err_if (contains s.arbitration.arbitrators arbitrator) (core unauthorized)
  on_arbitration (
      modify (λ a. record a {
        arbitrators = push_back a.arbitrators arbitrator;
        reputations = put a.reputations arbitrator (
            some (record {
              arbitrator = arbitrator;
              total_cases = 0;
              majority_votes = 0;
              minority_votes = 0;
              avg_resolution_time = 0;
              score = pos 100;
              last_active = env.timestamp;
            }));
      }))

abbrev pub is_denier : Option Address → Address → Bool
is_denier none arbitrator = false
is_denier (some a) arbitrator = arbitrator == a

unfoldable pub assign_arbitrator : Env → Address → ℕ → Address → RefundCall Unit
assign_arbitrator env admin case_id arbitrator = do
  stored_admin_only env admin
  c ← case_or_err case_id
  err_if (not (is_open_case c.status)) (core invalid_status)
  r ← refund_or_err c.refund_id
  err_if (is_denier r.rejected_by arbitrator) (core unauthorized)
  s ← gets (λ s. s)
  err_if (not (contains s.arbitration.arbitrators arbitrator)) (core not_arbitrator)
  when (not (contains c.arbitrators arbitrator)) (
      on_arbitration (
        modify (λ a. record a {
          cases =
              put a.cases case_id
                (some (record c { arbitrators = push_back c.arbitrators arbitrator }));
        })))

-- The stake of an escalation, where stakes are enabled.
abbrev pub deposit_stake : Env → Address → ℕ → Option ArbitrationStakeConfig → RefundCall Unit
deposit_stake env caller case_id none = pure tt
deposit_stake env caller case_id (some config) = when config.enabled (do
  err_if (leb_ℤ config.amount (pos 0)) (core invalid_amount)
  on_refund_transfers (transfer env config.token caller env.current_contract config.amount)
  on_arbitration (
      modify (λ a. record a {
        stakes = put a.stakes case_id (
            some (record {
              case_id = case_id;
              staker = caller;
              amount = config.amount;
              deposited_at = env.timestamp;
              returned = false;
            }));
      })))

-- `default_favor_customer` is set in every case.
unfoldable pub escalate_to_arbitration : Env → Address → ℕ → Address → ℤ → RefundCall ℕ
escalate_to_arbitration env caller refund_id fee_token fee_amount = do
  require_auth env caller
  r ← refund_or_err refund_id
  err_if (not (is_denied r.status)) (core invalid_status)
  err_if (leb_ℤ fee_amount (pos 0)) (core invalid_amount)
  s ← gets (λ s. s)
  case_id ← u64 (s.arbitration.counter + 1)
  err_if (ltb (length s.arbitration.arbitrators) 3) (core quorum_not_reached)
  deposit_stake env caller case_id s.arbitration.stake_config
  on_arbitration (modify (λ a. record a { pool_token = put a.pool_token case_id (some fee_token) }))
  on_refund_transfers (transfer env fee_token caller env.current_contract fee_amount)
  deadline ← u64 (env.timestamp + 604800)
  timeout_at ← u64 (env.timestamp + unwrap_or s.arbitration.timeout 1209600)
  set_case (record {
    case_id = case_id;
    refund_id = refund_id;
    arbitrators = s.arbitration.arbitrators;
    votes_for_refund = 0;
    votes_against_refund = 0;
    status = open_case;
    created_at = env.timestamp;
    deadline = deadline;
    fee_pool = fee_amount;
    timeout_at = timeout_at;
    default_favor_customer = true;
  })
  on_arbitration (modify (λ a. record a { counter = case_id }))
  pure case_id

unfoldable pub cast_arbitration_vote : Env → Address → ℕ → Bool → Bytes → RefundCall Unit
cast_arbitration_vote env arbitrator case_id vote_for_refund reasoning_hash = do
  require_auth env arbitrator
  c ← case_or_err case_id
  err_if (not (is_open_case c.status)) (core invalid_status)
  err_if (ltb c.deadline env.timestamp) (core invalid_status)
  err_if (not (contains c.arbitrators arbitrator)) (core not_arbitrator)
  s ← gets (λ s. s)
  err_if (is_some (s.arbitration.votes case_id arbitrator)) (core already_processed)
  r ← unwrap (s.ledger.refunds c.refund_id)
  err_if (arbitrator == r.merchant || (arbitrator == r.customer)) (core unauthorized)
  on_arbitration (
      modify (λ a. record a {
        votes = put_at a.votes case_id arbitrator (
            some (record {
              arbitrator = arbitrator;
              voted_for_refund = vote_for_refund;
              reasoning_hash = reasoning_hash;
              voted_at = env.timestamp;
            }));
        voted =
            if contains (a.voted case_id) arbitrator
            then a.voted
            else put a.voted case_id (push_back (a.voted case_id) arbitrator);
      }))
  votes_for ← u32 (if vote_for_refund then c.votes_for_refund + 1 else c.votes_for_refund)
  votes_against ←
      u32 (if vote_for_refund then c.votes_against_refund else c.votes_against_refund + 1)
  on_arbitration (
      modify (λ a. record a {
        cases = put a.cases case_id (
            some (record c { votes_for_refund = votes_for; votes_against_refund = votes_against }));
      }))

-- The recipient of a stake: the staker if the denial stands, the treasury, if there is one, if not.
abbrev pub stake_recipient : ArbitrationStake → Bool → Option ArbitrationFeeConfig → Address
stake_recipient stake false config = stake.staker
stake_recipient stake true none = stake.staker
stake_recipient stake true (some config) = config.treasury_address

-- A stake that is neither returned nor without a configuration.
abbrev pub with_stake :
    Option ArbitrationStake
    → Option ArbitrationStakeConfig
    → (ArbitrationStake → ArbitrationStakeConfig → RefundCall Unit)
    → RefundCall Unit
with_stake none config f = pure tt
with_stake (some stake) none f = pure tt
with_stake (some stake) (some config) f = when (not stake.returned) (f stake config)

unfoldable pub settle_arbitration_stake : Env → ℕ → Bool → RefundCall Unit
settle_arbitration_stake env case_id was_approved = do
  s ← gets (λ s. s)
  with_stake (s.arbitration.stakes case_id) s.arbitration.stake_config λ stake config. do
    on_refund_transfers (
        transfer env config.token env.current_contract
          (stake_recipient stake was_approved s.arbitration.fee_config) stake.amount)
    on_arbitration (
        modify (λ a. record a {
          stakes = put a.stakes case_id (some (record stake { returned = true }));
        }))

-- What a decision does to the refund: an approval only rewrites its status.
unfoldable pub decide_refund : Env → ℕ → Bool → RefundCall Unit
unfolding move_refund
decide_refund env refund_id was_approved = do
  s ← gets (λ s. s)
  r ← unwrap (s.ledger.refunds refund_id)
  if was_approved
      then on_ledger (
          modify (λ l. record l {
            refunds = put l.refunds refund_id (some (record r { status = approved }));
          }))
      else when (status_code r.status == 4) (
          on_ledger (
            move_refund pending_appeal r.id
              (record r { status = rejected; rejected_at = some env.timestamp })))

-- The voters of the majority, by the votes on record.
abbrev pub majority_of :
    {S : Type 0}
    → (Address → Option ArbitratorVote)
    → Bool
    → List Address
    → Action Error S (List Address)
majority_of votes was_approved [] = pure []
majority_of votes was_approved (voter ∷ voters) = do
  vote ← unwrap (votes voter)
  rest ← majority_of votes was_approved voters
  pure (
      if (if was_approved then vote.voted_for_refund else not vote.voted_for_refund)
      then voter ∷ rest
      else rest)

-- The shares of the arbitrators and of the treasury in the pool of fees.
unfoldable pub shares_of : {S : Type 0} → ℤ → Option ArbitrationFeeConfig → Action Error S (ℤ × ℤ)
unfolding ◌*ℤ◌ ◌/ℤ◌
shares_of fee_pool none = pure (fee_pool, pos 0)
shares_of fee_pool (some config) = do
  a ← i128 (fee_pool *ℤ pos config.arbitrator_share_bps)
  t ← i128 (fee_pool *ℤ pos config.treasury_share_bps)
  pure (a /ℤ 10000, t /ℤ 10000)

abbrev pub pay_each : Env → Address → ℤ → List Address → Action Error (List Transfer) Unit
pay_each env token amount [] = pure tt
pay_each env token amount (a ∷ as') = do
  transfer env token env.current_contract a amount
  pay_each env token amount as'

-- `treasury_address` is given with the configuration.
abbrev pub pay_treasury : Env → Address → ℤ → Option ArbitrationFeeConfig → RefundCall Unit
pay_treasury env token share none = pure tt
pay_treasury env token share (some config) = when (ltb_ℤ (pos 0) share) (do
  on_refund_transfers (transfer env token env.current_contract config.treasury_address share)
  s ← gets (λ s. s)
  total ← i128 (s.arbitration.treasury_fees +ℤ share)
  on_arbitration (modify (λ a. record a { treasury_fees = total })))

-- The distribution of the fees of a case.
unfoldable pub distribute_fees : Env → ℕ → ℤ → Bool → List Address → RefundCall Unit
unfolding shares_of ◌+ℤ◌ ◌/ℤ◌
distribute_fees env case_id fee_pool was_approved voters = do
  s ← gets (λ s. s)
  token ← unwrap (s.arbitration.pool_token case_id)
  shares ← shares_of fee_pool s.arbitration.fee_config
  majority ← majority_of (s.arbitration.votes case_id) was_approved voters
  let per_arbitrator : ℤ = elim majority [ [] ↦ pos 0 | x ∷ xs ↦ shares.0 /ℤ length (x ∷ xs) ]
  on_refund_transfers (pay_each env token per_arbitrator majority)
  pay_treasury env token shares.1 s.arbitration.fee_config
