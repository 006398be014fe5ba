-- ===== src/Refund/Arbitration/Decisions.antt =====
-- The decision of a case of contracts/refund/src/lib.rs, by votes or by time, the reputation of the
-- voters, and the second tier of arbitrators.
use facilpay_contracts.Prelude.{
  ℕ, ◌+◌, ◌-◌, ◌*◌, ◌/◌, Bool, true, false, not, some, List, [], ◌∷◌, ltb, leb, ◌==◌, if◌then◌else◌,
  unwrap_or, length, push_back, contains, put,
}
use facilpay_contracts.Host.{
  Address, Env, ok, Action, ◌>>=◌, ◌>>◌, pure, gets, ok_or, unwrap, modify, err_if, when, u32, u64,
  unsigned_sub, i128, saturating_u64,
}
use facilpay_contracts.Prelude.Int.{pos, ◌+ℤ◌, ◌-ℤ◌}
use facilpay_contracts.Refund.Arbitration.{
  case_or_err, settle_arbitration_stake, decide_refund, distribute_fees,
}
use facilpay_contracts.Refund.Errors.{
  invalid_status, quorum_not_reached, case_not_timed_out, arbitrator_not_found,
  case_already_escalated, Error, core, ext,
}
use facilpay_contracts.Refund.Storage.{
  Arbitration, RefundCall, on_ledger, on_arbitration, stored_admin_only,
}
use facilpay_contracts.Refund.Types.{
  approved, decided, is_open_case, ArbitratorVote, ArbitratorReputation, ArbitrationTierConfig,
}

-- The record of a voter of whom none is kept.
abbrev pub fresh_reputation : Address → ℕ → ArbitratorReputation
fresh_reputation voter now = record {
  arbitrator = voter;
  total_cases = 0;
  majority_votes = 0;
  minority_votes = 0;
  avg_resolution_time = 0;
  score = pos 100;
  last_active = now;
}

-- The average with one more case of some duration.
abbrev pub next_average : {S : Type 0} → ℕ → ℕ → ℕ → Action Error S ℕ
next_average average total duration s = elim (total == 1) [
  | true ↦ ok (duration, s)
  | false ↦
      (do
        total_time ← u64 (average * (total - 1))
        sum ← u64 (total_time + duration)
        pure (sum / total))
        s
]

abbrev pub in_majority : Bool → ArbitratorVote → Bool
in_majority was_approved vote =
    if was_approved then vote.voted_for_refund else not vote.voted_for_refund

-- The reputation of a voter after a case.
unfoldable pub rate_voter : Env → ℕ → ℕ → Bool → Address → Action Error Arbitration Unit
unfolding ◌+ℤ◌ ◌-ℤ◌
rate_voter env case_id duration was_approved voter = do
  a ← gets (λ a. a)
  vote ← unwrap (a.votes case_id voter)
  let r = unwrap_or (a.reputations voter) (fresh_reputation voter env.timestamp)
  total ← u64 (r.total_cases + 1)
  let won = in_majority was_approved vote
  majority ← u64 (if won then r.majority_votes + 1 else r.majority_votes)
  minority ← u64 (if won then r.minority_votes else r.minority_votes + 1)
  score ← i128 (if won then r.score +ℤ pos 10 else r.score -ℤ pos 5)
  average ← next_average r.avg_resolution_time total duration
  modify (λ a. record a {
    reputations = put a.reputations voter (
        some (record r {
          total_cases = total;
          majority_votes = majority;
          minority_votes = minority;
          score = score;
          avg_resolution_time = average;
          last_active = env.timestamp;
        }));
  })

abbrev pub rate_voters : Env → ℕ → ℕ → Bool → List Address → Action Error Arbitration Unit
rate_voters env case_id duration was_approved [] = pure tt
rate_voters env case_id duration was_approved (voter ∷ voters) = do
  rate_voter env case_id duration was_approved voter
  rate_voters env case_id duration was_approved voters

-- The quorum is three votes.
unfoldable pub close_arbitration_case : Env → ℕ → RefundCall Unit
unfolding decide_refund distribute_fees settle_arbitration_stake rate_voter
close_arbitration_case env case_id = do
  c ← case_or_err case_id
  err_if (not (is_open_case c.status)) (core invalid_status)
  total_votes ← u32 (c.votes_for_refund + c.votes_against_refund)
  err_if (ltb total_votes 3) (core invalid_status)
  let was_approved = ltb c.votes_against_refund c.votes_for_refund
  on_arbitration (
      modify (λ a. record a { cases = put a.cases case_id (some (record c { status = decided })) }))
  decide_refund env c.refund_id was_approved
  s ← gets (λ s. s)
  let voters = s.arbitration.voted case_id
  distribute_fees env case_id c.fee_pool was_approved voters
  settle_arbitration_stake env case_id was_approved
  duration ← unsigned_sub env.timestamp c.created_at
  on_arbitration (rate_voters env case_id duration was_approved voters)

-- The part of the decision by time under `if approved`.
abbrev pub approve_by_time : ℕ → RefundCall Unit
approve_by_time refund_id = do
  s ← gets (λ s. s)
  r ← unwrap (s.ledger.refunds refund_id)
  on_ledger (
      modify (λ l. record l {
        refunds = put l.refunds refund_id (some (record r { status = approved }));
      }))

unfoldable pub trigger_arbitration_timeout : Env → ℕ → RefundCall Unit
unfolding settle_arbitration_stake
trigger_arbitration_timeout env case_id = do
  c ← case_or_err case_id
  err_if (not (is_open_case c.status)) (core invalid_status)
  total_votes ← u32 (c.votes_for_refund + c.votes_against_refund)
  err_if (leb 3 total_votes) (core quorum_not_reached)
  err_if (ltb env.timestamp c.timeout_at) (core case_not_timed_out)
  on_arbitration (
      modify (λ a. record a { cases = put a.cases case_id (some (record c { status = decided })) }))
  when c.default_favor_customer (approve_by_time c.refund_id)
  settle_arbitration_stake env case_id c.default_favor_customer

unfoldable pub set_arbitration_timeout : Env → Address → ℕ → RefundCall Unit
set_arbitration_timeout env admin timeout_seconds = do
  stored_admin_only env admin
  on_arbitration (modify (λ a. record a { timeout = some timeout_seconds }))

unfoldable pub add_senior_arbitrator : Env → Address → Address → RefundCall Unit
add_senior_arbitrator env admin arbitrator = do
  stored_admin_only env admin
  on_arbitration (
      modify (λ a.
        if contains a.senior arbitrator
        then a
        else record a { senior = push_back a.senior arbitrator }))

unfoldable pub set_arbitration_tier_config : Env → Address → ArbitrationTierConfig → RefundCall Unit
set_arbitration_tier_config env admin config = do
  stored_admin_only env admin
  on_arbitration (modify (λ a. record a { tier_config = some config }))

unfoldable pub escalate_arbitration_case : Env → ℕ → RefundCall Unit
escalate_arbitration_case env case_id = do
  s ← gets (λ s. s)
  err_if (s.arbitration.escalated case_id) (ext case_already_escalated)
  c ← case_or_err case_id
  err_if (not (is_open_case c.status)) (core invalid_status)
  config ← ok_or s.arbitration.tier_config (core case_not_timed_out)
  err_if (ltb env.timestamp (saturating_u64 (c.created_at + config.escalation_timeout_seconds)))
      (core case_not_timed_out)
  err_if (length s.arbitration.senior == 0) (ext arbitrator_not_found)
  on_arbitration (
      modify (λ a. record a {
        cases = put a.cases case_id (
            some (record c {
              arbitrators = a.senior;
              votes_for_refund = 0;
              votes_against_refund = 0;
            }));
        escalated = put a.escalated case_id true;
      }))
