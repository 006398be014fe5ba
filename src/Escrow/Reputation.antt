-- ===== src/Escrow/Reputation.antt =====
-- Reputation of contracts/escrow/src/lib.rs: the rewards of a completed escrow, the outcome of a
-- dispute, and the tenure bonus.
pub mod Bounds
use facilpay_contracts.Prelude.{
  ℕ, ◌+◌, ◌-◌, ◌*◌, ◌/◌, min, Bool, true, not, ◌&&◌, Option, some, ◌==◌, if◌then◌else◌, unwrap_or,
  is_some, put, put_at,
}
use facilpay_contracts.Escrow.Errors.{not_found, already_processed, Error, escrow}
use facilpay_contracts.Escrow.Storage.{Reputations}
use facilpay_contracts.Escrow.Types.{
  disputed, status_eq, Escrow, ReputationScore, ReputationConfig, TenureReputationConfig,
}
use facilpay_contracts.Host.{
  Address, Env, ok, err, trap, Action, ◌>>=◌, ◌>>◌, gets, ok_or, unwrap, modify, err_if, when, i64,
  saturating_u64, saturating_u32,
}
use facilpay_contracts.Prelude.Int.{pos, ◌+ℤ◌, ◌-ℤ◌, ltb_ℤ, min_ℤ, max_ℤ}

abbrev pub default_reputation : Address → ReputationScore
default_reputation address = record {
  address = address;
  total_transactions = 0;
  disputes_initiated = 0;
  disputes_won = 0;
  disputes_lost = 0;
  score = pos 5000;
  last_updated = 0;
  decay_rate = pos 0;
}

abbrev pub default_config : ReputationConfig
default_config = record {
  win_reward = pos 200;
  loss_penalty = pos 200;
  completion_reward = pos 100;
  dispute_initiation_penalty = pos 50;
}

-- `get_or_default_reputation`
abbrev pub reputation_of : Reputations → Address → ReputationScore
reputation_of r address = unwrap_or (r.scores address) (default_reputation address)

-- `get_or_default_reputation_config`
abbrev pub config_of : Reputations → ReputationConfig
config_of r = unwrap_or r.config default_config

abbrev set_score : Address → ReputationScore → Action Error Reputations Unit
set_score address rep = modify (λ r. record r { scores = put r.scores address (some rep) })

unfoldable pub update_reputation_on_completion : Env → Address → Action Error Reputations Unit
unfolding ◌+ℤ◌
update_reputation_on_completion env address = do
  r ← gets (λ r. r)
  let rep = reputation_of r address
  score ← i64 (rep.score +ℤ (config_of r).completion_reward)
  set_score address (record rep {
    score = min_ℤ score (pos 10000);
    total_transactions = saturating_u32 (rep.total_transactions + 1);
    last_updated = env.timestamp;
  })

-- The winner's part of `update_reputation_on_dispute_outcome`, and the loser's.
unfoldable pub record_win : Env → Address → Action Error Reputations Unit
unfolding ◌+ℤ◌
record_win env winner = do
  r ← gets (λ r. r)
  let won = reputation_of r winner
  score ← i64 (won.score +ℤ (config_of r).win_reward)
  set_score winner (record won {
    score = min_ℤ score (pos 10000);
    disputes_won = saturating_u32 (won.disputes_won + 1);
    last_updated = env.timestamp;
  })

unfoldable pub record_loss : Env → Address → Action Error Reputations Unit
unfolding ◌-ℤ◌
record_loss env loser = do
  r ← gets (λ r. r)
  let lost = reputation_of r loser
  score ← i64 (lost.score -ℤ (config_of r).loss_penalty)
  set_score loser (record lost {
    score = max_ℤ score (pos 0);
    disputes_lost = saturating_u32 (lost.disputes_lost + 1);
    last_updated = env.timestamp;
  })

unfoldable pub update_reputation_on_dispute_outcome :
    Env → Address → Address → Action Error Reputations Unit
unfolding record_win record_loss
update_reputation_on_dispute_outcome env winner loser = do
  record_win env winner
  record_loss env loser

-- `is_tenure_eligible`
abbrev pub is_tenure_eligible : Escrow → Bool
is_tenure_eligible e = not (status_eq e.status disputed) && e.dispute_started_at == 0

-- `calculate_tenure_bonus`, on the configuration and the escrow that it reads
unfoldable pub calculate_tenure_bonus : Env → TenureReputationConfig → Escrow → ℕ
calculate_tenure_bonus env config e =
    if not (is_tenure_eligible e)
    then 0
    else let days_active = (env.timestamp - e.created_at) / 86400 in
      let earned = saturating_u64 (days_active * config.weight_per_day) in
      let cap = saturating_u64 (config.max_bonus_days * config.weight_per_day) in
      min (min earned cap) 4294967295

-- `apply_tenure_bonus`; the slot of the escrow is an argument.
unfoldable pub apply_tenure_bonus :
    Env → ℕ → Option Escrow → Address → Action Error Reputations Unit
unfolding calculate_tenure_bonus ◌+ℤ◌
apply_tenure_bonus env escrow_id slot participant = do
  r ← gets (λ r. r)
  config ← ok_or r.tenure_config (escrow not_found)
  err_if (r.tenure_applied escrow_id participant) (escrow already_processed)
  modify (λ r. record r { tenure_applied = put_at r.tenure_applied escrow_id participant true })
  e ← unwrap slot
  let bonus = calculate_tenure_bonus env config e
  increase ← i64 (if is_tenure_eligible e then pos config.base_score +ℤ pos bonus else pos 0)
  when (ltb_ℤ (pos 0) increase) do
    r' ← gets (λ r. r)
    let rep = reputation_of r' participant
    score ← i64 (rep.score +ℤ increase)
    set_score participant
        (record rep { score = min_ℤ score (pos 10000); last_updated = env.timestamp })

-- `let _ = …`: an error is dropped. (The two that occur come before any write.)
abbrev attempt : {S : Type 0} → Action Error S Unit → Action Error S Unit
attempt m s = elim (m s) [ ok r ↦ ok r | err e ↦ ok (tt, s) | trap ↦ trap ]

-- The reputation part of a release.
unfoldable pub reward_completion : Env → ℕ → Escrow → Action Error Reputations Unit
unfolding update_reputation_on_completion apply_tenure_bonus
reward_completion env escrow_id e = do
  update_reputation_on_completion env e.merchant
  update_reputation_on_completion env e.customer
  r ← gets (λ r. r)
  when (is_some r.tenure_config) do
    attempt (apply_tenure_bonus env escrow_id (some e) e.merchant)
    attempt (apply_tenure_bonus env escrow_id (some e) e.customer)
