-- ===== src/Escrow/Reputation/Bounds.antt =====
-- Scores stay between 0 and 10000.
use facilpay_contracts.Prelude.{◌≡◌, sym, subst, arith}
use facilpay_contracts.Escrow.Reputation.{
  reputation_of, config_of, update_reputation_on_completion, record_win, record_loss,
  update_reputation_on_dispute_outcome,
}
use facilpay_contracts.Escrow.Storage.{Reputations}
use facilpay_contracts.Host.{Address, Env, ok, >>=-eq-ok}
use facilpay_contracts.Prelude.Int.{ℤ, pos, ◌≤ℤ◌, int_laws}

abbrev pub InRange : ℤ → Type 0
InRange z = (pos 0 ≤ℤ z) × (z ≤ℤ pos 10000)

-- Every stored score lies between 0 and 10000.
abbrev pub Scores-IsValid : Reputations → Type 0
Scores-IsValid r = (a : Address) → InRange (reputation_of r a).score

-- A completed escrow keeps every score between 0 and 10000, where its reward is not negative.
pub update_reputation_on_completion-bounds :
    (env : Env) (address : Address) (r r' : Reputations)
    → pos 0 ≤ℤ (config_of r).completion_reward
    → Scores-IsValid r
    → update_reputation_on_completion env address r ≡ ok (tt, r')
    → Scores-IsValid r'
unfolding update_reputation_on_completion
update_reputation_on_completion-bounds env address r r' p v e a = grind (int_laws, v a, v address)

record_win-bounds :
    (env : Env) (winner : Address) (r r' : Reputations)
    → pos 0 ≤ℤ (config_of r).win_reward
    → Scores-IsValid r
    → record_win env winner r ≡ ok (tt, r')
    → Scores-IsValid r' × (config_of r' ≡ config_of r)
unfolding record_win
record_win-bounds env winner r r' p v e = (λ a. grind (int_laws, v a, v winner), ground arith)

record_loss-bounds :
    (env : Env) (loser : Address) (r r' : Reputations)
    → pos 0 ≤ℤ (config_of r).loss_penalty
    → Scores-IsValid r
    → record_loss env loser r ≡ ok (tt, r')
    → Scores-IsValid r'
unfolding record_loss
record_loss-bounds env loser r r' p v e a = grind (int_laws, v a, v loser)

-- The outcome of a dispute keeps every score between 0 and 10000, where reward and penalty are not
-- negative.
pub update_reputation_on_dispute_outcome-bounds :
    (env : Env) (winner loser : Address) (r r' : Reputations)
    → pos 0 ≤ℤ (config_of r).win_reward
    → pos 0 ≤ℤ (config_of r).loss_penalty
    → Scores-IsValid r
    → update_reputation_on_dispute_outcome env winner loser r ≡ ok (tt, r')
    → Scores-IsValid r'
unfolding update_reputation_on_dispute_outcome
update_reputation_on_dispute_outcome-bounds env winner loser r r' p q v e =
    let (x, u, win, loss) = >>=-eq-ok (record_win env winner) (λ _. record_loss env loser) r e in
    let (w, same) = record_win-bounds env winner r u p v win in
    record_loss-bounds env loser u r' (subst (λ c. pos 0 ≤ℤ c.loss_penalty) (sym same) q) w loss
