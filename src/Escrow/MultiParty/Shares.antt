-- ===== src/Escrow/MultiParty/Shares.antt =====
-- What the participants of an escrow are paid.
use facilpay_contracts.Prelude.{
  ℕ, ◌+◌, ◌*◌, ◌/◌, ◌≤◌, ◌≡◌, Bool, Option, some, List, [], ◌∷◌, arith, ltb, if◌then◌else◌,
  unwrap_or, put,
}
use facilpay_contracts.Escrow.Errors.{Error}
use facilpay_contracts.Escrow.MultiParty.{
  weight_of, sum_approved_weight, pay_shares, release_multi_party_escrow,
}
use facilpay_contracts.Escrow.MultiParty.Disputes.{pay_resolution}
use facilpay_contracts.Escrow.Storage.{Storage}
use facilpay_contracts.Escrow.Types.{locked, released, Participant, MultiPartyEscrow}
use facilpay_contracts.Host.{
  transfer, moved, Address, Transfer, Env, ok, Action, ◌>>=◌, when, >>=-eq-ok, i128,
}
use facilpay_contracts.Prelude.Int.{ℤ, pos, ◌*ℤ◌, ◌/ℤ◌, ltb_ℤ}
use native.Mathlib.Nat.{mul-add}

abbrev pub sum_of : (Participant → ℕ) → List Participant → ℕ
sum_of f [] = 0
sum_of f (p ∷ ps) = f p + sum_of f ps

-- The sum of the shares.
abbrev pub shares : List Participant → ℕ
shares ps = sum_of (λ p. p.share_bps) ps

share_of : (n share : ℕ) → (pos n *ℤ pos share) /ℤ 10000 ≡ pos (n * share / 10000)
unfolding ◌*ℤ◌ ◌/ℤ◌
share_of n share = ground arith

-- One payment.
abbrev pub pay_share : Env → Address → ℤ → Participant → Action Error (List Transfer) Unit
pay_share env token total_amount p = when (ltb 0 p.share_bps) (
    i128 (total_amount *ℤ pos p.share_bps) >>= λ product.
    when (ltb_ℤ (pos 0) (product /ℤ 10000))
      (transfer env token env.current_contract p.address (product /ℤ 10000)))

pay_share-moves :
    (env : Env) (token : Address) (n : ℕ) (p : Participant) (log log' : List Transfer)
    → pay_share env token (pos n) p log ≡ ok (tt, log')
    → 10000 * moved log' ≤ 10000 * moved log + n * p.share_bps
pay_share-moves env token n p log log' r = ground (arith, share_of n p.share_bps)

-- All of them.
pay_shares-moves :
    (env : Env) (token : Address) (n : ℕ) (ps : List Participant) (log log' : List Transfer)
    → pay_shares env token (pos n) ps log ≡ ok (tt, log')
    → 10000 * moved log' ≤ 10000 * moved log + n * shares ps
unfolding pay_shares
pay_shares-moves env token n [] log log' r = ground arith
pay_shares-moves env token n (p ∷ ps) log log' r =
    let (x, u, first, rest) = >>=-eq-ok (pay_share env token (pos n) p) _ log r in
    omega (
      arith,
      pay_share-moves env token n p log u first,
      pay_shares-moves env token n ps u log' rest,
      mul-add n p.share_bps (shares ps),
    )

-- The weights of a participant that has approved, added up.
abbrev pub approved_weight : (Address → Option ℕ) → List Participant → ℕ
approved_weight slots [] = 0
approved_weight slots (p ∷ ps) =
    (if p.approved then weight_of slots p else 0) + approved_weight slots ps

sum_approved_weight-sums :
    {S : Type 0} (slots : Address → Option ℕ) (acc : ℕ) (ps : List Participant) (s t : S) (r : ℕ)
    → sum_approved_weight slots acc ps s ≡ ok (r, t)
    → (t ≡ s) × (r ≡ acc + approved_weight slots ps)
unfolding sum_approved_weight
sum_approved_weight-sums slots acc [] s t r e = ground arith
sum_approved_weight-sums slots acc (p ∷ ps) s t r e =
    let here = acc + (if p.approved then weight_of slots p else 0) in
    ground (arith, sum_approved_weight-sums slots here ps s t r)

-- A release of an escrow with several participants that succeeds, where the shares add up to 10000
-- and the amount is not negative: the escrow was locked and is released, the weights of those who
-- approved reach its threshold, its time has come, and no more than its amount is paid out.
pub release_multi_party_escrow-pays :
    (env : Env) (id n : ℕ) (e : MultiPartyEscrow) (s t : Storage)
    → s.multi_parties.deals id ≡ some e
    → e.total_amount ≡ pos n
    → shares e.participants ≡ 10000
    → release_multi_party_escrow env id s ≡ ok (tt, t)
    → (e.status ≡ locked)
      × (t.multi_parties.deals
          ≡ put s.multi_parties.deals id (some (record e { status = released })))
      × (unwrap_or (s.multi_parties.thresholds_bps id) e.threshold_bps
          ≤ approved_weight (s.multi_parties.vote_weights id) e.participants)
      × (e.release_timestamp ≤ env.timestamp)
      × (moved t.transfers ≤ moved s.transfers + n)
unfolding release_multi_party_escrow
release_multi_party_escrow-pays env id n e s t h a b r = grind (
  arith,
  sum_approved_weight-sums {S = Storage} (s.multi_parties.vote_weights id) 0 e.participants s,
  pay_shares-moves env e.token n e.participants s.transfers,
)

-- A resolution of the dispute over such an escrow pays out no more than its amount either.
pub pay_resolution-moves :
    (env : Env) (n : ℕ) (e : MultiPartyEscrow) (favor_merchant : Bool) (log log' : List Transfer)
    → e.total_amount ≡ pos n
    → shares e.participants ≡ 10000
    → pay_resolution env e favor_merchant log ≡ ok (tt, log')
    → moved log' ≤ moved log + n
unfolding pay_resolution
pay_resolution-moves env n e favor_merchant log log' a b r =
    grind (arith, pay_shares-moves env e.token n e.participants log log')
