-- ===== src/Escrow/MultiParty/Creation.antt =====
-- What holds of an escrow with several participants from its creation on.
use facilpay_contracts.Prelude.{
  ℕ, ◌+◌, ◌≡◌, refl, sym, subst, false, Option, some, List, [], ◌∷◌, arith, All, Distinct, put,
  put_at,
}
use facilpay_contracts.Escrow.MultiParty.{
  is_listed, has_duplicate, sum_u32, normalized, set_vote_weights, create_multi_party_escrow,
}
use facilpay_contracts.Escrow.MultiParty.Shares.{sum_of, shares}
use facilpay_contracts.Escrow.Storage.{Storage}
use facilpay_contracts.Escrow.Types.{locked, Participant, MultiPartyEscrow}
use facilpay_contracts.Host.{Address, Env, ok}
use facilpay_contracts.Prelude.Int.{ℤ}

-- The shares add up to 10000, nobody is listed twice and nobody approves twice.
pub record Deal-IsValid (e : MultiPartyEscrow) : Type 0 where
  pub all_shared : shares e.participants ≡ 10000
  pub no_duplicate : has_duplicate e.participants ≡ false
  pub approvals_distinct : Distinct e.approvals

sum_u32-sums :
    {S : Type 0} (f : Participant → ℕ) (acc : ℕ) (ps : List Participant) (s t : S) (r : ℕ)
    → sum_u32 f acc ps s ≡ ok (r, t)
    → (t ≡ s) × (r ≡ acc + sum_of f ps)
unfolding sum_u32
sum_u32-sums f acc [] s t r e = ground arith
sum_u32-sums f acc (p ∷ ps) s t r e = ground (arith, sum_u32-sums f (acc + f p) ps s t r)

is_listed-normalized :
    (ps : List Participant) (a : Address) → is_listed (normalized ps) a ≡ is_listed ps a
is_listed-normalized [] a = refl
is_listed-normalized (p ∷ ps) a = ground (arith, is_listed-normalized ps a)

has_duplicate-normalized :
    (ps : List Participant) → has_duplicate (normalized ps) ≡ has_duplicate ps
has_duplicate-normalized [] = refl
has_duplicate-normalized (p ∷ ps) =
    ground (arith, has_duplicate-normalized ps, is_listed-normalized ps p.address)

sum_of-normalized : (ps : List Participant) → shares (normalized ps) ≡ shares ps
sum_of-normalized [] = refl
sum_of-normalized (p ∷ ps) = ground (arith, sum_of-normalized ps)

-- The escrow that `create_multi_party_escrow` stores.
abbrev pub new_deal : Env → ℕ → List Participant → ℤ → Address → ℕ → MultiPartyEscrow
new_deal env id participants total_amount token release_timestamp = record {
  id = id;
  participants = normalized participants;
  total_amount = total_amount;
  token = token;
  status = locked;
  approvals = [];
  threshold_bps = 10000;
  created_at = env.timestamp;
  release_timestamp = release_timestamp;
}

create_multi_party_escrow-writes :
    (env : Env) (customer : Address) (ps : List Participant) (amount : ℤ) (token : Address)
    (release_timestamp id : ℕ) (s t : Storage)
    → create_multi_party_escrow env customer ps amount token release_timestamp s ≡ ok (id, t)
    → (id ≡ s.multi_parties.counter + 1)
      × (t.multi_parties ≡ record (s.multi_parties) {
        deals =
            put s.multi_parties.deals id (some (new_deal env id ps amount token release_timestamp));
        counter = id;
        vote_weights = set_vote_weights id (normalized ps) s.multi_parties.vote_weights;
        thresholds_bps = put s.multi_parties.thresholds_bps id (some 10000);
      })
      × (t.transfers
          ≡ record { token = token; from = customer; to = env.current_contract; amount = amount }
            ∷ s.transfers)
      × (has_duplicate ps ≡ false)
      × (shares ps ≡ 10000)
      × (sum_of (λ p. p.weight_bps) ps ≡ 10000)
unfolding create_multi_party_escrow
create_multi_party_escrow-writes env customer ps amount token release_timestamp id s t r = grind (
  arith,
  sum_u32-sums {S = Storage} (λ p. p.share_bps) 0 ps s,
  sum_u32-sums {S = Storage} (λ p. p.weight_bps) 0 ps s,
)

-- The slots after the loop: the share of a participant is its vote weight.
set_vote_weights-other :
    (id : ℕ) (ps : List Participant) (slots : ℕ → Address → Option ℕ) (a : Address)
    → is_listed ps a ≡ false
    → set_vote_weights id ps slots id a ≡ slots id a
set_vote_weights-other id [] slots a h = refl
set_vote_weights-other id (p ∷ ps) slots a h =
    ground (arith, set_vote_weights-other id ps (put_at slots id p.address (some p.share_bps)) a)

abbrev pub AllWeights : (Address → Option ℕ) → List Participant → Type 0
AllWeights slots = All (λ p. slots p.address ≡ some p.share_bps)

set_vote_weights-sets :
    (id : ℕ) (ps : List Participant) (slots : ℕ → Address → Option ℕ)
    → has_duplicate ps ≡ false
    → AllWeights (set_vote_weights id ps slots id) ps
set_vote_weights-sets id [] slots h = tt
set_vote_weights-sets id (p ∷ ps) slots h = (
  ground (
    arith,
    set_vote_weights-other id ps (put_at slots id p.address (some p.share_bps)) p.address,
  ),
  set_vote_weights-sets id ps (put_at slots id p.address (some p.share_bps)) (ground arith),
)

-- A creation that succeeds stores a valid escrow under the next number, takes its amount from the
-- customer, and gives each participant its share, and not its `weight_bps`, as the weight of its
-- approval.
pub create_multi_party_escrow-IsValid :
    (env : Env) (customer : Address) (ps : List Participant) (amount : ℤ) (token : Address)
    (release_timestamp id : ℕ) (s t : Storage)
    → create_multi_party_escrow env customer ps amount token release_timestamp s ≡ ok (id, t)
    → (id ≡ s.multi_parties.counter + 1)
      × (t.multi_parties.deals id ≡ some (new_deal env id ps amount token release_timestamp))
      × Deal-IsValid (new_deal env id ps amount token release_timestamp)
      × AllWeights (t.multi_parties.vote_weights id) (normalized ps)
      × (t.transfers
          ≡ record { token = token; from = customer; to = env.current_contract; amount = amount }
            ∷ s.transfers)
create_multi_party_escrow-IsValid env customer ps amount token release_timestamp id s t r =
    let w =
      create_multi_party_escrow-writes env customer ps amount token release_timestamp id s t r in
    let fresh : has_duplicate (normalized ps) ≡ false =
      ground (arith, w, has_duplicate-normalized ps) in
    (
      ground (arith, w),
      ground (arith, w),
      record {
        all_shared = ground (arith, w, sum_of-normalized ps);
        no_duplicate = fresh;
        approvals_distinct = tt;
      },
      subst (λ x. AllWeights (x.vote_weights id) (normalized ps)) (sym w.1)
          (set_vote_weights-sets id (normalized ps) s.multi_parties.vote_weights fresh),
      ground (arith, w),
    )
