-- ===== src/Escrow/MultiParty/Votes.antt =====
-- The votes on the dispute over an escrow with several participants.
use facilpay_contracts.Prelude.{
  ℕ, ◌+◌, ◌/◌, ◌≤◌, ◌<◌, ◌≡◌, refl, ◌⊎◌, Bool, true, false, some, List, [], ◌∷◌, arith, length,
  push_back, All, All-push_back, contains, Distinct, without, contains-push_back,
  push_back-Distinct, contains-without, without-Distinct, length-without, put,
}
use facilpay_contracts.Escrow.MultiParty.{is_listed}
use facilpay_contracts.Escrow.MultiParty.Disputes.{
  dispute_multi_party_escrow, vote_on_multi_party_dispute, favored, resolve_multi_party_dispute,
}
use facilpay_contracts.Escrow.Storage.{MultiParties, Storage}
use facilpay_contracts.Escrow.Types.{
  locked, released, disputed, resolved, Participant, MultiPartyEscrow, MultiPartyDispute,
}
use facilpay_contracts.Host.{Address, Env, ok}

-- Every address of the list is a participant.
abbrev pub AllListed : List Participant → List Address → Type 0
AllListed ps = All (λ a. is_listed ps a ≡ true)

-- No address of the list is among `others`.
abbrev pub AllAbsent : List Address → List Address → Type 0
AllAbsent others = All (λ a. contains others a ≡ false)

-- Only participants vote, and nobody votes twice, be it on one side or on both.
pub record Votes-IsValid (ps : List Participant) (d : MultiPartyDispute) : Type 0 where
  pub merchant_distinct : Distinct d.votes_for_merchant
  pub customer_distinct : Distinct d.votes_for_customer
  pub apart : AllAbsent d.votes_for_merchant d.votes_for_customer
  pub merchant_listed : AllListed ps d.votes_for_merchant
  pub customer_listed : AllListed ps d.votes_for_customer

AllAbsent-push_back :
    (others : List Address) (x : Address) (xs : List Address)
    → AllAbsent others xs
    → contains xs x ≡ false
    → AllAbsent (push_back others x) xs
AllAbsent-push_back others x [] h c = tt
AllAbsent-push_back others x (y ∷ ys) h c =
    ground (arith, AllAbsent-push_back others x ys h.1, contains-push_back others x y)

AllAbsent-contains :
    (others xs : List Address) (x : Address)
    → AllAbsent others xs
    → contains xs x ≡ true
    → contains others x ≡ false
AllAbsent-contains others [] x h c = ground arith
AllAbsent-contains others (y ∷ ys) x h c = ground (arith, AllAbsent-contains others ys x h.1)

-- Without one address.
AllListed-without :
    (p : Participant) (ps : List Participant) (xs : List Address)
    → AllListed (p ∷ ps) xs
    → AllListed ps (without xs p.address)
AllListed-without p ps [] h = tt
AllListed-without p ps (x ∷ xs) h = ground (arith, AllListed-without p ps xs h.1)

AllAbsent-without :
    (others xs : List Address) (x : Address)
    → AllAbsent others xs
    → AllAbsent (without others x) (without xs x)
AllAbsent-without others [] x h = tt
AllAbsent-without others (y ∷ ys) x h =
    ground (arith, AllAbsent-without others ys x h.1, contains-without others x y)

-- There are no more votes than participants.
votes_bounded :
    (ps : List Participant) (xs ys : List Address)
    → Distinct xs
    → Distinct ys
    → AllAbsent xs ys
    → AllListed ps xs
    → AllListed ps ys
    → length xs + length ys ≤ length ps
votes_bounded [] [] [] d e f g h = omega arith
votes_bounded [] [] (y ∷ ys) d e f g h = ground arith
votes_bounded [] (x ∷ xs) ys d e f g h = ground arith
votes_bounded (p ∷ ps) xs ys d e f g h = ground (
  arith,
  votes_bounded ps (without xs p.address) (without ys p.address) (without-Distinct xs p.address d)
      (without-Distinct ys p.address e) (AllAbsent-without xs ys p.address f)
      (AllListed-without p ps xs g) (AllListed-without p ps ys h),
  length-without xs p.address d,
  length-without ys p.address e,
  AllAbsent-contains xs ys p.address f,
)

-- The dispute with one more vote.
abbrev pub with_vote : MultiPartyDispute → Address → Bool → MultiPartyDispute
with_vote d voter true = record d { votes_for_merchant = push_back d.votes_for_merchant voter }
with_vote d voter false = record d { votes_for_customer = push_back d.votes_for_customer voter }

-- A vote that succeeds comes from a participant that has voted on neither side; it is added on the
-- side that it favors, and the votes stay valid.
pub vote_on_multi_party_dispute-IsValid :
    (env : Env) (voter : Address) (id : ℕ) (favor_merchant : Bool) (e : MultiPartyEscrow)
    (d : MultiPartyDispute) (m m' : MultiParties)
    → m.deals id ≡ some e
    → m.disputes id ≡ some d
    → Votes-IsValid e.participants d
    → vote_on_multi_party_dispute env voter id favor_merchant m ≡ ok (tt, m')
    → (contains d.votes_for_merchant voter ≡ false)
      × (contains d.votes_for_customer voter ≡ false)
      × (m'.disputes ≡ put m.disputes id (some (with_vote d voter favor_merchant)))
      × Votes-IsValid e.participants (with_vote d voter favor_merchant)
unfolding vote_on_multi_party_dispute
vote_on_multi_party_dispute-IsValid env voter id true e d m m' h k v r =
    let needs : (contains d.votes_for_merchant voter ≡ false)
        × (contains d.votes_for_customer voter ≡ false)
        × (is_listed e.participants voter ≡ true) =
      ground arith in
    (
      needs.0,
      needs.1,
      ground arith,
      record {
        merchant_distinct =
            push_back-Distinct d.votes_for_merchant voter v.merchant_distinct needs.0;
        customer_distinct = v.customer_distinct;
        apart = AllAbsent-push_back d.votes_for_merchant voter d.votes_for_customer v.apart needs.1;
        merchant_listed =
            All-push_back (λ a. is_listed e.participants a ≡ true) d.votes_for_merchant voter
              v.merchant_listed needs.2;
        customer_listed = v.customer_listed;
      },
    )
vote_on_multi_party_dispute-IsValid env voter id false e d m m' h k v r =
    let needs : (contains d.votes_for_merchant voter ≡ false)
        × (contains d.votes_for_customer voter ≡ false)
        × (is_listed e.participants voter ≡ true) =
      ground arith in
    (
      needs.0,
      needs.1,
      ground arith,
      record {
        merchant_distinct = v.merchant_distinct;
        customer_distinct =
            push_back-Distinct d.votes_for_customer voter v.customer_distinct needs.1;
        apart =
            All-push_back (λ a. contains d.votes_for_merchant a ≡ false) d.votes_for_customer voter
              v.apart needs.0;
        merchant_listed = v.merchant_listed;
        customer_listed =
            All-push_back (λ a. is_listed e.participants a ≡ true) d.votes_for_customer voter
              v.customer_listed needs.2;
      },
    )

-- A dispute starts with valid votes, on a locked escrow.
pub dispute_multi_party_escrow-opens :
    (env : Env) (caller : Address) (id : ℕ) (e : MultiPartyEscrow) (m m' : MultiParties)
    → m.deals id ≡ some e
    → dispute_multi_party_escrow env caller id m ≡ ok (tt, m')
    → (e.status ≡ locked)
      × (m'.deals ≡ put m.deals id (some (record e { status = disputed })))
      × ((d : MultiPartyDispute) × (m'.disputes id ≡ some d)
          × Votes-IsValid e.participants d
          × (d.quorum_required ≡ length e.participants / 2 + 1))
unfolding dispute_multi_party_escrow
dispute_multi_party_escrow-opens env caller id e m m' h r = (
  ground arith,
  ground arith,
  (
    record {
      escrow_id = id;
      votes_for_merchant = [];
      votes_for_customer = [];
      quorum_required = length e.participants / 2 + 1;
      resolution_deadline = env.timestamp + 604800;
      resolved = false;
    },
    ground arith,
    record {
      merchant_distinct = tt;
      customer_distinct = tt;
      apart = tt;
      merchant_listed = tt;
      customer_listed = tt;
    },
    refl,
  ),
)

-- The quorum is a majority: with valid votes and a quorum of half the participants and one, the
-- customer's side has no quorum where the merchant's side has one.
pub quorum_majority :
    (ps : List Participant) (d : MultiPartyDispute)
    → Votes-IsValid ps d
    → d.quorum_required ≡ length ps / 2 + 1
    → d.quorum_required ≤ length d.votes_for_merchant
    → length d.votes_for_customer < d.quorum_required
quorum_majority ps d v q r = ground (
  arith,
  votes_bounded ps d.votes_for_merchant d.votes_for_customer v.merchant_distinct v.customer_distinct
      v.apart v.merchant_listed v.customer_listed,
)

-- A resolution needs an open dispute, and a quorum on the side it favors; the customer's side also
-- wins when the deadline is over and the merchant's side has no quorum. The dispute is closed.
pub resolve_multi_party_dispute-needs :
    (env : Env) (id : ℕ) (e : MultiPartyEscrow) (d : MultiPartyDispute) (s t : Storage)
    → s.multi_parties.deals id ≡ some e
    → s.multi_parties.disputes id ≡ some d
    → resolve_multi_party_dispute env id s ≡ ok (tt, t)
    → (d.resolved ≡ false)
      × (t.multi_parties.disputes
          ≡ put s.multi_parties.disputes id (some (record d { resolved = true })))
      × (((d.quorum_required ≤ length d.votes_for_merchant)
            × (t.multi_parties.deals
                ≡ put s.multi_parties.deals id (some (record e { status = released }))))
          ⊎ ((length d.votes_for_merchant < d.quorum_required)
              × ((d.quorum_required ≤ length d.votes_for_customer)
                  ⊎ (d.resolution_deadline < env.timestamp))
              × (t.multi_parties.deals
                  ≡ put s.multi_parties.deals id (some (record e { status = resolved })))))
unfolding resolve_multi_party_dispute favored
resolve_multi_party_dispute-needs env id e d s t h k r = ground arith
