-- ===== src/Escrow/Examples/Parties.antt =====
-- Escrows with several participants, and sub-accounts.
use facilpay_contracts.Prelude.{
  ◌+◌, ◌≤◌, ◌≡◌, refl, true, false, none, some, List, [], ◌∷◌, ◌==◌, if◌then◌else◌, unwrap_or, put,
}
use facilpay_contracts.Escrow.Examples.{now, start}
use facilpay_contracts.Escrow.MultiParty.{
  sum_u32, normalized, create_multi_party_escrow, approve_release, sum_approved_weight, pay_shares,
  release_multi_party_escrow,
}
use facilpay_contracts.Escrow.MultiParty.Creation.{
  Deal-IsValid, new_deal, AllWeights, create_multi_party_escrow-IsValid,
}
use facilpay_contracts.Escrow.MultiParty.Shares.{approved_weight, release_multi_party_escrow-pays}
use facilpay_contracts.Escrow.Storage.{MultiParties, Storage}
use facilpay_contracts.Escrow.Types.{
  locked, released, ParticipantRole, Participant, MultiPartyEscrow,
}
use facilpay_contracts.Host.{moved, after}
use facilpay_contracts.Prelude.Int.{pos, ◌+ℤ◌, ◌-ℤ◌, ◌*ℤ◌, ◌/ℤ◌}

abbrev pub first_party : Participant
first_party = record {
  address = 10;
  role = ParticipantRole.customer;
  share_bps = 6000;
  weight_bps = 3000;
  approved = false;
  approved_at = none;
}

abbrev pub second_party : Participant
second_party = record {
  address = 20;
  role = ParticipantRole.merchant;
  share_bps = 4000;
  weight_bps = 7000;
  approved = false;
  approved_at = none;
}

abbrev pub both_parties : List Participant
both_parties = first_party ∷ second_party ∷ []

abbrev pub shared_deal : MultiPartyEscrow
shared_deal = record {
  id = 1;
  participants = both_parties;
  total_amount = pos 1000;
  token = 50;
  status = locked;
  approvals = [];
  threshold_bps = 10000;
  created_at = 1000;
  release_timestamp = 2000;
}

-- The storage of the deal, with the weights of its participants.
abbrev pub dealing : MultiPartyEscrow → MultiParties
dealing e = record {
  deals = put (λ _. none) 1 (some e);
  counter = 1;
  vote_weights = λ _ a. if a == 10 then some 6000 else some 4000;
  thresholds_bps = put (λ _. none) 1 (some 10000);
  disputes = λ _. none;
}

abbrev approved_by_both : MultiPartyEscrow
approved_by_both = record shared_deal {
  participants =
      record first_party { approved = true } ∷ record second_party { approved = true } ∷ [];
  approvals = 10 ∷ 20 ∷ [];
}

abbrev approved_start : Storage
approved_start = record start { multi_parties = dealing approved_by_both }

abbrev released_deal : Storage
released_deal = after (approved_start) (release_multi_party_escrow now 1 (approved_start))

release_multi_party_escrow-pays_example :
    (approved_by_both.status ≡ locked)
    × (released_deal.multi_parties.deals
        ≡ put approved_start.multi_parties.deals 1
            (some (record approved_by_both { status = released })))
    × (unwrap_or (approved_start.multi_parties.thresholds_bps 1) approved_by_both.threshold_bps
        ≤ approved_weight
            (approved_start.multi_parties.vote_weights 1)
            approved_by_both.participants)
    × (approved_by_both.release_timestamp ≤ now.timestamp)
    × (moved released_deal.transfers ≤ moved approved_start.transfers + 1000)
unfolding release_multi_party_escrow sum_approved_weight pay_shares ◌+ℤ◌ ◌-ℤ◌ ◌*ℤ◌ ◌/ℤ◌
release_multi_party_escrow-pays_example =
    release_multi_party_escrow-pays now 1 1000 approved_by_both approved_start released_deal refl
      refl refl refl

abbrev approved_once : MultiParties
approved_once = after (dealing shared_deal) (approve_release now 10 1 (dealing shared_deal))

abbrev created_deal : Storage
created_deal =
    after (start) (create_multi_party_escrow now 10 both_parties (pos 1000) 50 2000 (start))

create_multi_party_escrow-IsValid_example :
    (1 ≡ start.multi_parties.counter + 1)
    × (created_deal.multi_parties.deals 1 ≡ some (new_deal now 1 both_parties (pos 1000) 50 2000))
    × Deal-IsValid (new_deal now 1 both_parties (pos 1000) 50 2000)
    × AllWeights (created_deal.multi_parties.vote_weights 1) (normalized both_parties)
    × (created_deal.transfers
        ≡ record { token = 50; from = 10; to = now.current_contract; amount = (pos 1000) }
          ∷ start.transfers)
unfolding create_multi_party_escrow sum_u32
create_multi_party_escrow-IsValid_example =
    create_multi_party_escrow-IsValid now 10 both_parties (pos 1000) 50 2000 1 start created_deal
      refl
