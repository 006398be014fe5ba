-- ===== src/Escrow/MultiParty/Approval.antt =====
-- What an approval of the release of an escrow with several participants changes.
use facilpay_contracts.Prelude.{
  ℕ, ◌<◌, ◌≡◌, true, false, Option, some, List, [], ◌∷◌, ◌==◌, if◌then◌else◌, push_back, All,
}
use facilpay_contracts.Escrow.MultiParty.{weight_of}
use facilpay_contracts.Escrow.Types.{Participant, MultiPartyEscrow}
use facilpay_contracts.Host.{Address}

-- The participants with the caller marked.
abbrev pub marked : (Address → Option ℕ) → ℕ → Address → List Participant → List Participant
marked slots now caller [] = []
marked slots now caller (p ∷ ps) =
    (if p.address == caller
      then record p { weight_bps = weight_of slots p; approved = true; approved_at = some now }
      else p)
    ∷ marked slots now caller ps

-- The weight that the approval of `a` has.
abbrev pub weight_in : (Address → Option ℕ) → List Participant → Address → ℕ
weight_in slots [] a = 0
weight_in slots (p ∷ ps) a = if p.address == a then weight_of slots p else weight_in slots ps a

-- The entry of the caller, if there is one, has a positive weight and is not approved yet.
abbrev pub MayApprove : (Address → Option ℕ) → Address → List Participant → Type 0
MayApprove slots caller =
    All (λ p. p.address ≡ caller → (0 < weight_of slots p) × (p.approved ≡ false))

-- The escrow after an approval.
abbrev pub approved_deal : (Address → Option ℕ) → ℕ → Address → MultiPartyEscrow → MultiPartyEscrow
approved_deal slots now caller e = record e {
  participants = marked slots now caller e.participants;
  approvals = push_back e.approvals caller;
}
