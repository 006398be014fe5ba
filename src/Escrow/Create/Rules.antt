-- ===== src/Escrow/Create/Rules.antt =====
-- What a creation stores.
use facilpay_contracts.Prelude.{ℕ, ◌+◌, ◌<◌, ◌≡◌, ◌⊎◌, Option, none, some, arith, put}
use facilpay_contracts.Escrow.Create.{
  with_multisig, Request, new_escrow, enter, internal_create_escrow,
}
use facilpay_contracts.Escrow.Payout.{fee_config_of}
use facilpay_contracts.Escrow.Storage.{Storage}
use facilpay_contracts.Escrow.Types.{MultisigConfiguration}
use facilpay_contracts.Host.{Env, ok, saturating_u64}

-- A creation that succeeds stores a locked escrow under the next number, with what the caller asked
-- for; escrows with other numbers, transfers and signers stay as they are, but for the signers that
-- the caller gives; the expiry, if there is one, lies after the release time and the hold period.
pub internal_create_escrow-creates :
    (env : Env) (r : Request) (signers : Option MultisigConfiguration) (id : ℕ) (s t : Storage)
    → internal_create_escrow env r signers s ≡ ok (id, t)
    → (id ≡ s.book.counter + 1)
      × (t.book.counter ≡ id)
      × (t.book.escrows
          ≡ put s.book.escrows id (some (new_escrow env s.settings (fee_config_of env s) id r)))
      × (t.book.release_multisigs ≡ (elim (with_multisig signers) [
        | none ↦ s.book.release_multisigs
        | some m ↦ put s.book.release_multisigs id (some m)
      ]))
      × (t.transfers ≡ s.transfers)
      × ((r.expiry_timestamp ≡ 0)
          ⊎ ((r.release_timestamp < r.expiry_timestamp)
              × (saturating_u64 (env.timestamp + r.min_hold_period) < r.expiry_timestamp)))
unfolding internal_create_escrow enter
internal_create_escrow-creates env r signers id s t e = ground arith

-- No number is given twice: where all stored escrows have numbers up to the counter, the new number
-- was free, and the same holds behind the creation.
pub internal_create_escrow-fresh :
    (env : Env) (r : Request) (signers : Option MultisigConfiguration) (id : ℕ) (s t : Storage)
    → ((i : ℕ) → s.book.counter < i → s.book.escrows i ≡ none)
    → internal_create_escrow env r signers s ≡ ok (id, t)
    → (s.book.escrows id ≡ none) × ((i : ℕ) → t.book.counter < i → t.book.escrows i ≡ none)
internal_create_escrow-fresh env r signers id s t free e =
    let c = internal_create_escrow-creates env r signers id s t e in
    (ground (arith, c, free id), λ i b. ground (arith, c, b, free i))
