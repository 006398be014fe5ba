-- ===== src/Escrow/Examples/Payments.antt =====
-- Releases, resolutions, refunds and the other calls that pay, each on a concrete escrow.
use facilpay_contracts.Prelude.{
  ◌+◌, ◌-◌, ◌*◌, ◌/◌, ◌≤◌, ◌≡◌, refl, ◌⊎◌, true, false, none, some, ◌∷◌, arith, ◌==◌, if◌then◌else◌,
  unwrap_or, put,
}
use facilpay_contracts.Escrow.Examples.{now, locked_escrow, holding}
use facilpay_contracts.Escrow.Hierarchy.{
  is_escrow_resolved, all_resolved, visit, generations, can_parent_release,
}
use facilpay_contracts.Escrow.Payout.{
  transfer_if_token_contract, fee_config_of, fee_of, collect_fee, pay_out,
}
use facilpay_contracts.Escrow.Release.{
  check_status, can_release_escrow, below_threshold, settle_release, internal_release_escrow,
}
use facilpay_contracts.Escrow.Release.Fees.{pay_out-moves}
use facilpay_contracts.Escrow.Release.Payment.{payout, internal_release_escrow-pays}
use facilpay_contracts.Escrow.Reputation.{
  update_reputation_on_completion, calculate_tenure_bonus, apply_tenure_bonus, reward_completion,
}
use facilpay_contracts.Escrow.Statistics.{released_after, released_value, update_all}
use facilpay_contracts.Escrow.Storage.{Storage}
use facilpay_contracts.Escrow.Types.{locked, released}
use facilpay_contracts.Host.{moved, after}
use facilpay_contracts.Prelude.Int.{pos, ◌+ℤ◌, ◌-ℤ◌, ◌*ℤ◌, ◌/ℤ◌}

abbrev released_storage : Storage
released_storage =
    after (holding locked_escrow) (internal_release_escrow now 1 false none (holding locked_escrow))

internal_release_escrow-pays_example :
    (locked_escrow.status ≡ locked)
    × (released_storage.book ≡ record ((holding locked_escrow).book) {
      escrows =
          put
            (holding locked_escrow).book.escrows
            1
            (some (record locked_escrow { status = released }));
    })
    × (released_storage.transfers
        ≡ payout now
            (holding locked_escrow)
            locked_escrow.token
            locked_escrow.amount
            (fee_of locked_escrow.amount locked_escrow.fee_bps)
            (unwrap_or none locked_escrow.merchant))
    × (below_threshold ((holding locked_escrow).book.release_multisigs 1) ≡ false)
    × ((false ≡ true)
        ⊎ ((locked_escrow.release_timestamp ≤ now.timestamp)
            × (locked_escrow.created_at + locked_escrow.min_hold_period ≤ now.timestamp)))
unfolding visit generations all_resolved is_escrow_resolved can_parent_release check_status
    can_release_escrow update_reputation_on_completion apply_tenure_bonus calculate_tenure_bonus
    reward_completion settle_release internal_release_escrow fee_of collect_fee pay_out
    transfer_if_token_contract ◌+ℤ◌ ◌-ℤ◌ ◌*ℤ◌ ◌/ℤ◌ update_all released_after released_value
internal_release_escrow-pays_example =
    internal_release_escrow-pays now 1 false none locked_escrow (holding locked_escrow)
      released_storage refl refl

abbrev paid_storage : Storage
paid_storage =
    after (holding locked_escrow) (pay_out now 50 (pos 1000) (pos 100) 20 (holding locked_escrow))

pay_out-moves_example :
    (moved paid_storage.transfers ≡ moved (holding locked_escrow).transfers + 1000)
    × (paid_storage.transfers
        ≡ record {
          token = 50;
          from = now.current_contract;
          to = 20;
          amount = pos (1000 - 1000 * 100 / 10000);
        }
          ∷ (if 1000 * 100 / 10000 == 0
              then (holding locked_escrow).transfers
              else record {
                token = 50;
                from = now.current_contract;
                to = (fee_config_of now (holding locked_escrow)).fee_recipient;
                amount = pos (1000 * 100 / 10000);
              }
                ∷ (holding locked_escrow).transfers))
unfolding fee_of collect_fee pay_out transfer_if_token_contract ◌+ℤ◌ ◌-ℤ◌ ◌*ℤ◌ ◌/ℤ◌
pay_out-moves_example =
    pay_out-moves now 50 1000 100 20 (holding locked_escrow) paid_storage (omega arith) refl refl
