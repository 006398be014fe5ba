-- ===== src/Escrow/Examples/Disputes.antt =====
-- Disputes and their resolution, each on a concrete escrow.
use facilpay_contracts.Prelude.{
  ℕ, ◌≡◌, refl, ◌≢◌, true, false, none, some, [], if◌then◌else◌, unwrap_or, contains, put,
}
use facilpay_contracts.Escrow.Dispute.{dispute_escrow, internal_resolve_dispute}
use facilpay_contracts.Escrow.Dispute.Rules.{
  awards, internal_resolve_dispute-pays, dispute_lifts_hold,
}
use facilpay_contracts.Escrow.Examples.{now, locked_escrow, disputed_escrow, holding}
use facilpay_contracts.Escrow.Payout.{transfer_if_token_contract}
use facilpay_contracts.Escrow.Queue.{remove_escalation_queue_index, dequeue_escalation}
use facilpay_contracts.Escrow.Refund.{refund_escrow}
use facilpay_contracts.Escrow.Reputation.{
  record_win, record_loss, update_reputation_on_dispute_outcome,
}
use facilpay_contracts.Escrow.Statistics.{
  disputed_overall, disputed_once, resolved_overall, resolved_once, update_all,
}
use facilpay_contracts.Escrow.Storage.{Storage}
use facilpay_contracts.Escrow.Types.{released, disputed, resolved}
use facilpay_contracts.Host.{ok, after}
use facilpay_contracts.Prelude.Int.{◌+ℤ◌, ◌-ℤ◌, ◌*ℤ◌, ◌/ℤ◌}

abbrev resolved_storage : Storage
resolved_storage =
    after (holding disputed_escrow) (internal_resolve_dispute now 1 true (holding disputed_escrow))

internal_resolve_dispute-pays_example :
    (disputed_escrow.status ≡ disputed)
    × (resolved_storage.book ≡ record ((holding disputed_escrow).book) {
      escrows =
          put
            (holding disputed_escrow).book.escrows
            1
            (some (record disputed_escrow { status = if true then released else resolved }));
    })
    × (resolved_storage.transfers
        ≡ awards now disputed_escrow
            (if true then disputed_escrow.merchant else disputed_escrow.customer)
            ((holding disputed_escrow).collateral 1)
            (holding disputed_escrow).transfers)
    × (resolved_storage.collateral 1 ≡ none)
    × (resolved_storage.queue.deadline_of 1 ≡ none)
    × ((d : ℕ)
        → (holding disputed_escrow).queue.deadline_of 1 ≡ some d
        → contains (unwrap_or (resolved_storage.queue.ids_at d) []) 1 ≡ false)
    × ((j : ℕ)
        → j ≢ 1
        → resolved_storage.queue.deadline_of j ≡ (holding disputed_escrow).queue.deadline_of j)
unfolding record_win record_loss update_reputation_on_dispute_outcome dequeue_escalation
    remove_escalation_queue_index internal_resolve_dispute transfer_if_token_contract ◌+ℤ◌ ◌-ℤ◌ ◌*ℤ◌
    ◌/ℤ◌ update_all resolved_overall resolved_once
internal_resolve_dispute-pays_example =
    internal_resolve_dispute-pays now 1 true disputed_escrow (holding disputed_escrow)
      resolved_storage refl refl

abbrev dispute_storage : Storage
dispute_storage = after (holding locked_escrow) (dispute_escrow now 10 1 (holding locked_escrow))

dispute_lifts_hold_example : (u : Storage) × (refund_escrow now 10 1 dispute_storage ≡ ok (tt, u))
unfolding dispute_escrow ◌+ℤ◌ ◌-ℤ◌ ◌*ℤ◌ ◌/ℤ◌ update_all disputed_overall disputed_once
dispute_lifts_hold_example =
    dispute_lifts_hold now 10 1 locked_escrow (holding locked_escrow) dispute_storage refl refl refl
