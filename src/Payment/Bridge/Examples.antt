-- ===== src/Payment/Bridge/Examples.antt =====
-- Escrowed payments on concrete storages of the two contracts.
use facilpay_contracts.Prelude.{
  ◌+◌, ◌≤◌, ◌≡◌, refl, ◌⊎◌, true, false, not, Option, none, some, [], ◌==◌, if◌then◌else◌, put,
}
use facilpay_contracts.Escrow.Dispute.{internal_resolve_dispute, resolve_dispute}
use facilpay_contracts.Escrow.Dispute.Rules.{awards}
use facilpay_contracts.Escrow.Examples.{
  three_admins, administered, locked_escrow, disputed_escrow, holding,
}
use facilpay_contracts.Escrow.Hierarchy.{can_parent_release}
use facilpay_contracts.Escrow.Payout.{fee_of, pay_out}
use facilpay_contracts.Escrow.Refund.{refund_escrow}
use facilpay_contracts.Escrow.Refund.Rules.{settled}
use facilpay_contracts.Escrow.Release.{
  can_release_escrow, settle_release, internal_release_escrow, release_escrow,
}
use facilpay_contracts.Escrow.Release.Payment.{paid, payout}
use facilpay_contracts.Escrow.Reputation.{update_reputation_on_dispute_outcome, reward_completion}
use facilpay_contracts.Escrow.Statistics.{
  released_after, released_value, resolved_overall, resolved_once, update_all,
}
use facilpay_contracts.Escrow.Storage.{Storage}
use facilpay_contracts.Escrow.Types.{locked, released, disputed, resolved, Escrow}
use facilpay_contracts.Host.{err, after}
use facilpay_contracts.Payment.Bridge.{
  usdc, pending, completed, refunded, cancelled, is_pending, PaymentRecord, EscrowedPayment,
  EscrowedPaymentDispute, Bridges, called, try_escrow, is_unresolved, complete_escrowed_payment,
  cancel_escrowed_payment, resolve_escrowed_payment_dispute,
}
use facilpay_contracts.Payment.Bridge.Rules.{
  complete_escrowed_payment-releases, cancel_escrowed_payment-refunds,
  resolve_escrowed_payment_dispute-awards,
}
use facilpay_contracts.Payment.Errors.{invalid_status, escrow_bridge_failed, payment, feature}
use facilpay_contracts.Prelude.Int.{pos}
use facilpay_contracts.Refund.Examples.{now}

abbrev order : PaymentRecord
order = record {
  id = 7;
  customer = 10;
  merchant = 20;
  amount = pos 1000;
  token = 50;
  currency = usdc;
  status = pending;
  created_at = 1000;
  expires_at = 0;
  metadata = [];
  notes = [];
  refunded_amount = pos 0;
}

abbrev link : EscrowedPayment
link = record {
  payment_id = 7;
  escrow_id = 1;
  escrow_contract = 60;
  auto_release_on_complete = false;
}

abbrev complaint : EscrowedPaymentDispute
complaint = record {
  payment_id = 7;
  raised_by = 10;
  reason = [];
  raised_at = 900000;
  resolved = false;
  resolved_at = none;
  favor_customer = none;
}

-- An escrow contract that trusts the payment contract
abbrev trusting : Escrow → Storage
trusting e = record (holding e) {
  governance = record administered { trusted_bridges = λ a. a == 99 };
}

abbrev linked : Escrow → Option EscrowedPaymentDispute → Bridges
linked e d = record {
  payments = put (λ _. none) 7 (some order);
  escrowed_payments = put (λ _. none) 7 (some link);
  disputes = put (λ _. none) 7 d;
  multisig = some three_admins;
  escrow_contracts = put (λ _. none) 60 (some (trusting e));
}

abbrev completed_bridges : Bridges
completed_bridges =
    after (linked locked_escrow none)
      (complete_escrowed_payment now 1 7 (linked locked_escrow none))

complete_escrowed_payment-releases_example :
    (is_pending order.status ≡ true)
    × (is_unresolved ((linked locked_escrow none).disputes 7) ≡ false)
    × (locked_escrow.status ≡ locked)
    × (t : Storage) × (completed_bridges ≡ record (linked locked_escrow none) {
      payments =
          put (linked locked_escrow none).payments 7 (some (record order { status = completed }));
      escrow_contracts =
          put (linked locked_escrow none).escrow_contracts link.escrow_contract (some t);
    })
    × (t.book ≡ record ((trusting locked_escrow).book) {
      escrows =
          put
            (trusting locked_escrow).book.escrows
            link.escrow_id
            (some (record locked_escrow { status = released }));
    })
    × (t.transfers
        ≡ payout
            (called now link.escrow_contract)
            (trusting locked_escrow)
            locked_escrow.token
            locked_escrow.amount
            (fee_of locked_escrow.amount locked_escrow.fee_bps)
            locked_escrow.merchant)
unfolding complete_escrowed_payment try_escrow release_escrow internal_release_escrow
    can_release_escrow can_parent_release settle_release pay_out reward_completion update_all
    released_after released_value
complete_escrowed_payment-releases_example =
    complete_escrowed_payment-releases now 1 7 order link locked_escrow (trusting locked_escrow)
      (linked locked_escrow none) completed_bridges refl refl refl refl refl

abbrev resolved_bridges : Bridges
resolved_bridges =
    after (linked disputed_escrow (some complaint))
      (resolve_escrowed_payment_dispute now 1 7 true (linked disputed_escrow (some complaint)))

resolve_escrowed_payment_dispute-awards_example :
    (is_pending order.status ≡ true)
    × (complaint.resolved ≡ false)
    × (disputed_escrow.status ≡ disputed)
    × (t : Storage) × (resolved_bridges ≡ record ((linked disputed_escrow (some complaint))) {
      payments = put ((linked disputed_escrow (some complaint))).payments 7 (
          some (
            if true
            then record order { status = refunded; refunded_amount = order.amount }
            else record order { status = completed }));
      disputes = put ((linked disputed_escrow (some complaint))).disputes 7 (
          some (record complaint {
            resolved = true;
            resolved_at = some now.timestamp;
            favor_customer = some true;
          }));
      escrow_contracts =
          put
            ((linked disputed_escrow (some complaint))).escrow_contracts
            link.escrow_contract
            (some t);
    })
    × (t.book ≡ record ((trusting disputed_escrow).book) {
      escrows =
          put
            (trusting disputed_escrow).book.escrows
            link.escrow_id
            (some (record disputed_escrow { status = if not true then released else resolved }));
    })
    × (t.transfers
        ≡ awards
            (called now link.escrow_contract)
            disputed_escrow
            (if not true then disputed_escrow.merchant else disputed_escrow.customer)
            ((trusting disputed_escrow).collateral link.escrow_id)
            (trusting disputed_escrow).transfers)
unfolding resolve_escrowed_payment_dispute try_escrow resolve_dispute internal_resolve_dispute
    update_reputation_on_dispute_outcome update_all resolved_overall resolved_once
resolve_escrowed_payment_dispute-awards_example =
    resolve_escrowed_payment_dispute-awards now 1 7 true order link complaint disputed_escrow
      (trusting disputed_escrow) (linked disputed_escrow (some complaint)) resolved_bridges refl
      refl refl refl refl refl

abbrev cancelled_bridges : Bridges
cancelled_bridges =
    after (linked locked_escrow none) (cancel_escrowed_payment now 10 7 (linked locked_escrow none))

cancel_escrowed_payment-refunds_example :
    (now.authorized 10 ≡ true)
    × (is_pending order.status ≡ true)
    × ((order.customer ≡ 10) ⊎ (order.merchant ≡ 10))
    × ((locked_escrow.customer ≡ 10) ⊎ (locked_escrow.merchant ≡ 10))
    × (is_unresolved ((linked locked_escrow none).disputes 7) ≡ false)
    × (((locked_escrow.status ≡ locked)
          × (locked_escrow.created_at + locked_escrow.min_hold_period ≤ now.timestamp))
        ⊎ (locked_escrow.status ≡ disputed))
    × (cancelled_bridges ≡ record (linked locked_escrow none) {
      payments =
          put (linked locked_escrow none).payments 7 (some (record order { status = cancelled }));
      escrow_contracts = put (linked locked_escrow none).escrow_contracts link.escrow_contract (
          some (
            settled
              (trusting locked_escrow)
              link.escrow_id
              (record locked_escrow { status = resolved })
              (paid
                (called now link.escrow_contract)
                locked_escrow.token
                locked_escrow.customer
                locked_escrow.amount
                (trusting locked_escrow).transfers)));
    })
unfolding cancel_escrowed_payment try_escrow refund_escrow
cancel_escrowed_payment-refunds_example =
    cancel_escrowed_payment-refunds now 10 7 order link locked_escrow (trusting locked_escrow)
      (linked locked_escrow none) cancelled_bridges refl refl refl refl refl

-- While the dispute is open, the payment is neither cancelled nor completed.
cancel_refused :
    cancel_escrowed_payment now 10 7 (linked disputed_escrow (some complaint))
    ≡ err (payment invalid_status)
unfolding cancel_escrowed_payment
cancel_refused = refl

complete_refused :
    complete_escrowed_payment now 1 7 (linked disputed_escrow (some complaint))
    ≡ err (payment invalid_status)
unfolding complete_escrowed_payment
complete_refused = refl

-- An escrow that was settled by another call leaves the payment pending.
complete_settled_refused :
    complete_escrowed_payment now 1 7 (linked (record locked_escrow { status = resolved }) none)
    ≡ err (feature escrow_bridge_failed)
unfolding complete_escrowed_payment try_escrow release_escrow internal_release_escrow
    can_release_escrow can_parent_release
complete_settled_refused = refl
