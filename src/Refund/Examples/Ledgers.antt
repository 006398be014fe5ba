-- ===== src/Refund/Examples/Ledgers.antt =====
-- Tests of the calls that act on a refund, its arbitration and its voucher, each on a ledger with one
-- refund.
use facilpay_contracts.Prelude.{
  ◌+◌, ◌≤◌, ◌≡◌, refl, true, false, none, some, [], ◌∷◌, arith, unwrap_or, is_some, put,
}
use facilpay_contracts.Host.{ok, is_ok, after, saturating_u64}
use facilpay_contracts.Prelude.Int.{◌+ℤ◌, ◌≤ℤ◌}
use facilpay_contracts.Refund.Arbitration.{cast_arbitration_vote}
use facilpay_contracts.Refund.Arbitration.Decisions.{trigger_arbitration_timeout}
use facilpay_contracts.Refund.Arbitration.Reopening.{trigger_arbitration_timeout-reopens}
use facilpay_contracts.Refund.Denials.{finalize_denial, is_denied, file_appeal}
use facilpay_contracts.Refund.Denials.Rules.{
  finalize_denial_possible, approve_refund_by_anyone, file_appeal-once,
}
use facilpay_contracts.Refund.Examples.{now, later, case, refund_in, storage_in, ledger_in-IsValid}
use facilpay_contracts.Refund.Lifecycle.{approves, processes, after_calls}
use facilpay_contracts.Refund.Lifecycle.Diagram.{Changes, refund_terms}
use facilpay_contracts.Refund.Lifecycle.Paths.{after_calls-follow}
use facilpay_contracts.Refund.Requests.{enter_refund, approve_refund, process_refund}
use facilpay_contracts.Refund.Requests.Indexed.{Ledger-IsValid}
use facilpay_contracts.Refund.Requests.Processing.{process_refund-within}
use facilpay_contracts.Refund.Requests.Totals.{processed_total}
use facilpay_contracts.Refund.Storage.{RefundStorage}
use facilpay_contracts.Refund.Types.{
  requested, approved, rejected, processed, pending_appeal, RefundRecord,
}
use facilpay_contracts.Refund.Vouchers.{issue_refund_voucher}

after_calls-follow_example :
    Ledger-IsValid
      (after_calls
        (λ _ _ _. true)
        (storage_in requested)
        ((now, approves 5 1) ∷ (now, processes 5 1) ∷ [])).ledger
    × ((r' : RefundRecord) × ((after_calls
              (λ _ _ _. true)
              (storage_in requested)
              ((now, approves 5 1) ∷ (now, processes 5 1) ∷ [])).ledger.refunds
            1
          ≡ some r')
        × Changes (refund_in requested).status r'.status
        × (refund_terms r' ≡ refund_terms (refund_in requested))
        × (((refund_in requested).status ≡ processed) → r'.status ≡ processed))
unfolding enter_refund
after_calls-follow_example =
    after_calls-follow (λ _ _ _. true) (storage_in requested)
      ((now, approves 5 1) ∷ (now, processes 5 1) ∷ []) 1 (refund_in requested)
      (ledger_in-IsValid requested) refl

abbrev processed_storage : RefundStorage
processed_storage = after (storage_in approved) (process_refund now 5 1 (storage_in approved))

process_refund-within_example :
    ((refund_in approved).status ≡ approved)
    × (processed_storage.ledger.refunds
        ≡ put (storage_in approved).ledger.refunds 1 (
            some (record (refund_in approved) {
              status = processed;
              processed_at = some now.timestamp;
            })))
    × (processed_total processed_storage.ledger (refund_in approved).payment_id
        ≡ processed_total (storage_in approved).ledger (refund_in approved).payment_id
          +ℤ (refund_in approved).amount)
    × (processed_total processed_storage.ledger (refund_in approved).payment_id
        ≤ℤ (refund_in approved).original_payment_amount)
unfolding enter_refund process_refund
process_refund-within_example =
    process_refund-within now 5 1 (refund_in approved) (storage_in approved) processed_storage
      (ledger_in-IsValid approved) refl (omega arith) refl

finalize_denial_possible_example :
    (t : RefundStorage) × (finalize_denial later 1 (storage_in pending_appeal) ≡ ok (tt, t))
    × (t.ledger.refunds
        ≡ put (storage_in pending_appeal).ledger.refunds 1 (
            some (record (refund_in pending_appeal) {
              status = rejected;
              rejected_at = some later.timestamp;
            })))
unfolding enter_refund
finalize_denial_possible_example =
    finalize_denial_possible later (storage_in pending_appeal) (ledger_in-IsValid pending_appeal) 1
      1500000 (refund_in pending_appeal) refl refl refl (omega arith) (omega arith)

approve_refund_by_anyone_example :
    (t : RefundStorage) × (approve_refund now 66 1 (storage_in requested) ≡ ok (tt, t))
    × (t.ledger.refunds
        ≡ put (storage_in requested).ledger.refunds 1 (
            some (record (refund_in requested) {
              status = approved;
              approved_at = some now.timestamp;
            })))
unfolding enter_refund
approve_refund_by_anyone_example =
    approve_refund_by_anyone now (storage_in requested) (ledger_in-IsValid requested) 66 1
      (refund_in requested) refl refl refl refl (omega arith)

abbrev appealed_storage : RefundStorage
appealed_storage =
    after (storage_in pending_appeal) (file_appeal now 10 1 [] (storage_in pending_appeal))

file_appeal-once_example :
    (now.authorized 10 ≡ true)
    × ((refund_in pending_appeal).customer ≡ 10)
    × (is_denied (refund_in pending_appeal).status ≡ true)
    × (((refund_in pending_appeal).status ≡ pending_appeal)
        → (is_some (refund_in pending_appeal).appeal_deadline ≡ true)
          × (now.timestamp ≤ unwrap_or (refund_in pending_appeal).appeal_deadline 0))
    × (((refund_in pending_appeal).status ≡ rejected)
        → (is_some ((storage_in pending_appeal).appeals.rejected_at 1) ≡ true)
          × (now.timestamp
              ≤ saturating_u64 (
                  unwrap_or ((storage_in pending_appeal).appeals.rejected_at 1) 0
                  + unwrap_or (storage_in pending_appeal).appeals.window 604800)))
    × ((storage_in pending_appeal).appeals.by_refund 1 ≡ none)
    × (is_ok (file_appeal now 10 1 (1 ∷ []) appealed_storage) ≡ false)
unfolding enter_refund file_appeal
file_appeal-once_example =
    file_appeal-once now now 10 10 1 1 [] (1 ∷ []) (refund_in pending_appeal)
      (storage_in pending_appeal) appealed_storage refl refl

abbrev reopened_storage : RefundStorage
reopened_storage =
    after (storage_in processed) (trigger_arbitration_timeout later 1 (storage_in processed))

trigger_arbitration_timeout-reopens_example :
    (reopened_storage.ledger.refunds
      ≡ put
          (storage_in processed).ledger.refunds
          case.refund_id
          (some (record (refund_in processed) { status = approved })))
    × (reopened_storage.ledger.index ≡ (storage_in processed).ledger.index)
    × ¬ Ledger-IsValid reopened_storage.ledger
unfolding enter_refund trigger_arbitration_timeout
trigger_arbitration_timeout-reopens_example =
    trigger_arbitration_timeout-reopens later 1 case (refund_in processed) (storage_in processed)
      reopened_storage (ledger_in-IsValid processed) refl refl refl (λ e. absurd (ground arith))
      refl

abbrev voted_storage : RefundStorage
voted_storage =
    after (storage_in rejected) (cast_arbitration_vote now 32 1 true (4 ∷ []) (storage_in rejected))

abbrev voucher_storage : RefundStorage
voucher_storage =
    after (storage_in approved) (issue_refund_voucher now 1 1 5000000 (storage_in approved))
