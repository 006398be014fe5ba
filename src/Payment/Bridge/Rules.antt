-- ===== src/Payment/Bridge/Rules.antt =====
-- What a step of an escrowed payment does in the two contracts, contracts/payment/src/lib.rs and
-- contracts/escrow/src/lib.rs.
use facilpay_contracts.Prelude.{
  ℕ, ◌+◌, ◌≤◌, ◌≡◌, ◌⊎◌, Bool, true, false, not, none, some, arith, if◌then◌else◌, put,
}
use facilpay_contracts.Escrow.Dispute.Rules.{awards, internal_resolve_dispute-pays}
use facilpay_contracts.Escrow.Payout.{fee_of}
use facilpay_contracts.Escrow.Refund.Rules.{settled, refund_escrow-pays}
use facilpay_contracts.Escrow.Release.Payment.{paid, payout, internal_release_escrow-pays}
use facilpay_contracts.Escrow.Storage.{Storage}
use facilpay_contracts.Escrow.Types.{locked, released, disputed, resolved, Escrow}
use facilpay_contracts.Host.{Address, Env, ok}
use facilpay_contracts.Payment.Bridge.{
  completed, refunded, cancelled, is_pending, PaymentRecord, EscrowedPayment,
  EscrowedPaymentDispute, Bridges, called, is_unresolved, complete_escrowed_payment,
  cancel_escrowed_payment, resolve_escrowed_payment_dispute,
}
use facilpay_contracts.Payment.Bridge.Calls.{
  try_escrow-keeps, complete_escrowed_payment-calls, release_escrow-calls, resolve_dispute-calls,
  cancel_escrowed_payment-calls, resolve_escrowed_payment_dispute-calls,
}

-- A completion that succeeds was of a pending payment without an unresolved dispute, whose escrow
-- was locked. In one step the payment is completed, the escrow is released, and the escrow contract
-- pays the fee and, to the merchant of the escrow, the rest of its amount; nothing else of the
-- payment contract and no other escrow changes. A transfer of the escrow's token is made only where
-- a token contract answers.
pub complete_escrowed_payment-releases :
    (env : Env) (admin : Address) (id : ℕ) (p : PaymentRecord) (bridge : EscrowedPayment)
    (e : Escrow) (s : Storage) (b c : Bridges)
    → b.payments id ≡ some p
    → b.escrowed_payments id ≡ some bridge
    → b.escrow_contracts bridge.escrow_contract ≡ some s
    → s.book.escrows bridge.escrow_id ≡ some e
    → complete_escrowed_payment env admin id b ≡ ok (tt, c)
    → (is_pending p.status ≡ true)
      × (is_unresolved (b.disputes id) ≡ false)
      × (e.status ≡ locked)
      × (t : Storage) × (c ≡ record b {
        payments = put b.payments id (some (record p { status = completed }));
        escrow_contracts = put b.escrow_contracts bridge.escrow_contract (some t);
      })
      × (t.book ≡ record (s.book) {
        escrows = put s.book.escrows bridge.escrow_id (some (record e { status = released }));
      })
      × (t.transfers
          ≡ payout
              (called env bridge.escrow_contract)
              s
              e.token
              e.amount
              (fee_of e.amount e.fee_bps)
              e.merchant)
complete_escrowed_payment-releases env admin id p bridge e s b c h h' k ke r =
    let (waiting, clear, d, tried, after_try) =
      complete_escrowed_payment-calls env admin id p bridge b c h h' r in
    let (t, carried, kept) = try_escrow-keeps env bridge.escrow_contract _ b d s k tried in
    let (lock, book, transfers, signed, timed) =
      internal_release_escrow-pays (called env bridge.escrow_contract) bridge.escrow_id
        bridge.auto_release_on_complete none e s t ke
        (release_escrow-calls (called env bridge.escrow_contract) env.current_contract
          bridge.escrow_id bridge.auto_release_on_complete s t carried) in
    (waiting, clear, lock, t, cc, book, transfers)

-- A cancellation that succeeds was signed by a party of the payment and of its escrow. The payment
-- was pending without an unresolved dispute. In one step the payment is cancelled and the escrow,
-- locked beyond its hold period or disputed, is resolved and pays its whole amount to its customer;
-- nothing else changes in the two contracts. A transfer of the escrow's token is made only where a
-- token contract answers.
pub cancel_escrowed_payment-refunds :
    (env : Env) (caller : Address) (id : ℕ) (p : PaymentRecord) (bridge : EscrowedPayment)
    (e : Escrow) (s : Storage) (b c : Bridges)
    → b.payments id ≡ some p
    → b.escrowed_payments id ≡ some bridge
    → b.escrow_contracts bridge.escrow_contract ≡ some s
    → s.book.escrows bridge.escrow_id ≡ some e
    → cancel_escrowed_payment env caller id b ≡ ok (tt, c)
    → (env.authorized caller ≡ true)
      × (is_pending p.status ≡ true)
      × ((p.customer ≡ caller) ⊎ (p.merchant ≡ caller))
      × ((e.customer ≡ caller) ⊎ (e.merchant ≡ caller))
      × (is_unresolved (b.disputes id) ≡ false)
      × (((e.status ≡ locked) × (e.created_at + e.min_hold_period ≤ env.timestamp))
          ⊎ (e.status ≡ disputed))
      × (c ≡ record b {
        payments = put b.payments id (some (record p { status = cancelled }));
        escrow_contracts = put b.escrow_contracts bridge.escrow_contract (
            some (
              settled s bridge.escrow_id
                (record e { status = resolved })
                (paid
                  (called env bridge.escrow_contract)
                  e.token
                  e.customer
                  e.amount
                  s.transfers)));
      })
cancel_escrowed_payment-refunds env caller id p bridge e s b c h h' k ke r =
    let (authorised, waiting, party, clear, d, tried, after_try) =
      cancel_escrowed_payment-calls env caller id p bridge b c h h' r in
    let (t, carried, kept) = try_escrow-keeps env bridge.escrow_contract _ b d s k tried in
    let (signed, member, held, settling) =
      refund_escrow-pays (called env bridge.escrow_contract) caller bridge.escrow_id e s t ke
        carried in
    (authorised, waiting, party, member, clear, held, cc)

-- A resolution that succeeds was of an open dispute about a pending payment, whose escrow was
-- disputed as well. In one step the dispute is marked as resolved, with the time and the decision,
-- the payment is refunded with its whole amount or completed, the escrow is resolved or released, and its amount and the collateral go to the
-- customer or to the merchant of the escrow, each time as decided. A transfer of the escrow's token
-- is made only where a token contract answers.
pub resolve_escrowed_payment_dispute-awards :
    (env : Env) (admin : Address) (id : ℕ) (favor_customer : Bool) (p : PaymentRecord)
    (bridge : EscrowedPayment) (x : EscrowedPaymentDispute) (e : Escrow) (s : Storage)
    (b c : Bridges)
    → b.payments id ≡ some p
    → b.escrowed_payments id ≡ some bridge
    → b.disputes id ≡ some x
    → b.escrow_contracts bridge.escrow_contract ≡ some s
    → s.book.escrows bridge.escrow_id ≡ some e
    → resolve_escrowed_payment_dispute env admin id favor_customer b ≡ ok (tt, c)
    → (is_pending p.status ≡ true)
      × (x.resolved ≡ false)
      × (e.status ≡ disputed)
      × (t : Storage) × (c ≡ record b {
        payments = put b.payments id (
            some (
              if favor_customer
              then record p { status = refunded; refunded_amount = p.amount }
              else record p { status = completed }));
        disputes = put b.disputes id (
            some (record x {
              resolved = true;
              resolved_at = some env.timestamp;
              favor_customer = some favor_customer;
            }));
        escrow_contracts = put b.escrow_contracts bridge.escrow_contract (some t);
      })
      × (t.book ≡ record (s.book) {
        escrows =
            put s.book.escrows bridge.escrow_id
              (some (record e { status = if not favor_customer then released else resolved }));
      })
      × (t.transfers
          ≡ awards
              (called env bridge.escrow_contract)
              e
              (if not favor_customer then e.merchant else e.customer)
              (s.collateral bridge.escrow_id)
              s.transfers)
resolve_escrowed_payment_dispute-awards env admin id favor_customer p bridge x e s b c h h' h'' k ke
      r =
    let (waiting, fresh, d, tried, after_try) =
      resolve_escrowed_payment_dispute-calls env admin id favor_customer p bridge x b c h h' h''
        r in
    let (t, carried, kept) = try_escrow-keeps env bridge.escrow_contract _ b d s k tried in
    let (contested, book, transfers, emptied, gone, unlisted, others) =
      internal_resolve_dispute-pays (called env bridge.escrow_contract) bridge.escrow_id
        (not favor_customer) e s t ke
        (resolve_dispute-calls (called env bridge.escrow_contract) admin bridge.escrow_id
          (not favor_customer) s t carried) in
    (waiting, fresh, contested, t, ground (arith, after_try, kept), book, transfers)
