-- ===== src/Escrow/Dispute/Rules.antt =====
-- What disputes and their resolution need and do.
use facilpay_contracts.Prelude.{
  ℕ, ◌+◌, ◌≡◌, ◌≢◌, ◌⊎◌, Bool, true, false, Option, none, some, List, [], ◌∷◌, arith, if◌then◌else◌,
  unwrap_or, contains, put,
}
use facilpay_contracts.Escrow.Dispute.{deposit_collateral, dispute_escrow, internal_resolve_dispute}
use facilpay_contracts.Escrow.Payout.{transfer_if_token_contract}
use facilpay_contracts.Escrow.Queue.{dequeue_escalation}
use facilpay_contracts.Escrow.Queue.Rules.{dequeue_escalation-leaves}
use facilpay_contracts.Escrow.Refund.{refund_escrow}
use facilpay_contracts.Escrow.Release.Payment.{paid}
use facilpay_contracts.Escrow.Storage.{Storage}
use facilpay_contracts.Escrow.Types.{
  locked, released, disputed, resolved, Escrow, DisputeConfig, DisputeCollateral,
}
use facilpay_contracts.Host.{Address, Transfer, Env, ok, after}
use facilpay_contracts.Prelude.Int.{pos, ◌*ℤ◌, ◌≤ℤ◌, ◌<ℤ◌}

-- A dispute that succeeds was raised by a party of a locked escrow. The escrow becomes disputed from
-- now on; no other escrow changes.
pub dispute_escrow-opens :
    (env : Env) (caller : Address) (id : ℕ) (e : Escrow) (s t : Storage)
    → s.book.escrows id ≡ some e
    → dispute_escrow env caller id s ≡ ok (tt, t)
    → (env.authorized caller ≡ true)
      × ((caller ≡ e.customer) ⊎ (caller ≡ e.merchant))
      × (e.status ≡ locked)
      × (t.book ≡ record (s.book) {
        escrows = put s.book.escrows id (
            some (record e {
              status = disputed;
              dispute_started_at = env.timestamp;
              last_activity_at = env.timestamp;
              evidence_deadline = some (env.timestamp + 604800);
            }));
      })
unfolding dispute_escrow deposit_collateral
dispute_escrow-opens env caller id e s t h r = ground arith

-- The collateral of a dispute, where it is asked for, covers the ratio to the amount in dispute, and
-- is moved from the caller to the contract and noted.
pub dispute_escrow-collateral :
    (env : Env) (caller : Address) (id : ℕ) (e : Escrow) (c : DisputeConfig) (s t : Storage)
    → s.book.escrows id ≡ some e
    → s.settings.dispute_config ≡ some c
    → c.collateral_enabled ≡ true
    → pos 0 <ℤ c.collateral_amount
    → dispute_escrow env caller id s ≡ ok (tt, t)
    → (e.amount *ℤ pos c.min_collateral_ratio_bps ≤ℤ c.collateral_amount *ℤ pos 10000)
      × (t.transfers
          ≡ record {
            token = c.collateral_token;
            from = caller;
            to = env.current_contract;
            amount = c.collateral_amount;
          }
            ∷ s.transfers)
      × (t.collateral id
          ≡ some (record {
            escrow_id = id;
            disputing_party = caller;
            amount = c.collateral_amount;
            token = c.collateral_token;
            deposited_at = env.timestamp;
          }))
unfolding dispute_escrow deposit_collateral
dispute_escrow-collateral env caller id e c s t h hc on some_amount r = ground arith

-- The transfers of a resolution: the amount, and the collateral where there is one, to the winner.
abbrev pub awards :
    Env → Escrow → Address → Option DisputeCollateral → List Transfer → List Transfer
awards env e winner none log = paid env e.token winner e.amount log
awards env e winner (some c) log =
    record { token = c.token; from = env.current_contract; to = winner; amount = c.amount }
    ∷ paid env e.token winner e.amount log

internal_resolve_dispute-does :
    (env : Env) (id : ℕ) (to_merchant : Bool) (e : Escrow) (s t : Storage)
    → s.book.escrows id ≡ some e
    → internal_resolve_dispute env id to_merchant s ≡ ok (tt, t)
    → (e.status ≡ disputed)
      × (t.book ≡ record (s.book) {
        escrows =
            put s.book.escrows id
              (some (record e { status = if to_merchant then released else resolved }));
      })
      × (t.transfers
          ≡ awards env e
              (if to_merchant then e.merchant else e.customer)
              (s.collateral id)
              s.transfers)
      × (t.collateral id ≡ none)
      × (t.queue ≡ dequeue_escalation id s.queue)
unfolding internal_resolve_dispute
internal_resolve_dispute-does env id to_merchant e s t h r = ground arith

-- A resolution that succeeds was of a disputed escrow. The winner, the merchant or the customer as
-- decided, is paid the whole amount and the collateral, whoever deposited it; the collateral's slot
-- is empty, and no other escrow changes. The escrow leaves the escalation queue: it has no deadline
-- there and is not in the list of the deadline that it had, and the deadlines of the other escrows
-- stay. A transfer of the escrow's token is made only where a token contract answers.
pub internal_resolve_dispute-pays :
    (env : Env) (id : ℕ) (to_merchant : Bool) (e : Escrow) (s t : Storage)
    → s.book.escrows id ≡ some e
    → internal_resolve_dispute env id to_merchant s ≡ ok (tt, t)
    → (e.status ≡ disputed)
      × (t.book ≡ record (s.book) {
        escrows =
            put s.book.escrows id
              (some (record e { status = if to_merchant then released else resolved }));
      })
      × (t.transfers
          ≡ awards env e
              (if to_merchant then e.merchant else e.customer)
              (s.collateral id)
              s.transfers)
      × (t.collateral id ≡ none)
      × (t.queue.deadline_of id ≡ none)
      × ((d : ℕ)
          → s.queue.deadline_of id ≡ some d
          → contains (unwrap_or (t.queue.ids_at d) []) id ≡ false)
      × ((j : ℕ) → j ≢ id → t.queue.deadline_of j ≡ s.queue.deadline_of j)
internal_resolve_dispute-pays env id to_merchant e s t h r =
    let (contested, book, transfers, emptied, left) =
      internal_resolve_dispute-does env id to_merchant e s t h r in
    let (gone, unlisted, others) = dequeue_escalation-leaves id s.queue in
    (
      contested,
      book,
      transfers,
      emptied,
      ground (arith, left, gone),
      λ d k. ground (arith, left, unlisted d k),
      λ j n. ground (arith, left, others j n),
    )

-- A party that raises a dispute may refund at once, its hold period notwithstanding: where the token
-- accepts the transfer, the refund of a disputed escrow succeeds.
pub dispute_lifts_hold :
    (env : Env) (caller : Address) (id : ℕ) (e : Escrow) (s t : Storage)
    → s.book.escrows id ≡ some e
    → dispute_escrow env caller id s ≡ ok (tt, t)
    → env.accepts t.transfers (record {
      token = e.token;
      from = env.current_contract;
      to = e.customer;
      amount = e.amount;
    })
      ≡ true
    → (u : Storage) × (refund_escrow env caller id t ≡ ok (tt, u))
unfolding dispute_escrow deposit_collateral refund_escrow transfer_if_token_contract
dispute_lifts_hold env caller id e s t h r accepted =
    (after t (refund_escrow env caller id t), ground arith)
