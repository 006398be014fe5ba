-- ===== src/Escrow/Dispatch/Rules.antt =====
-- What a proposal to release an escrow, or to resolve a dispute, needs and does.
use facilpay_contracts.Prelude.{ℕ, ◌+◌, ◌≤◌, ◌≡◌, ◌⊎◌, Bool, true, some, arith, if◌then◌else◌, put}
use facilpay_contracts.Escrow.Dispatch.{
  count_release, settle_dispatched, dispatch_release, dispatch_resolve,
}
use facilpay_contracts.Escrow.Payout.{transfer_if_token_contract, fee_of, pay_out}
use facilpay_contracts.Escrow.Release.Payment.{paid, payout, pay_out-pays}
use facilpay_contracts.Escrow.Storage.{Storage}
use facilpay_contracts.Escrow.Types.{locked, released, disputed, resolved, Escrow}
use facilpay_contracts.Host.{Env, ok, >>=-eq-ok}

count_release_keeps :
    (env : Env) (e : Escrow) (s t : Storage)
    → count_release env e s ≡ ok (tt, t)
    → (t.book ≡ s.book) × (t.transfers ≡ s.transfers)
count_release_keeps env e s t r = ground arith

settle_dispatched-pays :
    (env : Env) (id : ℕ) (e : Escrow) (s t : Storage)
    → settle_dispatched env id e s ≡ ok (tt, t)
    → (t.book ≡ record (s.book) { escrows = put s.book.escrows id (some e) })
      × (t.transfers ≡ payout env s e.token e.amount (fee_of e.amount e.fee_bps) e.merchant)
unfolding settle_dispatched
settle_dispatched-pays env id e s t r =
    let stored : Storage = record s {
      book = record (s.book) { escrows = put s.book.escrows id (some e) };
    } in
    let (x, u, paying, done) =
      >>=-eq-ok (pay_out env e.token e.amount e.fee_bps e.merchant) _ stored r in
    ground (
      arith,
      pay_out-pays env e.token e.amount e.fee_bps e.merchant stored u paying,
      count_release_keeps env e u t done,
    )

-- A release by proposal: the escrow was locked and is released, without `early_release` its times
-- had passed, and fee and rest are paid out as in a release by an admin.
pub dispatch_release-pays :
    (env : Env) (id : ℕ) (early : Bool) (e : Escrow) (s t : Storage)
    → s.book.escrows id ≡ some e
    → dispatch_release env id early s ≡ ok (tt, t)
    → (e.status ≡ locked)
      × (t.book ≡ record (s.book) {
        escrows = put s.book.escrows id (some (record e { status = released }));
      })
      × (t.transfers ≡ payout env s e.token e.amount (fee_of e.amount e.fee_bps) e.merchant)
      × ((early ≡ true)
          ⊎ ((e.release_timestamp ≤ env.timestamp)
              × (e.created_at + e.min_hold_period ≤ env.timestamp)))
unfolding dispatch_release
dispatch_release-pays env id early e s t h r =
    ground (arith, settle_dispatched-pays env id (record e { status = released }) s t)

-- A resolution by proposal that succeeds: the escrow was disputed, and the winner is paid the whole
-- amount. The collateral stays where it is. A transfer of the escrow's token is made only where a
-- token contract answers.
pub dispatch_resolve-pays :
    (env : Env) (id : ℕ) (to_merchant : Bool) (e : Escrow) (s t : Storage)
    → s.book.escrows id ≡ some e
    → dispatch_resolve env id to_merchant s ≡ ok (tt, t)
    → (e.status ≡ disputed)
      × (t.book ≡ record (s.book) {
        escrows =
            put s.book.escrows id
              (some (record e { status = if to_merchant then released else resolved }));
      })
      × (t.transfers
          ≡ paid env e.token (if to_merchant then e.merchant else e.customer) e.amount s.transfers)
      × (t.collateral ≡ s.collateral)
unfolding dispatch_resolve transfer_if_token_contract
dispatch_resolve-pays env id to_merchant e s t h r = ground arith
