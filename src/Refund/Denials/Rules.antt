-- ===== src/Refund/Denials/Rules.antt =====
-- What denials need, and who may decide.
use facilpay_contracts.Prelude.{
  ℕ, ◌+◌, ◌≤◌, ◌<◌, ◌≡◌, refl, ap, true, false, none, some, arith, unwrap_or, is_some, put,
}
use facilpay_contracts.Host.{Address, Bytes, Env, ok, is_ok, is_ok-eq-ok, u64_bound, saturating_u64}
use facilpay_contracts.Refund.Denials.{finalize_denial, is_denied, file_appeal}
use facilpay_contracts.Refund.Requests.{
  move_refund, is_over, approve_refund_internal, approve_refund,
}
use facilpay_contracts.Refund.Requests.Indexed.{Ledger-IsValid, move-Ledger-IsValid, move-is_ok}
use facilpay_contracts.Refund.Storage.{RefundStorage}
use facilpay_contracts.Refund.Types.{
  requested, approved, rejected, pending_appeal, status_code, RefundRecord,
}

module _ (env : Env) (s : RefundStorage) (v : Ledger-IsValid s.ledger) where
  -- A denial always becomes final: in a valid ledger, once the window for an appeal is over, anyone's
  -- call finalizes the denial of a refund that waits for one, if the number of rejected refunds fits
  -- its counter. The refund is rejected then, and no other refund changes.
  pub finalize_denial_possible :
      (id deadline : ℕ) (r : RefundRecord)
      → s.ledger.refunds id ≡ some r
      → r.status ≡ pending_appeal
      → r.appeal_deadline ≡ some deadline
      → deadline ≤ env.timestamp
      → s.ledger.index.count (status_code rejected) + 1 < u64_bound
      → (t : RefundStorage) × (finalize_denial env id s ≡ ok (tt, t))
        × (t.ledger.refunds
            ≡ put s.ledger.refunds id
                (some (record r { status = rejected; rejected_at = some env.timestamp })))
  unfolding finalize_denial
  finalize_denial_possible id deadline r h p d l b =
      let r' : RefundRecord = record r { status = rejected; rejected_at = some env.timestamp } in
      let c : status_code r.status ≡ status_code pending_appeal = ap status_code p in
      let (a, m, moves) =
        is_ok-eq-ok (move_refund pending_appeal id r' s.ledger)
          (move-is_ok v pending_appeal id r r' h c (λ e. ground arith) b) in
      (
        record s {
          ledger = m;
          appeals = record (s.appeals) {
            rejected_at = put s.appeals.rejected_at id (some env.timestamp);
          };
        },
        ground (arith, moves),
        (move-Ledger-IsValid v pending_appeal id r r' m h c refl moves).1,
      )

  -- Whoever signs may approve: in a valid ledger, the approval of a requested refund whose time is
  -- not over succeeds for any address that has signed, whether it is the admin of the contract or
  -- not, if the number of approved refunds fits its counter.
  pub approve_refund_by_anyone :
      (caller : Address) (id : ℕ) (r : RefundRecord)
      → env.authorized caller ≡ true
      → s.ledger.refunds id ≡ some r
      → r.status ≡ requested
      → is_over r.expires_at env.timestamp ≡ false
      → s.ledger.index.count (status_code approved) + 1 < u64_bound
      → (t : RefundStorage) × (approve_refund env caller id s ≡ ok (tt, t))
        × (t.ledger.refunds
            ≡ put s.ledger.refunds id
                (some (record r { status = approved; approved_at = some env.timestamp })))
  unfolding approve_refund approve_refund_internal
  approve_refund_by_anyone caller id r signed h p o b =
      let r' : RefundRecord = record r { status = approved; approved_at = some env.timestamp } in
      let c : status_code r.status ≡ status_code requested = ap status_code p in
      let (a, m, moves) =
        is_ok-eq-ok (move_refund requested id r' s.ledger)
          (move-is_ok v requested id r r' h c (λ e. ground arith) b) in
      (
        record s { ledger = m },
        ground (arith, moves),
        (move-Ledger-IsValid v requested id r r' m h c refl moves).1,
      )

-- An appeal that is filed comes from the customer who has signed, of a refund that is denied, and is
-- the first of that refund; no later one is filed, by anyone. It is filed within the window: for a
-- denial that waits, up to the deadline of the refund; for a refund that is rejected, up to the time
-- of the rejection and the window, a week unless it was set, cut off at the largest u64.
pub file_appeal-once :
    (env later : Env) (customer other : Address) (id x : ℕ) (reason reason' : Bytes)
    (r : RefundRecord) (s t : RefundStorage)
    → s.ledger.refunds id ≡ some r
    → file_appeal env customer id reason s ≡ ok (x, t)
    → (env.authorized customer ≡ true)
      × (r.customer ≡ customer)
      × (is_denied r.status ≡ true)
      × ((r.status ≡ pending_appeal)
          → (is_some r.appeal_deadline ≡ true) × (env.timestamp ≤ unwrap_or r.appeal_deadline 0))
      × ((r.status ≡ rejected)
          → (is_some (s.appeals.rejected_at id) ≡ true)
            × (env.timestamp
                ≤ saturating_u64
                    (unwrap_or (s.appeals.rejected_at id) 0 + unwrap_or s.appeals.window 604800)))
      × (s.appeals.by_refund id ≡ none)
      × (is_ok (file_appeal later other id reason' t) ≡ false)
unfolding file_appeal
file_appeal-once env later customer other id x reason reason' r s t h e = (
  ground arith,
  ground arith,
  ground arith,
  λ p. ground arith,
  λ p. ground arith,
  ground arith,
  ground arith,
)
