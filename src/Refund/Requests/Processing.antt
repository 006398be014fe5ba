-- ===== src/Refund/Requests/Processing.antt =====
-- The processing of a refund.
use facilpay_contracts.Prelude.{
  ℕ, ◌<◌, ◌≡◌, refl, sym, ap, ◌∙◌, subst, inl, inr, some, arith, Option-cases, put,
}
use facilpay_contracts.Host.{Address, Env, ok, >>=-eq-ok, zoom-eq-ok, saturating_i128}
use facilpay_contracts.Prelude.Int.{ℤ, pos, negsuc, pos_part, ◌+ℤ◌, ◌≤ℤ◌, +ℤ_comm}
use facilpay_contracts.Refund.Limits.{use_quota, deduct_refund_fee}
use facilpay_contracts.Refund.Requests.{
  move_refund, can_refund_payment, process_approved, process_refund_internal, process_refund,
}
use facilpay_contracts.Refund.Requests.Indexed.{Ledger-IsValid, move-Ledger-IsValid}
use facilpay_contracts.Refund.Requests.Totals.{
  sum_from, processed_total, can_refund_payment_reads, sum_from-inside,
}
use facilpay_contracts.Refund.Storage.{Ledger, RefundStorage, on_limits}
use facilpay_contracts.Refund.Types.{approved, processed, status_code, RefundRecord}

deduct_refund_fee-keeps :
    (env : Env) (amount : ℤ) (token : Address) (s t : RefundStorage) (a : ℤ × ℤ)
    → deduct_refund_fee env amount token s ≡ ok (a, t)
    → t.ledger ≡ s.ledger
unfolding deduct_refund_fee
deduct_refund_fee-keeps env amount token s t a e = ground arith

process_approved-moves :
    (env : Env) (id : ℕ) (r : RefundRecord) (s t : RefundStorage)
    → process_approved env id r s ≡ ok (tt, t)
    → (saturating_i128 (r.amount +ℤ processed_total s.ledger r.payment_id)
        ≤ℤ r.original_payment_amount)
      × (move_refund approved id
            (record r { status = processed; processed_at = some env.timestamp })
            s.ledger
          ≡ ok (tt, t.ledger))
unfolding process_approved
process_approved-moves env id r s t e =
    let (b, s1, checks, rest1) =
      >>=-eq-ok (can_refund_payment r.payment_id r.amount r.original_payment_amount) _ s e in
    let (n, s2, takes, rest2) = >>=-eq-ok (deduct_refund_fee env r.amount r.token) _ s1 rest1 in
    let (v, s3, uses, rest3) =
      >>=-eq-ok (on_limits (use_quota env r.merchant r.amount)) _ s2 rest2 in
    let within =
      can_refund_payment_reads r.payment_id r.amount r.original_payment_amount s s1 b checks in
    let same : s3.ledger ≡ s.ledger =
      ap (λ k. k.ledger)
        (zoom-eq-ok (λ (k : RefundStorage). k.limits) (λ k x. record k { limits = x })
          (use_quota env r.merchant r.amount) s2 uses).2
      ∙ deduct_refund_fee-keeps env r.amount r.token s1 s2 n takes
      ∙ ap (λ k. k.ledger) within.0 in
    let (l, moves, ends) =
      zoom-eq-ok (λ (k : RefundStorage). k.ledger) (λ k x. record k { ledger = x })
        (move_refund approved id
          (record r { status = processed; processed_at = some env.timestamp }))
        s3 rest3 in
    (
      within.1,
      subst
          (λ k.
            move_refund approved id
              (record r { status = processed; processed_at = some env.timestamp }) k
            ≡ ok (tt, t.ledger))
          same
          (subst
            (λ (k : Ledger).
              move_refund approved id
                (record r { status = processed; processed_at = some env.timestamp }) s3.ledger
              ≡ ok (tt, k))
            (sym (ap (λ (k : RefundStorage). k.ledger) ends)) moves),
    )

-- What a processing does to the ledger.
pub process_refund_internal-moves :
    (env : Env) (id : ℕ) (s t : RefundStorage)
    → process_refund_internal env id s ≡ ok (tt, t)
    → (r : RefundRecord) × (s.ledger.refunds id ≡ some r)
      × (status_code r.status ≡ 1)
      × (saturating_i128 (r.amount +ℤ processed_total s.ledger r.payment_id)
          ≤ℤ r.original_payment_amount)
      × (move_refund approved id
            (record r { status = processed; processed_at = some env.timestamp })
            s.ledger
          ≡ ok (tt, t.ledger))
unfolding process_refund_internal
process_refund_internal-moves env id s t e = elim (Option-cases (s.ledger.refunds id)) [
  | inl n ↦ absurd (ground (arith, n))
  | inr h ↦
      let m = process_approved-moves env id h.0 s t (ground (arith, h.1)) in
      (h.0, h.1, ground (arith, h.1), m.0, m.1)
]

saturating_below :
    (z bound : ℤ)
    → pos_part bound < 170141183460469231731687303715884105727
    → saturating_i128 z ≤ℤ bound
    → z ≤ℤ bound
saturating_below (pos n) bound h l = ground arith
saturating_below (negsuc n) bound h l = ground arith

-- In a valid ledger, where the amount of the payment that the request gave is less than the largest
-- i128: a processing that succeeds, by anyone who signs, is of an approved refund. It adds the amount
-- of the refund to what is processed for its payment, and that sum stays within the amount of the
-- payment; of the refunds, only the status and the time of this one change.
pub process_refund-within :
    (env : Env) (admin : Address) (id : ℕ) (r : RefundRecord) (s t : RefundStorage)
    → Ledger-IsValid s.ledger
    → s.ledger.refunds id ≡ some r
    → pos_part r.original_payment_amount < 170141183460469231731687303715884105727
    → process_refund env admin id s ≡ ok (tt, t)
    → (r.status ≡ approved)
      × (t.ledger.refunds
          ≡ put s.ledger.refunds id
              (some (record r { status = processed; processed_at = some env.timestamp })))
      × (processed_total t.ledger r.payment_id ≡ processed_total s.ledger r.payment_id +ℤ r.amount)
      × (processed_total t.ledger r.payment_id ≤ℤ r.original_payment_amount)
unfolding process_refund
process_refund-within env admin id r s t v h b e =
    let (q, hq, c, within, moves) = process_refund_internal-moves env id s t (ground arith) in
    let same : q ≡ r = ground (arith, h, hq) in
    let q' : RefundRecord = record q { status = processed; processed_at = some env.timestamp } in
    let m = move-Ledger-IsValid v approved id q q' t.ledger hq c refl moves in
    let grows = grown q same hq c m.1 m.2 in
    (
      ground (arith, same, c),
      subst
          (λ (k : RefundRecord).
            t.ledger.refunds
            ≡ put s.ledger.refunds id
                (some (record k { status = processed; processed_at = some env.timestamp })))
          same m.1,
      grows,
      subst (λ z. z ≤ℤ r.original_payment_amount) (sym grows)
          (subst (λ z. z ≤ℤ r.original_payment_amount) (+ℤ_comm r.amount _)
            (saturating_below _ _ b (
              subst
                (λ (k : RefundRecord).
                  saturating_i128 (k.amount +ℤ processed_total s.ledger k.payment_id)
                  ≤ℤ k.original_payment_amount)
                same within))),
    )
  where
    grown :
        (q : RefundRecord)
        → q ≡ r
        → s.ledger.refunds id ≡ some q
        → status_code q.status ≡ 1
        → t.ledger.refunds
          ≡ put s.ledger.refunds id
              (some (record q { status = processed; processed_at = some env.timestamp }))
        → t.ledger.counter ≡ s.ledger.counter
        → processed_total t.ledger r.payment_id ≡ processed_total s.ledger r.payment_id +ℤ r.amount
    grown q same hq c p n =
        let k = v.numbered id q hq in
        let w : RefundRecord = record q { status = processed; processed_at = some env.timestamp } in
        subst
          (λ (x : RefundRecord).
            processed_total t.ledger x.payment_id
            ≡ processed_total s.ledger x.payment_id +ℤ x.amount)
          same
          (subst
            (λ x.
              sum_from t.ledger.refunds q.payment_id x 1
              ≡ processed_total s.ledger q.payment_id +ℤ q.amount)
            (sym n)
            (subst
              (λ f.
                sum_from f q.payment_id s.ledger.counter 1
                ≡ processed_total s.ledger q.payment_id +ℤ q.amount)
              (sym p)
              (sum_from-inside s.ledger.refunds (put s.ledger.refunds id (some w)) q.payment_id id
                  (λ j ne. ground arith) (ground (arith, hq, c)) s.ledger.counter 1
                  (omega (arith, k)) (omega (arith, k))
                ∙ ap (λ z. processed_total s.ledger q.payment_id +ℤ z) (ground arith))))
