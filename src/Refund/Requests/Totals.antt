-- ===== src/Refund/Requests/Totals.antt =====
-- What is processed for a payment stays within its amount.
use facilpay_contracts.Prelude.{
  ℕ, zero, suc, ◌+◌, ◌≤◌, ◌<◌, ◌≡◌, refl, sym, ap, ◌∙◌, ◌≢◌, inl, inr, Bool, ◌&&◌, Option, none,
  some, arith, ◌==◌, if◌then◌else◌, ==_iff, Bool-cases,
}
use facilpay_contracts.Host.{ok, >>=-eq-ok, saturating_i128}
use facilpay_contracts.Prelude.Int.{ℤ, pos, ◌+ℤ◌, ◌≤ℤ◌, +ℤ_zero, +ℤ_comm, +ℤ_assoc}
use facilpay_contracts.Refund.Requests.{
  total_part, total_loop, get_total_refunded_amount, can_refund_payment,
}
use facilpay_contracts.Refund.Storage.{Ledger, RefundStorage}
use facilpay_contracts.Refund.Types.{status_code, RefundRecord}

-- What a refund counts for among the processed refunds of a payment.
abbrev pub counted : ℕ → Option RefundRecord → ℤ
counted payment_id none = pos 0
counted payment_id (some r) =
    if r.payment_id == payment_id && (status_code r.status == 3) then r.amount else pos 0

abbrev pub sum_from : (ℕ → Option RefundRecord) → ℕ → ℕ → ℕ → ℤ
sum_from refunds payment_id zero id = pos 0
sum_from refunds payment_id (suc n) id =
    counted payment_id (refunds id) +ℤ sum_from refunds payment_id n (id + 1)

-- The sum of the processed refunds of a payment.
abbrev pub processed_total : Ledger → ℕ → ℤ
processed_total l payment_id = sum_from l.refunds payment_id l.counter 1

zero_+ℤ : (a : ℤ) → pos 0 +ℤ a ≡ a
unfolding ◌+ℤ◌
zero_+ℤ a = ground arith

total_part_reads :
    (o : Option RefundRecord) (payment_id : ℕ) (total : ℤ) (s t : RefundStorage) (a : ℤ)
    → total_part o payment_id total s ≡ ok (a, t)
    → (t ≡ s) × (a ≡ total +ℤ counted payment_id o)
total_part_reads none payment_id total s t a e = (ground arith, ground (arith, +ℤ_zero total))
total_part_reads (some r) payment_id total s t a e = (ground arith, ground (arith, +ℤ_zero total))

total_loop_reads :
    (refunds : ℕ → Option RefundRecord) (payment_id rounds id : ℕ) (total : ℤ) (s t : RefundStorage)
    (a : ℤ)
    → total_loop refunds payment_id rounds id total s ≡ ok (a, t)
    → (t ≡ s) × (a ≡ total +ℤ sum_from refunds payment_id rounds id)
total_loop_reads refunds payment_id zero id total s t a e =
    (ground arith, ground (arith, +ℤ_zero total))
total_loop_reads refunds payment_id (suc n) id total s t a e =
    let (x, u, part, rest) = >>=-eq-ok (total_part (refunds id) payment_id total) _ s e in
    let p = total_part_reads (refunds id) payment_id total s u x part in
    let q = total_loop_reads refunds payment_id n (id + 1) x u t a rest in
    (
      q.0 ∙ p.0,
      q.1
          ∙ ap (λ y. y +ℤ sum_from refunds payment_id n (id + 1)) p.1
          ∙ +ℤ_assoc total (counted payment_id (refunds id))
              (sum_from refunds payment_id n (id + 1)),
    )

-- The check of a refund against the payment changes nothing, and passes only if the refund and what
-- is processed already stay within the amount of the payment.
pub can_refund_payment_reads :
    (payment_id : ℕ) (amount original : ℤ) (s t : RefundStorage) (a : Bool)
    → can_refund_payment payment_id amount original s ≡ ok (a, t)
    → (t ≡ s) × (saturating_i128 (amount +ℤ processed_total s.ledger payment_id) ≤ℤ original)
unfolding can_refund_payment get_total_refunded_amount
can_refund_payment_reads payment_id amount original s t a e =
    let (x, u, part, rest) =
      >>=-eq-ok
        (λ (k : RefundStorage). total_loop k.ledger.refunds payment_id k.ledger.counter 1 (pos 0) k)
        _ s e in
    let p = total_loop_reads s.ledger.refunds payment_id s.ledger.counter 1 (pos 0) s u x part in
    ground (arith, p, zero_+ℤ (processed_total s.ledger payment_id))

into_last : (x c y z : ℤ) → c ≡ pos 0 → x ≡ z → x +ℤ y ≡ c +ℤ y +ℤ z
into_last x c y z h e = rw (h, e, zero_+ℤ y) (+ℤ_comm z y)

module _ (f g : ℕ → Option RefundRecord) (payment_id id : ℕ) (same : (j : ℕ) → j ≢ id → g j ≡ f j)
    (uncounted : counted payment_id (f id) ≡ pos 0) where
  sum_from-outside : (n k : ℕ) → id < k → sum_from g payment_id n k ≡ sum_from f payment_id n k
  sum_from-outside zero k h = refl
  sum_from-outside (suc n) k h =
      rw (same k (λ e. absurd (omega arith)))
        (ap (λ z. counted payment_id (f k) +ℤ z) (sum_from-outside n (k + 1) (omega arith)))

  -- The sum grows by what a refund that did not count comes to count for.
  pub sum_from-inside :
      (n k : ℕ)
      → k ≤ id
      → id < k + n
      → sum_from g payment_id n k ≡ sum_from f payment_id n k +ℤ counted payment_id (g id)
  sum_from-inside zero k h l = absurd (omega arith)
  sum_from-inside (suc n) k h l = elim (Bool-cases (k == id)) [
    | inl e ↦
        let q : k ≡ id = (==_iff k id).0 e in
        ap (λ z. counted payment_id (g k) +ℤ z) (sum_from-outside n (k + 1) (omega (arith, q)))
        ∙ into_last (counted payment_id (g k)) (counted payment_id (f k))
            (sum_from f payment_id n (k + 1)) (counted payment_id (g id))
            (ap (λ j. counted payment_id (f j)) q ∙ uncounted)
            (ap (λ j. counted payment_id (g j)) q)
    | inr e ↦
        let ne : k ≢ id = λ q. ground arith in
        rw (same k ne) (
          ap (λ z. counted payment_id (f k) +ℤ z)
            (sum_from-inside n (k + 1) (ground arith) (omega arith))
          ∙ sym (
              +ℤ_assoc (counted payment_id (f k)) (sum_from f payment_id n (k + 1))
                (counted payment_id (g id))))
  ]
