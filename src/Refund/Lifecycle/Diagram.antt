-- ===== src/Refund/Lifecycle/Diagram.antt =====
-- The statuses that a refund runs through, and the steps of the ledger.
use facilpay_contracts.Prelude.{ℕ, ◌+◌, ◌≡◌, refl, ◌⊎◌, some}
use facilpay_contracts.Host.{Address, ok}
use facilpay_contracts.Prelude.Int.{ℤ}
use facilpay_contracts.Refund.Requests.{move_refund, enter_refund}
use facilpay_contracts.Refund.Storage.{Ledger}
use facilpay_contracts.Refund.Types.{
  RefundStatus, requested, approved, rejected, processed, pending_appeal, RefundRecord,
}

-- The diagram of the statuses.
pub data Change : RefundStatus → RefundStatus → Type 0 where
  approval : Change requested approved
  denial : Change requested pending_appeal
  expiry : Change requested rejected
  finality : Change pending_appeal rejected
  upheld : Change pending_appeal approved
  reversal : Change rejected approved
  processing : Change approved processed

-- The status at the end of some changes.
pub data Changes (from : RefundStatus) : RefundStatus → Type 0 where
  here : Changes from from
  next : {a b : RefundStatus} → Changes from a → Change a b → Changes from b

-- What a refund is for.
abbrev pub refund_terms : RefundRecord → ℕ × Address × Address × ℤ × ℤ × Address
refund_terms r =
    (r.payment_id, r.merchant, r.customer, r.amount, r.original_payment_amount, r.token)

-- One step of the ledger: a refund changes its status along the diagram and keeps its terms, or a
-- new one is entered, as requested or as approved.
pub data Step : Ledger → Ledger → Type 0 where
  moved :
      (id : ℕ) (r' : RefundRecord) {l m : Ledger} {old : RefundStatus} {r : RefundRecord}
      → l.refunds id ≡ some r
      → r.status ≡ old
      → Change old r'.status
      → r'.id ≡ r.id
      → refund_terms r' ≡ refund_terms r
      → move_refund old id r' l ≡ ok (tt, m)
      → Step l m
  entered :
      (r : RefundRecord) {l m : Ledger}
      → r.id ≡ l.counter + 1
      → (r.status ≡ requested) ⊎ (r.status ≡ approved)
      → enter_refund r l ≡ ok (tt, m)
      → Step l m

pub data Steps (l : Ledger) : Ledger → Type 0 where
  done : Steps l l
  then_step : {m n : Ledger} → Steps l m → Step m n → Steps l n

pub Steps-trans : {l m n : Ledger} → Steps l m → Steps m n → Steps l n
Steps-trans a done = a
Steps-trans a (then_step b s) = then_step (Steps-trans a b) s

pub one_step : {l m : Ledger} → Step l m → Steps l m
one_step s = then_step done s

pub Changes-trans : {a b c : RefundStatus} → Changes a b → Changes b c → Changes a c
Changes-trans x here = x
Changes-trans x (next y z) = next (Changes-trans x y) z

-- Nothing follows once a refund is processed.
pub processed_last : {b : RefundStatus} → Changes processed b → b ≡ processed
processed_last here = refl
processed_last (next c d) = absurd (stuck (processed_last c) d)
  where
    stuck : {a b : RefundStatus} → a ≡ processed → Change a b → ⊥
    stuck e approval = cc
    stuck e denial = cc
    stuck e expiry = cc
    stuck e finality = cc
    stuck e upheld = cc
    stuck e reversal = cc
    stuck e processing = cc
