-- ===== src/Refund/Arbitration/Reopening.antt =====
-- A decision for the customer rewrites a refund behind the back of the ledger.
use facilpay_contracts.Prelude.{ℕ, ◌≡◌, ◌≢◌, true, some, arith, put}
use facilpay_contracts.Host.{Env, ok}
use facilpay_contracts.Refund.Arbitration.{settle_arbitration_stake}
use facilpay_contracts.Refund.Arbitration.Decisions.{trigger_arbitration_timeout}
use facilpay_contracts.Refund.Requests.Indexed.{status_code_injective, Ledger-IsValid}
use facilpay_contracts.Refund.StatusIndex.Valid.{some_of}
use facilpay_contracts.Refund.Storage.{Ledger, RefundStorage}
use facilpay_contracts.Refund.Types.{approved, status_code, RefundRecord, ArbitrationCase}

-- The index of a valid ledger tells the status of each refund.
indexed_status :
    (x y : Ledger) (id : ℕ) (r r' : RefundRecord)
    → Ledger-IsValid x
    → Ledger-IsValid y
    → y.index ≡ x.index
    → x.refunds id ≡ some r
    → y.refunds id ≡ some r'
    → status_code r.status ≡ status_code r'.status
indexed_status x y id r r' v w q h h' =
    let (i, at) =
      some_of (x.index.place id)
        (v.indexed.has_place id (status_code r.status) (ground (arith, h))) in
    let (inside, stands) = v.indexed.placed id (status_code r.status) i (ground (arith, h)) at in
    let (reads, placed) =
      w.indexed.listed (status_code r.status) i id (ground (arith, q, inside))
        (ground (arith, q, stands)) in
    ground (arith, reads, h')

-- In a valid ledger, a decision by time that succeeds, whoever calls, of a case that the default
-- decides for the customer and whose refund is not approved: the refund becomes approved whatever
-- other status it had, also if it was processed; the index by status does not change, and the ledger
-- is not valid any more.
pub trigger_arbitration_timeout-reopens :
    (env : Env) (case_id : ℕ) (c : ArbitrationCase) (r : RefundRecord) (s t : RefundStorage)
    → Ledger-IsValid s.ledger
    → s.arbitration.cases case_id ≡ some c
    → c.default_favor_customer ≡ true
    → s.ledger.refunds c.refund_id ≡ some r
    → r.status ≢ approved
    → trigger_arbitration_timeout env case_id s ≡ ok (tt, t)
    → (t.ledger.refunds ≡ put s.ledger.refunds c.refund_id (some (record r { status = approved })))
      × (t.ledger.index ≡ s.ledger.index)
      × ¬ Ledger-IsValid t.ledger
unfolding trigger_arbitration_timeout settle_arbitration_stake
trigger_arbitration_timeout-reopens env case_id c r s t v h d k n e =
    let p : t.ledger.refunds
        ≡ put s.ledger.refunds c.refund_id (some (record r { status = approved })) =
      ground (arith, h, d, k) in
    let q : t.ledger.index ≡ s.ledger.index = ground (arith, h, d, k) in
    let stays : Ledger-IsValid t.ledger → r.status ≡ approved = λ w.
      let now : t.ledger.refunds c.refund_id ≡ some (record r { status = approved }) =
        ground (arith, p) in
      status_code_injective r.status approved (
        indexed_status s.ledger t.ledger c.refund_id r (record r { status = approved }) v w q k
          now) in
    (p, q, λ w. n (stays w))
