-- ===== src/Payment/Bridge/Calls.antt =====
-- The steps of an escrowed payment, contracts/payment/src/lib.rs, up to their calls of the escrow
-- contract, contracts/escrow/src/lib.rs.
use facilpay_contracts.Prelude.{ℕ, ◌≡◌, refl, ◌⊎◌, Bool, true, false, not, none, some, arith, put}
use facilpay_contracts.Escrow.Dispute.{internal_resolve_dispute, resolve_dispute}
use facilpay_contracts.Escrow.Refund.{refund_escrow}
use facilpay_contracts.Escrow.Release.{internal_release_escrow, release_escrow}
use facilpay_contracts.Escrow.Storage.{Storage, Call}
use facilpay_contracts.Host.{Address, Env, Outcome, ok, err, trap}
use facilpay_contracts.Payment.Bridge.{
  closed, completed, cancelled, is_pending, PaymentRecord, EscrowedPayment, EscrowedPaymentDispute,
  Bridges, called, keep_escrow, try_escrow, is_unresolved, complete_escrowed_payment,
  cancel_escrowed_payment, ruled, resolve_escrowed_payment_dispute,
}
use facilpay_contracts.Payment.Errors.{Error}

keep_escrow-eq-ok :
    {E : Type 0} (at : Address) (b c : Bridges) (o : Outcome E (Unit × Storage))
    → keep_escrow at b o ≡ ok (tt, c)
    → (t : Storage) × (o ≡ ok (tt, t))
      × (c ≡ record b { escrow_contracts = put b.escrow_contracts at (some t) })
keep_escrow-eq-ok at b c (ok (x, t)) h = (t, refl, cc)
keep_escrow-eq-ok at b c (err e) h = cc
keep_escrow-eq-ok at b c trap h = cc

-- A call of an escrow contract that succeeds keeps that contract's new storage.
pub try_escrow-keeps :
    (env : Env) (at : Address) (call : Env → Call Unit) (b c : Bridges) (s : Storage)
    → b.escrow_contracts at ≡ some s
    → try_escrow env at call b ≡ ok (tt, c)
    → (t : Storage) × (call (called env at) s ≡ ok (tt, t))
      × (c ≡ record b { escrow_contracts = put b.escrow_contracts at (some t) })
unfolding try_escrow
try_escrow-keeps env at call b c s h r =
    keep_escrow-eq-ok at b c (call (called env at) s) (ground arith)

abbrev then_modify :
    Outcome Error (Unit × Bridges) → (Bridges → Bridges) → Outcome Error (Unit × Bridges)
then_modify (ok r) f = ok (tt, f r.1)
then_modify (err e) f = err e
then_modify trap f = trap

then_modify-eq-ok :
    (o : Outcome Error (Unit × Bridges)) (f : Bridges → Bridges) (c : Bridges)
    → then_modify o f ≡ ok (tt, c)
    → (d : Bridges) × (o ≡ ok (tt, d)) × (c ≡ f d)
then_modify-eq-ok (ok (x, d)) f c h = (d, refl, cc)
then_modify-eq-ok (err e) f c h = cc
then_modify-eq-ok trap f c h = cc

-- A completion that succeeds, up to its call of the escrow contract.
pub complete_escrowed_payment-calls :
    (env : Env) (admin : Address) (id : ℕ) (p : PaymentRecord) (bridge : EscrowedPayment)
    (b c : Bridges)
    → b.payments id ≡ some p
    → b.escrowed_payments id ≡ some bridge
    → complete_escrowed_payment env admin id b ≡ ok (tt, c)
    → (is_pending p.status ≡ true)
      × (is_unresolved (b.disputes id) ≡ false)
      × (d : Bridges) × (try_escrow env bridge.escrow_contract
            (λ inner.
              release_escrow inner env.current_contract bridge.escrow_id
                bridge.auto_release_on_complete)
            b
          ≡ ok (tt, d))
      × (c ≡ record d { payments = put d.payments id (some (record p { status = completed })) })
unfolding complete_escrowed_payment
complete_escrowed_payment-calls env admin id p bridge b c h h' r =
    let (d, tried, stored) =
      then_modify-eq-ok
        (try_escrow env bridge.escrow_contract
          (λ inner.
            release_escrow inner env.current_contract bridge.escrow_id
              bridge.auto_release_on_complete)
          b)
        (λ d. record d { payments = put d.payments id (some (record p { status = completed })) }) c
        (ground arith) in
    (ground arith, ground arith, d, tried, stored)

pub release_escrow-calls :
    (env : Env) (admin : Address) (id : ℕ) (early : Bool) (s t : Storage)
    → release_escrow env admin id early s ≡ ok (tt, t)
    → internal_release_escrow env id early none s ≡ ok (tt, t)
unfolding release_escrow
release_escrow-calls env admin id early s t r = ground arith

pub resolve_dispute-calls :
    (env : Env) (admin : Address) (id : ℕ) (to_merchant : Bool) (s t : Storage)
    → resolve_dispute env admin id to_merchant s ≡ ok (tt, t)
    → internal_resolve_dispute env id to_merchant s ≡ ok (tt, t)
unfolding resolve_dispute
resolve_dispute-calls env admin id to_merchant s t r = ground arith

-- A cancellation that succeeds, up to its call of the escrow contract.
pub cancel_escrowed_payment-calls :
    (env : Env) (caller : Address) (id : ℕ) (p : PaymentRecord) (bridge : EscrowedPayment)
    (b c : Bridges)
    → b.payments id ≡ some p
    → b.escrowed_payments id ≡ some bridge
    → cancel_escrowed_payment env caller id b ≡ ok (tt, c)
    → (env.authorized caller ≡ true)
      × (is_pending p.status ≡ true)
      × ((p.customer ≡ caller) ⊎ (p.merchant ≡ caller))
      × (is_unresolved (b.disputes id) ≡ false)
      × (d : Bridges) × (try_escrow env bridge.escrow_contract
            (λ inner. refund_escrow inner caller bridge.escrow_id)
            b
          ≡ ok (tt, d))
      × (c ≡ record d { payments = put d.payments id (some (record p { status = cancelled })) })
unfolding cancel_escrowed_payment
cancel_escrowed_payment-calls env caller id p bridge b c h h' r =
    let (d, tried, stored) =
      then_modify-eq-ok
        (try_escrow env bridge.escrow_contract
          (λ inner. refund_escrow inner caller bridge.escrow_id) b)
        (λ d. record d { payments = put d.payments id (some (record p { status = cancelled })) }) c
        (ground arith) in
    (ground arith, ground arith, ground arith, ground arith, d, tried, stored)

-- A resolution that succeeds, up to its call of the escrow contract.
pub resolve_escrowed_payment_dispute-calls :
    (env : Env) (admin : Address) (id : ℕ) (favor_customer : Bool) (p : PaymentRecord)
    (bridge : EscrowedPayment) (x : EscrowedPaymentDispute) (b c : Bridges)
    → b.payments id ≡ some p
    → b.escrowed_payments id ≡ some bridge
    → b.disputes id ≡ some x
    → resolve_escrowed_payment_dispute env admin id favor_customer b ≡ ok (tt, c)
    → (is_pending p.status ≡ true)
      × (x.resolved ≡ false)
      × (d : Bridges) × (try_escrow env bridge.escrow_contract
            (λ inner. resolve_dispute inner admin bridge.escrow_id (not favor_customer))
            b
          ≡ ok (tt, d))
      × (c ≡ record d {
        payments = put d.payments id (some (ruled favor_customer p));
        disputes = put d.disputes id (some (closed env favor_customer x));
      })
unfolding resolve_escrowed_payment_dispute
resolve_escrowed_payment_dispute-calls env admin id favor_customer p bridge x b c h h' h'' r =
    let (d, tried, stored) =
      then_modify-eq-ok
        (try_escrow env bridge.escrow_contract
          (λ inner. resolve_dispute inner admin bridge.escrow_id (not favor_customer)) b)
        (λ d. record d {
          payments = put d.payments id (some (ruled favor_customer p));
          disputes = put d.disputes id (some (closed env favor_customer x));
        })
        c (ground arith) in
    (ground arith, ground arith, d, tried, stored)
