-- ===== src/Refund/Lifecycle/Steps.antt =====
-- Each call moves the ledger by steps.
use facilpay_contracts.Prelude.{
  ℕ, ◌+◌, ◌≡◌, refl, sym, ap, ◌∙◌, subst, inl, inr, Bool, true, false, some, arith, ◌==◌,
  if◌then◌else◌, Bool-cases, Option-cases, put,
}
use facilpay_contracts.Host.{
  Address, Bytes, Env, ok, ◌>>=◌, modify, >>=-eq-ok, zoom-eq-ok, saturating_u64,
}
use facilpay_contracts.Refund.Denials.{
  appeal_window, begin_refund_rejection, reject_refund, finalize_denial, expire_stale_refund,
  is_denied, file_appeal, uphold_appeal, deny_appeal, resolve_appeal,
}
use facilpay_contracts.Refund.Lifecycle.Diagram.{
  Change, approval, denial, expiry, finality, upheld, reversal, processing, refund_terms, Step,
  moved, entered, Steps, done, then_step, one_step,
}
use facilpay_contracts.Refund.Requests.{
  move_refund, can_refund_payment, initial_status, ttl_end, RefundRequest, check_arguments,
  check_limits, check_request, new_refund, store_request, create_refund, request_refund,
  approve_refund_internal, approve_refund, process_refund_internal, process_refund,
}
use facilpay_contracts.Refund.Requests.Indexed.{status_code_injective, Ledger-IsValid}
use facilpay_contracts.Refund.Requests.Processing.{process_refund_internal-moves}
use facilpay_contracts.Refund.Requests.Totals.{can_refund_payment_reads}
use facilpay_contracts.Refund.Storage.{RefundStorage, on_ledger, on_appeals}
use facilpay_contracts.Refund.Types.{
  RefundStatus, requested, approved, rejected, processed, pending_appeal, status_code, RefundRecord,
  RefundAppeal,
}

-- What a call that changes one status does to the ledger.
abbrev Moves :
    RefundStatus → ℕ → RefundStorage → RefundStorage → (RefundRecord → RefundRecord) → Type 0
Moves old id s t f =
    (r : RefundRecord) × (s.ledger.refunds id ≡ some r)
    × (status_code r.status ≡ status_code old)
    × (move_refund old id (f r) s.ledger ≡ ok (tt, t.ledger))

Moves-Step :
    (old : RefundStatus) (id : ℕ) (s t : RefundStorage) (f : RefundRecord → RefundRecord)
    → Moves old id s t f
    → ((r : RefundRecord)
        → Change old (f r).status × ((f r).id ≡ r.id) × (refund_terms (f r) ≡ refund_terms r))
    → Step s.ledger t.ledger
Moves-Step old id s t f (r, h, c, e) k =
    moved id (f r) h (status_code_injective r.status old c) (k r).0 (k r).1 (k r).2 e

module _ (env : Env) where
  pub approve_refund-Step :
      (admin : Address) (id : ℕ) (s t : RefundStorage)
      → approve_refund env admin id s ≡ ok (tt, t)
      → Step s.ledger t.ledger
  unfolding approve_refund approve_refund_internal
  approve_refund-Step admin id s t e = elim (Option-cases (s.ledger.refunds id)) [
    | inl n ↦ absurd (ground (arith, n))
    | inr h ↦
        Moves-Step requested id s t
          (λ r. record r { status = approved; approved_at = some env.timestamp })
          (h.0, h.1, ground (arith, h.1), ground (arith, h.1)) λ r. (approval, refl, refl)
  ]

  pub reject_refund-Step :
      (admin : Address) (id : ℕ) (s t : RefundStorage)
      → reject_refund env admin id s ≡ ok (tt, t)
      → Step s.ledger t.ledger
  unfolding reject_refund begin_refund_rejection
  reject_refund-Step admin id s t e = elim (Option-cases (s.ledger.refunds id)) [
    | inl n ↦ absurd (ground (arith, n))
    | inr h ↦
        Moves-Step requested id s t
          (λ r. record r {
            status = pending_appeal;
            rejected_by = some admin;
            appeal_deadline = some (saturating_u64 (env.timestamp + appeal_window s.appeals));
          })
          (h.0, h.1, ground (arith, h.1), ground (arith, h.1)) λ r. (denial, refl, refl)
  ]

  pub finalize_denial-Step :
      (id : ℕ) (s t : RefundStorage)
      → finalize_denial env id s ≡ ok (tt, t)
      → Step s.ledger t.ledger
  unfolding finalize_denial
  finalize_denial-Step id s t e = elim (Option-cases (s.ledger.refunds id)) [
    | inl n ↦ absurd (ground (arith, n))
    | inr h ↦
        Moves-Step pending_appeal id s t
          (λ r. record r { status = rejected; rejected_at = some env.timestamp })
          (h.0, h.1, ground (arith, h.1), ground (arith, h.1)) λ r. (finality, refl, refl)
  ]

  pub expire_stale_refund-Step :
      (id : ℕ) (s t : RefundStorage)
      → expire_stale_refund env id s ≡ ok (tt, t)
      → Step s.ledger t.ledger
  unfolding expire_stale_refund
  expire_stale_refund-Step id s t e = elim (Option-cases (s.ledger.refunds id)) [
    | inl n ↦ absurd (ground (arith, n))
    | inr h ↦
        Moves-Step requested id s t
          (λ r. record r { status = rejected; rejected_at = some env.timestamp })
          (h.0, h.1, ground (arith, h.1), ground (arith, h.1)) λ r. (expiry, refl, refl)
  ]

  process_refund_internal-Step :
      (id : ℕ) (s t : RefundStorage)
      → process_refund_internal env id s ≡ ok (tt, t)
      → Step s.ledger t.ledger
  process_refund_internal-Step id s t e =
      let (r, h, c, within, e') = process_refund_internal-moves env id s t e in
      moved id (record r { status = processed; processed_at = some env.timestamp }) h
        (status_code_injective r.status approved c) processing refl refl e'

  pub process_refund-Step :
      (admin : Address) (id : ℕ) (s t : RefundStorage)
      → process_refund env admin id s ≡ ok (tt, t)
      → Step s.ledger t.ledger
  unfolding process_refund
  process_refund-Step admin id s t e = process_refund_internal-Step id s t (ground arith)

  denied_change : (st : RefundStatus) → is_denied st ≡ true → Change st approved
  denied_change requested e = cc
  denied_change approved e = cc
  denied_change rejected e = reversal
  denied_change processed e = cc
  denied_change pending_appeal e = upheld

  uphold_appeal-Steps :
      (id : ℕ) (s t : RefundStorage)
      → Ledger-IsValid s.ledger
      → uphold_appeal env id s ≡ ok (tt, t)
      → Steps s.ledger t.ledger
  unfolding uphold_appeal
  uphold_appeal-Steps id s t v e = elim (Option-cases (s.ledger.refunds id)) [
    | inl n ↦ absurd (ground (arith, n))
    | inr (r, h) ↦
        let (u, s1, moves, rest) =
          >>=-eq-ok (on_ledger (move_refund r.status r.id (record r { status = approved })))
            (λ _. process_refund_internal env r.id) s (ground (arith, h)) in
        let (l, m, ends) =
          zoom-eq-ok (λ (k : RefundStorage). k.ledger) (λ k x. record k { ledger = x })
            (move_refund r.status r.id (record r { status = approved })) s moves in
        then_step
          (one_step (
            moved r.id (record r { status = approved })
              (ap s.ledger.refunds (v.numbered id r h).2 ∙ h) refl
              (denied_change r.status (ground (arith, h))) refl refl
              (subst
                (λ (k : RefundStorage).
                  move_refund r.status r.id (record r { status = approved }) s.ledger
                  ≡ ok (tt, k.ledger))
                (sym ends) m)))
          (process_refund_internal-Step r.id s1 t rest)
  ]

  deny_appeal-Steps :
      (id : ℕ) (s t : RefundStorage)
      → Ledger-IsValid s.ledger
      → deny_appeal env id s ≡ ok (tt, t)
      → Steps s.ledger t.ledger
  unfolding deny_appeal
  deny_appeal-Steps id s t v e = elim (Option-cases (s.ledger.refunds id)) [
    | inl n ↦ absurd (ground (arith, n))
    | inr (r, h) ↦ elim (Bool-cases (status_code r.status == 4)) [
      | inl c ↦ one_step (
          moved r.id (record r { status = rejected; rejected_at = some env.timestamp })
            (ap s.ledger.refunds (v.numbered id r h).2 ∙ h)
            (status_code_injective r.status pending_appeal (ground arith)) finality refl refl
            (ground (arith, h, c)))
      | inr c ↦
          let same : s.ledger ≡ t.ledger = ground (arith, h, c) in
          subst (λ k. Steps s.ledger k) same done
    ]
  ]

  resolve_appeal-runs :
      (admin : Address) (appeal_id : ℕ) (uphold : Bool) (a : RefundAppeal) (s t : RefundStorage)
      → s.appeals.appeals appeal_id ≡ some a
      → resolve_appeal env admin appeal_id uphold s ≡ ok (tt, t)
      → (u : RefundStorage) × ((if uphold
              then uphold_appeal env a.refund_id
              else deny_appeal env a.refund_id)
            s
          ≡ ok (tt, u))
        × (t.ledger ≡ u.ledger)
  unfolding resolve_appeal
  resolve_appeal-runs admin appeal_id uphold a s t h e =
      let records = λ (b : Unit {0}). on_appeals (
        modify (λ k. record k {
          appeals =
              put k.appeals appeal_id (some (record a { resolved = true; outcome = some uphold }));
        })) in
      let run : ((if uphold then uphold_appeal env a.refund_id else deny_appeal env a.refund_id)
              >>= records)
            s
          ≡ ok (tt, t) =
        ground (arith, h) in
      let (x, u, decides, rest) =
        >>=-eq-ok (if uphold then uphold_appeal env a.refund_id else deny_appeal env a.refund_id)
          records s run in
      (u, decides, ground arith)

  pub resolve_appeal-Steps :
      (admin : Address) (appeal_id : ℕ) (uphold : Bool) (s t : RefundStorage)
      → Ledger-IsValid s.ledger
      → resolve_appeal env admin appeal_id uphold s ≡ ok (tt, t)
      → Steps s.ledger t.ledger
  unfolding resolve_appeal
  resolve_appeal-Steps admin appeal_id uphold s t v e =
      elim (Option-cases (s.appeals.appeals appeal_id)) [
        | inl n ↦ absurd (ground (arith, n))
        | inr (a, h) ↦
            decided a.refund_id uphold (resolve_appeal-runs admin appeal_id uphold a s t h e)
      ]
    where
      decided :
          (id : ℕ) (b : Bool)
          → (u : RefundStorage) × ((if b then uphold_appeal env id else deny_appeal env id) s
              ≡ ok (tt, u))
            × (t.ledger ≡ u.ledger)
          → Steps s.ledger t.ledger
      decided id true (u, k, same) =
          subst (λ x. Steps s.ledger x) (sym same) (uphold_appeal-Steps id s u v k)
      decided id false (u, k, same) =
          subst (λ x. Steps s.ledger x) (sym same) (deny_appeal-Steps id s u v k)

  pub file_appeal-keeps :
      (customer : Address) (id : ℕ) (reason : Bytes) (x : ℕ) (s t : RefundStorage)
      → file_appeal env customer id reason s ≡ ok (x, t)
      → t.ledger ≡ s.ledger
  unfolding file_appeal
  file_appeal-keeps customer id reason x s t e = ground arith

  module _ (owns : Address → ℕ → Address → Bool) where
    check_arguments_reads :
        (q : RefundRequest) (s t : RefundStorage) → check_arguments owns q s ≡ ok (tt, t) → t ≡ s
    unfolding check_arguments
    check_arguments_reads q s t e = ground arith

    check_limits-keeps :
        (q : RefundRequest) (s t : RefundStorage)
        → check_limits env q s ≡ ok (tt, t)
        → t.ledger ≡ s.ledger
    unfolding check_limits
    check_limits-keeps q s t e = ground arith

    check_request-keeps :
        (q : RefundRequest) (s t : RefundStorage)
        → check_request owns env q s ≡ ok (tt, t)
        → t.ledger ≡ s.ledger
    unfolding check_request
    check_request-keeps q s t e =
        let (a, s1, arguments, rest1) = >>=-eq-ok (check_arguments owns q) _ s e in
        let (b, s2, within, rest2) =
          >>=-eq-ok (can_refund_payment q.payment_id q.amount q.original_payment_amount)
            (λ _. check_limits env q) s1 rest1 in
        check_limits-keeps q s2 t rest2
        ∙ ap (λ k. k.ledger)
            ((can_refund_payment_reads q.payment_id q.amount q.original_payment_amount s1 s2 b
                within).0
              ∙ check_arguments_reads q s s1 arguments)

    store_request-Step :
        (q : RefundRequest) (x : ℕ) (s t : RefundStorage)
        → store_request env q false s ≡ ok (x, t)
        → Step s.ledger t.ledger
    unfolding store_request
    store_request-Step q x s t e =
        let status = initial_status false q.merchant q.amount s.policies in
        entered
          (new_refund env q (s.ledger.counter + 1) status
            (ttl_end env.timestamp s.limits.ttl_config))
          refl (ground arith) (ground arith)

    pub request_refund-Step :
        (q : RefundRequest) (x : ℕ) (s t : RefundStorage)
        → request_refund owns env q s ≡ ok (x, t)
        → Step s.ledger t.ledger
    unfolding request_refund create_refund
    request_refund-Step q x s t e =
        let (a, u, checks, stores) =
          >>=-eq-ok (check_request owns env q) (λ _. store_request env q false) s (ground arith) in
        subst (λ k. Step k t.ledger) (check_request-keeps q s u checks)
          (store_request-Step q x u t stores)
