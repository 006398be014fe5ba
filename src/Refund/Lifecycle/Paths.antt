-- ===== src/Refund/Lifecycle/Paths.antt =====
-- What becomes of a refund over any calls.
use facilpay_contracts.Prelude.{
  ℕ, ◌≡◌, refl, sym, ap, ◌∙◌, subst, inl, inr, Bool, Option, some, List, [], ◌∷◌, arith, ◌==◌,
  Bool-cases, put,
}
use facilpay_contracts.Host.{Address, Env, after_cases}
use facilpay_contracts.Refund.Lifecycle.{
  LedgerCall, requests, approves, rejects, processes, finalizes, expires_stale, appeals_denial,
  resolves_appeal, after_call, after_calls,
}
use facilpay_contracts.Refund.Lifecycle.Diagram.{
  Change, Changes, here, next, refund_terms, Step, moved, entered, Steps, done, then_step,
  Steps-trans, one_step, Changes-trans, processed_last,
}
use facilpay_contracts.Refund.Lifecycle.Steps.{
  approve_refund-Step, reject_refund-Step, finalize_denial-Step, expire_stale_refund-Step,
  process_refund-Step, resolve_appeal-Steps, file_appeal-keeps, request_refund-Step,
}
use facilpay_contracts.Refund.Requests.Indexed.{
  Ledger-IsValid, move-Ledger-IsValid, enter-Ledger-IsValid,
}
use facilpay_contracts.Refund.Storage.{Ledger, RefundStorage}
use facilpay_contracts.Refund.Types.{processed, status_code, RefundRecord}

pub Step-Ledger-IsValid : {l m : Ledger} → Step l m → Ledger-IsValid l → Ledger-IsValid m
Step-Ledger-IsValid {l} {m} (moved id r' {old = old} {r = r} h o c n q e) v =
    (move-Ledger-IsValid v old id r r' m h (ap status_code o) n e).0
Step-Ledger-IsValid {l} {m} (entered r n o e) v = (enter-Ledger-IsValid v r m n e).0

-- A refund stays stored with its terms, and its status has moved along the diagram.
abbrev pub Follows : Ledger → Ledger → Type 0
Follows l m =
    (id : ℕ) (r : RefundRecord)
    → l.refunds id ≡ some r
    → (r' : RefundRecord) × (m.refunds id ≡ some r')
      × Changes r.status r'.status
      × (refund_terms r' ≡ refund_terms r)

Follows-put :
    (l : Ledger) (refunds : ℕ → Option RefundRecord) (id : ℕ) (r r' : RefundRecord)
    → refunds ≡ put l.refunds id (some r')
    → l.refunds id ≡ some r
    → Change r.status r'.status
    → refund_terms r' ≡ refund_terms r
    → (j : ℕ) (q : RefundRecord) → l.refunds j ≡ some q
    → (q' : RefundRecord) × (refunds j ≡ some q')
      × Changes q.status q'.status
      × (refund_terms q' ≡ refund_terms q)
Follows-put l refunds id r r' p h c n j q k = elim (Bool-cases (j == id)) [
  | inl e ↦
      let same : q ≡ r = ground (arith, h, k, e) in
      (
        r',
        ground (arith, p, e),
        subst (λ x. Changes x.status r'.status) (sym same) (next here c),
        n ∙ ap refund_terms (sym same),
      )
  | inr e ↦ (q, ground (arith, p, e, k), here, refl)
]

Step-Follows : {l m : Ledger} → Step l m → Ledger-IsValid l → Follows l m
Step-Follows {l} {m} (moved id r' {old = old} {r = r} h o c n q e) v =
    Follows-put l m.refunds id r r' (move-Ledger-IsValid v old id r r' m h (ap status_code o) n e).1
      h (subst (λ x. Change x r'.status) (sym o) c) q
Step-Follows {l} {m} (entered r n o e) v =
    let w = enter-Ledger-IsValid v r m n e in λ j q k. (q, ground (arith, w, k), here, refl)

Steps-keep : {l m : Ledger} → Steps l m → Ledger-IsValid l → Ledger-IsValid m × Follows l m
Steps-keep done v = (v, λ id r h. (r, h, here, refl))
Steps-keep (then_step b s) v =
    let (w, f) = Steps-keep b v in
    (
      Step-Ledger-IsValid s w,
      λ id r h.
          let (r1, h1, c1, n1) = f id r h in
          let (r2, h2, c2, n2) = Step-Follows s w id r1 h1 in
          (r2, h2, Changes-trans c1 c2, n2 ∙ n1),
    )

module _ (owns : Address → ℕ → Address → Bool) where
  after_call-Steps :
      (s : RefundStorage) (c : Env × LedgerCall)
      → Ledger-IsValid s.ledger
      → Steps s.ledger (after_call owns s c).ledger
  unfolding after_call
  after_call-Steps s (env, requests q) v =
      after_cases (λ k. Steps s.ledger k.ledger) s _ done
        λ x t e. one_step (request_refund-Step env owns q x s t e)
  after_call-Steps s (env, approves a id) v =
      after_cases (λ k. Steps s.ledger k.ledger) s _ done
        λ x t e. one_step (approve_refund-Step env a id s t e)
  after_call-Steps s (env, rejects a id) v =
      after_cases (λ k. Steps s.ledger k.ledger) s _ done
        λ x t e. one_step (reject_refund-Step env a id s t e)
  after_call-Steps s (env, processes a id) v =
      after_cases (λ k. Steps s.ledger k.ledger) s _ done
        λ x t e. one_step (process_refund-Step env a id s t e)
  after_call-Steps s (env, finalizes id) v =
      after_cases (λ k. Steps s.ledger k.ledger) s _ done
        λ x t e. one_step (finalize_denial-Step env id s t e)
  after_call-Steps s (env, expires_stale id) v =
      after_cases (λ k. Steps s.ledger k.ledger) s _ done
        λ x t e. one_step (expire_stale_refund-Step env id s t e)
  after_call-Steps s (env, appeals_denial a id reason) v =
      after_cases (λ k. Steps s.ledger k.ledger) s _ done
        λ x t e.
          subst (λ k. Steps s.ledger k) (sym (file_appeal-keeps env a id reason x s t e)) done
  after_call-Steps s (env, resolves_appeal a id uphold) v =
      after_cases (λ k. Steps s.ledger k.ledger) s _ done
        λ x t e. resolve_appeal-Steps env a id uphold s t v e

  after_calls-Steps :
      (s : RefundStorage) (cs : List (Env × LedgerCall))
      → Ledger-IsValid s.ledger
      → Steps s.ledger (after_calls owns s cs).ledger
  unfolding after_calls
  after_calls-Steps s [] v = done
  after_calls-Steps s (c ∷ cs) v =
      let first = after_call-Steps s c v in
      Steps-trans first (after_calls-Steps (after_call owns s c) cs (Steps-keep first v).0)

  -- From a valid ledger, over any calls of `LedgerCall`, by anyone and at any times: the ledger stays
  -- valid, so that the index lists exactly the refunds of each status; every refund stays stored with
  -- its payment, parties, amounts and token, and its status has moved along the diagram; what is
  -- processed stays so. (The calls of arbitration are none of these.)
  pub after_calls-follow :
      (s : RefundStorage) (cs : List (Env × LedgerCall)) (id : ℕ) (r : RefundRecord)
      → Ledger-IsValid s.ledger
      → s.ledger.refunds id ≡ some r
      → Ledger-IsValid (after_calls owns s cs).ledger
        × ((r' : RefundRecord) × ((after_calls owns s cs).ledger.refunds id ≡ some r')
            × Changes r.status r'.status
            × (refund_terms r' ≡ refund_terms r)
            × ((r.status ≡ processed) → r'.status ≡ processed))
  after_calls-follow s cs id r v h =
      let (w, f) = Steps-keep (after_calls-Steps s cs v) v in
      let (r', h', c, n) = f id r h in
      (w, (r', h', c, n, λ p. processed_last (subst (λ x. Changes x r'.status) p c)))
