-- ===== src/Escrow/Lifecycle/History.antt =====
-- What an escrow can become over any calls.
use facilpay_contracts.Prelude.{ℕ, ◌≡◌, true, some, List, [], ◌∷◌}
use facilpay_contracts.Escrow.Lifecycle.{
  EscrowCall, creates, creates_signed, creates_child, approves, releases, refunds, disputes,
  resolves, expires, extends, queues, runs_queued, cancels_queued, executes, divides, funds,
  pays_part, after_call, after_calls,
}
use facilpay_contracts.Escrow.Lifecycle.Creations.{
  Numbered, Evolves, Evolves-refl, Moves-Evolves, Evolves-trans, create_escrow-Evolves,
  create_escrow_with_multisig-Evolves, create_child_escrow-Evolves,
}
use facilpay_contracts.Escrow.Lifecycle.Moves.{may_become, terms}
use facilpay_contracts.Escrow.Lifecycle.Steps.{
  refund_escrow-Moves, expire_escrow-Moves, dispute_escrow-Moves,
}
use facilpay_contracts.Escrow.Lifecycle.Wrapped.{
  extend_escrow_expiry-Moves, release_escrow-Moves, resolve_dispute-Moves,
  execute_queued_action-Moves, execute_action-Moves, approve_escrow_release-Moves,
  queue_action-Moves, cancel_queued_action-Moves, create_sub_account-Moves, fund_sub_account-Moves,
  release_sub_account-Moves,
}
use facilpay_contracts.Escrow.Storage.{Storage}
use facilpay_contracts.Escrow.Types.{Escrow}
use facilpay_contracts.Host.{Env, after_cases}

after_call-Evolves : (s : Storage) (c : Env × EscrowCall) → Numbered s → Evolves s (after_call s c)
unfolding after_call
after_call-Evolves s (env, creates r) n =
    after_cases (Evolves s) s _ (Evolves-refl s n) λ x t e. create_escrow-Evolves env r x s t n e
after_call-Evolves s (env, creates_signed r m) n =
    after_cases (Evolves s) s _ (Evolves-refl s n)
      λ x t e. create_escrow_with_multisig-Evolves env r m x s t n e
after_call-Evolves s (env, creates_child a parent amount token customer merchant) n =
    after_cases (Evolves s) s _ (Evolves-refl s n)
      λ x t e. create_child_escrow-Evolves env a parent amount token customer merchant x s t n e
after_call-Evolves s (env, approves a id) n =
    after_cases (Evolves s) s _ (Evolves-refl s n)
      λ x t e. Moves-Evolves s t n (approve_escrow_release-Moves env a id s t e)
after_call-Evolves s (env, releases a id early) n =
    after_cases (Evolves s) s _ (Evolves-refl s n)
      λ x t e. Moves-Evolves s t n (release_escrow-Moves env a id early s t e)
after_call-Evolves s (env, refunds a id) n =
    after_cases (Evolves s) s _ (Evolves-refl s n)
      λ x t e. Moves-Evolves s t n (refund_escrow-Moves env a id s t e)
after_call-Evolves s (env, disputes a id) n =
    after_cases (Evolves s) s _ (Evolves-refl s n)
      λ x t e. Moves-Evolves s t n (dispute_escrow-Moves env a id s t e)
after_call-Evolves s (env, resolves a id to_merchant) n =
    after_cases (Evolves s) s _ (Evolves-refl s n)
      λ x t e. Moves-Evolves s t n (resolve_dispute-Moves env a id to_merchant s t e)
after_call-Evolves s (env, expires id) n =
    after_cases (Evolves s) s _ (Evolves-refl s n)
      λ x t e. Moves-Evolves s t n (expire_escrow-Moves env id s t e)
after_call-Evolves s (env, extends a id expiry) n =
    after_cases (Evolves s) s _ (Evolves-refl s n)
      λ x t e. Moves-Evolves s t n (extend_escrow_expiry-Moves env a id expiry s t e)
after_call-Evolves s (env, queues a id kind payload) n =
    after_cases (Evolves s) s _ (Evolves-refl s n)
      λ x t e. Moves-Evolves s t n (queue_action-Moves env a id kind payload x s t e)
after_call-Evolves s (env, runs_queued id) n =
    after_cases (Evolves s) s _ (Evolves-refl s n)
      λ x t e. Moves-Evolves s t n (execute_queued_action-Moves env id s t e)
after_call-Evolves s (env, cancels_queued a id) n =
    after_cases (Evolves s) s _ (Evolves-refl s n)
      λ x t e. Moves-Evolves s t n (cancel_queued_action-Moves env a id s t e)
after_call-Evolves s (env, executes id) n =
    after_cases (Evolves s) s _ (Evolves-refl s n)
      λ x t e. Moves-Evolves s t n (execute_action-Moves env id s t e)
after_call-Evolves s (env, divides a id label amount fee) n =
    after_cases (Evolves s) s _ (Evolves-refl s n)
      λ x t e. Moves-Evolves s t n (create_sub_account-Moves env a id label amount fee x s t e)
after_call-Evolves s (env, funds a id sub_id amount) n =
    after_cases (Evolves s) s _ (Evolves-refl s n)
      λ x t e. Moves-Evolves s t n (fund_sub_account-Moves env a id sub_id amount s t e)
after_call-Evolves s (env, pays_part a id sub_id) n =
    after_cases (Evolves s) s _ (Evolves-refl s n)
      λ x t e. Moves-Evolves s t n (release_sub_account-Moves env a id sub_id s t e)

after_calls-Evolves :
    (s : Storage) (cs : List (Env × EscrowCall)) → Numbered s → Evolves s (after_calls s cs)
unfolding after_calls
after_calls-Evolves s [] n = Evolves-refl s n
after_calls-Evolves s (c ∷ cs) n =
    let m = after_call-Evolves s c n in
    Evolves-trans s (after_call s c) (after_calls (after_call s c) cs) m
      (after_calls-Evolves (after_call s c) cs m.0)

-- Where no escrow is stored under a number beyond the counter: over any calls of `EscrowCall`, by
-- anyone and at any times, an escrow stays stored with its parties, token, amount and fee rate, and
-- its status only moves from locked on, or from disputed to released or resolved; what is released,
-- resolved or cancelled stays so. (A clawback is none of these calls.)
pub after_calls-keep :
    (s : Storage) (cs : List (Env × EscrowCall)) (id : ℕ) (e : Escrow)
    → Numbered s
    → s.book.escrows id ≡ some e
    → (e' : Escrow) × ((after_calls s cs).book.escrows id ≡ some e')
      × (may_become e.status e'.status ≡ true)
      × (terms e' ≡ terms e)
after_calls-keep s cs id e n h = (after_calls-Evolves s cs n).1 id e h
