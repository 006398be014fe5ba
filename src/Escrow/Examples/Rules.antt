-- ===== src/Escrow/Examples/Rules.antt =====
-- Histories, creation, families of escrows, the escalation queue, reputation and renewal.
use facilpay_contracts.Prelude.{
  ℕ, ◌≡◌, refl, ◌≢◌, ◌⊎◌, true, false, none, some, List, [], ◌∷◌, arith, put,
}
use facilpay_contracts.Escrow.Dispatch.{dispatch_release, dispatch_resolve}
use facilpay_contracts.Escrow.Dispute.{dispute_escrow, internal_resolve_dispute}
use facilpay_contracts.Escrow.Examples.{
  now, start, soon, next_week, locked_escrow, empty_book, holding,
}
use facilpay_contracts.Escrow.Hierarchy.{is_escrow_resolved, can_parent_release}
use facilpay_contracts.Escrow.Hierarchy.Descendants.{Descends, can_parent_release-decides}
use facilpay_contracts.Escrow.Lifecycle.{after_calls, EscrowCall, refunds, disputes, resolves}
use facilpay_contracts.Escrow.Lifecycle.Creations.{Numbered}
use facilpay_contracts.Escrow.Lifecycle.Final.{settled_final}
use facilpay_contracts.Escrow.Lifecycle.History.{after_calls-keep}
use facilpay_contracts.Escrow.Lifecycle.Moves.{may_become, terms}
use facilpay_contracts.Escrow.Queue.{enqueue_escalation}
use facilpay_contracts.Escrow.Queue.Rules.{Queue-IsValid, enqueue_escalation-IsValid}
use facilpay_contracts.Escrow.Refund.{refund_escrow, expire_escrow}
use facilpay_contracts.Escrow.Release.{internal_release_escrow}
use facilpay_contracts.Escrow.Reputation.Bounds.{Scores-IsValid}
use facilpay_contracts.Escrow.Storage.{Book, EscalationQueue}
use facilpay_contracts.Escrow.Types.{resolved, Escrow}
use facilpay_contracts.Host.{Env, ok}

-- Escrow 1 has the child 2, which is locked.
abbrev family : Book
family = record empty_book {
  escrows = put (put (λ _. none) 1 (some locked_escrow)) 2 (some locked_escrow);
  hierarchy =
      put (λ _. none) 1
        (some (record { escrow_id = 1; parent_id = none; children = 2 ∷ []; depth = 0 }));
}

can_parent_release-decides_example :
    ((can_parent_release 1 family ≡ ok (true, family))
      × ((d : ℕ) → Descends family 1 d → is_escrow_resolved family d ≡ true))
    ⊎ ((can_parent_release 1 family ≡ ok (false, family))
        × (d : ℕ) × Descends family 1 d
        × (is_escrow_resolved family d ≡ false))
can_parent_release-decides_example = can_parent_release-decides family 1 locked_escrow refl refl

-- Escrow 7 is due at 2000.
abbrev one_due : EscalationQueue
one_due = record {
  ids_at = put (λ _. none) 2000 (some (7 ∷ []));
  index = some (2000 ∷ []);
  deadline_of = put (λ _. none) 7 (some 2000);
}

one_due-IsValid : Queue-IsValid one_due
one_due-IsValid = record { sorted = tt; listed = λ d. ground arith; placed = λ d id. ground arith }

enqueue_escalation-IsValid_example :
    Queue-IsValid (enqueue_escalation 7 1000 one_due)
    × ((enqueue_escalation 7 1000 one_due).deadline_of 7 ≡ some 1000)
enqueue_escalation-IsValid_example = enqueue_escalation-IsValid 7 1000 one_due one_due-IsValid

default-IsValid : Scores-IsValid (start.reputations)
default-IsValid a = (omega arith, omega arith)

abbrev some_calls : List (Env × EscrowCall)
some_calls = (now, disputes 10 1) ∷ (now, resolves 1 1 true) ∷ (soon, refunds 10 1) ∷ []

locked_escrow-Numbered : Numbered (holding locked_escrow)
locked_escrow-Numbered i b = ground arith

after_calls-keep_example :
    (e' : Escrow) × ((after_calls (holding locked_escrow) some_calls).book.escrows 1 ≡ some e')
    × (may_become locked_escrow.status e'.status ≡ true)
    × (terms e' ≡ terms locked_escrow)
after_calls-keep_example =
    after_calls-keep (holding locked_escrow) some_calls 1 locked_escrow locked_escrow-Numbered refl

abbrev done : Escrow
done = record locked_escrow { status = resolved }

done-Numbered : Numbered (holding done)
done-Numbered i b = ground arith

settled_final_example :
    (internal_release_escrow next_week 1 true none (after_calls (holding done) some_calls)
      ≢ ok (tt, start))
    × (dispatch_release next_week 1 true (after_calls (holding done) some_calls) ≢ ok (tt, start))
    × (internal_resolve_dispute next_week 1 true (after_calls (holding done) some_calls)
        ≢ ok (tt, start))
    × (dispatch_resolve next_week 1 true (after_calls (holding done) some_calls) ≢ ok (tt, start))
    × (refund_escrow next_week 10 1 (after_calls (holding done) some_calls) ≢ ok (tt, start))
    × (expire_escrow next_week 1 (after_calls (holding done) some_calls) ≢ ok (tt, start))
    × (dispute_escrow next_week 10 1 (after_calls (holding done) some_calls) ≢ ok (tt, start))
settled_final_example =
    settled_final (holding done) some_calls 1 done next_week 10 true none start done-Numbered refl
      refl
