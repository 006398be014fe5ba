-- ===== src/Escrow/Lifecycle/Final.antt =====
-- What was settled once is not paid out again.
use facilpay_contracts.Prelude.{ℕ, ◌≡◌, ◌≢◌, Bool, true, false, Option, some, List, arith}
use facilpay_contracts.Escrow.Dispatch.{dispatch_release, dispatch_resolve}
use facilpay_contracts.Escrow.Dispatch.Rules.{dispatch_release-pays, dispatch_resolve-pays}
use facilpay_contracts.Escrow.Dispute.{dispute_escrow, internal_resolve_dispute}
use facilpay_contracts.Escrow.Dispute.Rules.{dispute_escrow-opens, internal_resolve_dispute-pays}
use facilpay_contracts.Escrow.Lifecycle.{EscrowCall, after_calls}
use facilpay_contracts.Escrow.Lifecycle.Creations.{Numbered}
use facilpay_contracts.Escrow.Lifecycle.History.{after_calls-keep}
use facilpay_contracts.Escrow.Lifecycle.Moves.{may_become}
use facilpay_contracts.Escrow.Refund.{refund_escrow, expire_escrow}
use facilpay_contracts.Escrow.Refund.Rules.{settled, refund_escrow-pays, expire_escrow-pays}
use facilpay_contracts.Escrow.Release.{internal_release_escrow}
use facilpay_contracts.Escrow.Release.Payment.{internal_release_escrow-pays}
use facilpay_contracts.Escrow.Storage.{Storage}
use facilpay_contracts.Escrow.Types.{EscrowStatus, locked, disputed, Escrow}
use facilpay_contracts.Host.{Address, Env, ok}

abbrev pub is_settled : EscrowStatus → Bool
is_settled locked = false
is_settled disputed = false
is_settled _ = true

may_become-settled :
    (x y : EscrowStatus) → is_settled x ≡ true → may_become x y ≡ true → is_settled y ≡ true
may_become-settled x y a b = ground arith

-- Where no escrow is stored under a number beyond the counter: once an escrow is released, resolved
-- or cancelled, then after any further calls of `EscrowCall`, by anyone and at any times, no
-- release, no resolution, no refund and no expiry of it succeeds, and no dispute of it either.
pub settled_final :
    (s : Storage) (cs : List (Env × EscrowCall)) (id : ℕ) (e : Escrow) (env : Env)
    (caller : Address) (flag : Bool) (override : Option Address) (u : Storage)
    → Numbered s
    → s.book.escrows id ≡ some e
    → is_settled e.status ≡ true
    → (internal_release_escrow env id flag override (after_calls s cs) ≢ ok (tt, u))
      × (dispatch_release env id flag (after_calls s cs) ≢ ok (tt, u))
      × (internal_resolve_dispute env id flag (after_calls s cs) ≢ ok (tt, u))
      × (dispatch_resolve env id flag (after_calls s cs) ≢ ok (tt, u))
      × (refund_escrow env caller id (after_calls s cs) ≢ ok (tt, u))
      × (expire_escrow env id (after_calls s cs) ≢ ok (tt, u))
      × (dispute_escrow env caller id (after_calls s cs) ≢ ok (tt, u))
settled_final s cs id e env caller flag override u n h settled =
    let (e', h', may, _) = after_calls-keep s cs id e n h in
    let done = may_become-settled e.status e'.status settled may in
    let t = after_calls s cs in
    (
      λ r. ground (arith, done, (internal_release_escrow-pays env id flag override e' t u h' r).0),
      λ r. ground (arith, done, (dispatch_release-pays env id flag e' t u h' r).0),
      λ r. ground (arith, done, (internal_resolve_dispute-pays env id flag e' t u h' r).0),
      λ r. ground (arith, done, (dispatch_resolve-pays env id flag e' t u h' r).0),
      λ r. ground (arith, done, (refund_escrow-pays env caller id e' t u h' r).2),
      λ r. ground (arith, done, (expire_escrow-pays env id e' t u h' r).0),
      λ r. ground (arith, done, (dispute_escrow-opens env caller id e' t u h' r).2),
    )
