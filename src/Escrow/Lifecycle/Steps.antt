-- ===== src/Escrow/Lifecycle/Steps.antt =====
-- Each call makes only such moves.
use facilpay_contracts.Prelude.{
  ℕ, ◌+◌, ◌≡◌, refl, inl, inr, Bool, Option, some, arith, if◌then◌else◌, Option-cases,
}
use facilpay_contracts.Escrow.Dispatch.{dispatch_release, dispatch_resolve}
use facilpay_contracts.Escrow.Dispatch.Rules.{dispatch_release-pays, dispatch_resolve-pays}
use facilpay_contracts.Escrow.Dispute.{dispute_escrow, internal_resolve_dispute}
use facilpay_contracts.Escrow.Dispute.Rules.{dispute_escrow-opens, internal_resolve_dispute-pays}
use facilpay_contracts.Escrow.Lifecycle.Moves.{Moves, Moves-one}
use facilpay_contracts.Escrow.Refund.{refund_escrow, expire_escrow}
use facilpay_contracts.Escrow.Refund.Rules.{refund_escrow-pays, expire_escrow-pays}
use facilpay_contracts.Escrow.Release.{can_release_escrow, internal_release_escrow}
use facilpay_contracts.Escrow.Release.Payment.{internal_release_escrow-pays}
use facilpay_contracts.Escrow.Storage.{Storage}
use facilpay_contracts.Escrow.Types.{released, disputed, resolved, cancelled, Escrow}
use facilpay_contracts.Host.{Address, Env, ok}

-- A call that succeeded found its escrow.
abbrev Present : Option Escrow → Type 0
Present o = (e : Escrow) × (o ≡ some e)

internal_release_escrow_found :
    (env : Env) (id : ℕ) (early : Bool) (override : Option Address) (s t : Storage)
    → internal_release_escrow env id early override s ≡ ok (tt, t)
    → Present (s.book.escrows id)
unfolding internal_release_escrow can_release_escrow
internal_release_escrow_found env id early override s t r =
    elim (Option-cases (s.book.escrows id)) [ inl missing ↦ ground arith | inr found ↦ found ]

pub internal_release_escrow-Moves :
    (env : Env) (id : ℕ) (early : Bool) (override : Option Address) (s t : Storage)
    → internal_release_escrow env id early override s ≡ ok (tt, t)
    → Moves s t
internal_release_escrow-Moves env id early override s t r =
    let (e, h) = internal_release_escrow_found env id early override s t r in
    let w = internal_release_escrow-pays env id early override e s t h r in
    let e' : Escrow = record e { status = released } in
    Moves-one id e e' s t h (ground (arith, w)) (ground (arith, w))
      (e', refl, ground (arith, w), refl)

internal_resolve_dispute_found :
    (env : Env) (id : ℕ) (to_merchant : Bool) (s t : Storage)
    → internal_resolve_dispute env id to_merchant s ≡ ok (tt, t)
    → Present (s.book.escrows id)
unfolding internal_resolve_dispute
internal_resolve_dispute_found env id to_merchant s t r = elim (Option-cases (s.book.escrows id)) [
  | inl missing ↦ ground arith
  | inr found ↦ found
]

pub internal_resolve_dispute-Moves :
    (env : Env) (id : ℕ) (to_merchant : Bool) (s t : Storage)
    → internal_resolve_dispute env id to_merchant s ≡ ok (tt, t)
    → Moves s t
internal_resolve_dispute-Moves env id to_merchant s t r =
    let (e, h) = internal_resolve_dispute_found env id to_merchant s t r in
    let w = internal_resolve_dispute-pays env id to_merchant e s t h r in
    let e' : Escrow = record e { status = if to_merchant then released else resolved } in
    Moves-one id e e' s t h (ground (arith, w)) (ground (arith, w))
      (e', refl, ground (arith, w), refl)

refund_escrow_found :
    (env : Env) (caller : Address) (id : ℕ) (s t : Storage)
    → refund_escrow env caller id s ≡ ok (tt, t)
    → Present (s.book.escrows id)
unfolding refund_escrow
refund_escrow_found env caller id s t r = elim (Option-cases (s.book.escrows id)) [
  | inl missing ↦ ground arith
  | inr found ↦ found
]

pub refund_escrow-Moves :
    (env : Env) (caller : Address) (id : ℕ) (s t : Storage)
    → refund_escrow env caller id s ≡ ok (tt, t)
    → Moves s t
refund_escrow-Moves env caller id s t r =
    let (e, h) = refund_escrow_found env caller id s t r in
    let w = refund_escrow-pays env caller id e s t h r in
    let e' : Escrow = record e { status = resolved } in
    Moves-one id e e' s t h (ground (arith, w)) (ground (arith, w))
      (e', refl, ground (arith, w), refl)

expire_escrow_found :
    (env : Env) (id : ℕ) (s t : Storage)
    → expire_escrow env id s ≡ ok (tt, t)
    → Present (s.book.escrows id)
unfolding expire_escrow
expire_escrow_found env id s t r = elim (Option-cases (s.book.escrows id)) [
  | inl missing ↦ ground arith
  | inr found ↦ found
]

pub expire_escrow-Moves :
    (env : Env) (id : ℕ) (s t : Storage) → expire_escrow env id s ≡ ok (tt, t) → Moves s t
expire_escrow-Moves env id s t r =
    let (e, h) = expire_escrow_found env id s t r in
    let w = expire_escrow-pays env id e s t h r in
    let e' : Escrow = record e { status = cancelled } in
    Moves-one id e e' s t h (ground (arith, w)) (ground (arith, w))
      (e', refl, ground (arith, w), refl)

dispute_escrow_found :
    (env : Env) (caller : Address) (id : ℕ) (s t : Storage)
    → dispute_escrow env caller id s ≡ ok (tt, t)
    → Present (s.book.escrows id)
unfolding dispute_escrow
dispute_escrow_found env caller id s t r = elim (Option-cases (s.book.escrows id)) [
  | inl missing ↦ ground arith
  | inr found ↦ found
]

pub dispute_escrow-Moves :
    (env : Env) (caller : Address) (id : ℕ) (s t : Storage)
    → dispute_escrow env caller id s ≡ ok (tt, t)
    → Moves s t
dispute_escrow-Moves env caller id s t r =
    let (e, h) = dispute_escrow_found env caller id s t r in
    let w = dispute_escrow-opens env caller id e s t h r in
    let e' : Escrow = record e {
      status = disputed;
      dispute_started_at = env.timestamp;
      last_activity_at = env.timestamp;
      evidence_deadline = some (env.timestamp + 604800);
    } in
    Moves-one id e e' s t h (ground (arith, w)) (ground (arith, w))
      (e', refl, ground (arith, w), refl)

dispatch_release_found :
    (env : Env) (id : ℕ) (early : Bool) (s t : Storage)
    → dispatch_release env id early s ≡ ok (tt, t)
    → Present (s.book.escrows id)
unfolding dispatch_release
dispatch_release_found env id early s t r = elim (Option-cases (s.book.escrows id)) [
  | inl missing ↦ ground arith
  | inr found ↦ found
]

pub dispatch_release-Moves :
    (env : Env) (id : ℕ) (early : Bool) (s t : Storage)
    → dispatch_release env id early s ≡ ok (tt, t)
    → Moves s t
dispatch_release-Moves env id early s t r =
    let (e, h) = dispatch_release_found env id early s t r in
    let w = dispatch_release-pays env id early e s t h r in
    let e' : Escrow = record e { status = released } in
    Moves-one id e e' s t h (ground (arith, w)) (ground (arith, w))
      (e', refl, ground (arith, w), refl)

dispatch_resolve_found :
    (env : Env) (id : ℕ) (to_merchant : Bool) (s t : Storage)
    → dispatch_resolve env id to_merchant s ≡ ok (tt, t)
    → Present (s.book.escrows id)
unfolding dispatch_resolve
dispatch_resolve_found env id to_merchant s t r = elim (Option-cases (s.book.escrows id)) [
  | inl missing ↦ ground arith
  | inr found ↦ found
]

pub dispatch_resolve-Moves :
    (env : Env) (id : ℕ) (to_merchant : Bool) (s t : Storage)
    → dispatch_resolve env id to_merchant s ≡ ok (tt, t)
    → Moves s t
dispatch_resolve-Moves env id to_merchant s t r =
    let (e, h) = dispatch_resolve_found env id to_merchant s t r in
    let w = dispatch_resolve-pays env id to_merchant e s t h r in
    let e' : Escrow = record e { status = if to_merchant then released else resolved } in
    Moves-one id e e' s t h (ground (arith, w)) (ground (arith, w))
      (e', refl, ground (arith, w), refl)
