-- ===== src/Escrow/Lifecycle/Creations.antt =====
-- A creation adds one escrow under a free number, and changes no other.
use facilpay_contracts.Prelude.{
  ℕ, ◌<◌, ◌≡◌, sym, subst, inl, inr, true, Option, none, some, arith, Option-cases,
}
use facilpay_contracts.Escrow.Create.{
  Request, internal_create_escrow, create_escrow, create_escrow_with_multisig, create_child_escrow,
}
use facilpay_contracts.Escrow.Create.Rules.{
  internal_create_escrow-creates, internal_create_escrow-fresh,
}
use facilpay_contracts.Escrow.Lifecycle.Moves.{
  MayMove, Moves, MayMove-refl, Moves-same, MayMove-trans,
}
use facilpay_contracts.Escrow.Storage.{Storage}
use facilpay_contracts.Escrow.Types.{Escrow, MultisigConfiguration}
use facilpay_contracts.Host.{Address, Env, ok, is_ok, is_ok-eq-ok}
use facilpay_contracts.Prelude.Int.{ℤ}

-- Numbers beyond the counter are free.
abbrev pub Numbered : Storage → Type 0
Numbered s = (i : ℕ) → s.book.counter < i → s.book.escrows i ≡ none

-- Numbers stay given out in order, and the escrows that exist make the moves of `MayMove`.
abbrev pub Evolves : Storage → Storage → Type 0
Evolves s t =
    Numbered t
    × ((i : ℕ) (e : Escrow) → s.book.escrows i ≡ some e → MayMove (some e) (t.book.escrows i))

pub Evolves-refl : (s : Storage) → Numbered s → Evolves s s
Evolves-refl s n = (n, λ i e h. subst (MayMove (some e)) (sym h) (MayMove-refl (some e)))

pub Moves-Evolves : (s t : Storage) → Numbered s → Moves s t → Evolves s t
Moves-Evolves s t n (c, m) = (
  λ i b. subst (λ o. MayMove o (t.book.escrows i)) (n i (ground (arith, c, b))) (m i),
  λ i e h. subst (λ o. MayMove o (t.book.escrows i)) h (m i),
)

pub Evolves-trans : (s t u : Storage) → Evolves s t → Evolves t u → Evolves s u
Evolves-trans s t u (m, f) (n, g) = (
  n,
  λ i e h.
      let (e', p, k, l) = f i e h in
      MayMove-trans (some e) (t.book.escrows i) (u.book.escrows i) (e', p, k, l)
        (subst (λ o. MayMove o (u.book.escrows i)) (sym p) (g i e' p)),
)

-- A call that only writes elsewhere behind another.
Evolves-book :
    (s t u : Storage)
    → u.book.escrows ≡ t.book.escrows
    → u.book.counter ≡ t.book.counter
    → Evolves s t
    → Evolves s u
Evolves-book s t u p q m = Evolves-trans s t u m (Moves-Evolves t u m.0 (Moves-same t u p q))

pub internal_create_escrow-Evolves :
    (env : Env) (r : Request) (signers : Option MultisigConfiguration) (id : ℕ) (s t : Storage)
    → Numbered s
    → internal_create_escrow env r signers s ≡ ok (id, t)
    → Evolves s t
internal_create_escrow-Evolves env r signers id s t n e =
    let w = internal_create_escrow-creates env r signers id s t e in
    let (free, numbered) = internal_create_escrow-fresh env r signers id s t n e in
    (
      numbered,
      λ i x h.
          let same : t.book.escrows i ≡ some x = ground (arith, w.2, free, h) in
          subst (MayMove (some x)) (sym same) (MayMove-refl (some x)),
    )

pub create_escrow-Evolves :
    (env : Env) (r : Request) (id : ℕ) (s t : Storage)
    → Numbered s
    → create_escrow env r s ≡ ok (id, t)
    → Evolves s t
unfolding create_escrow
create_escrow-Evolves env r id s t n e =
    internal_create_escrow-Evolves env r none id s t n (ground arith)

pub create_escrow_with_multisig-Evolves :
    (env : Env) (r : Request) (m : MultisigConfiguration) (id : ℕ) (s t : Storage)
    → Numbered s
    → create_escrow_with_multisig env r m s ≡ ok (id, t)
    → Evolves s t
unfolding create_escrow_with_multisig
create_escrow_with_multisig-Evolves env r m id s t n e =
    internal_create_escrow-Evolves env r (some m) id s t n (ground arith)

-- The request for a child.
abbrev child_request : Escrow → ℤ → Address → Address → Address → Request
child_request parent amount token customer merchant = record {
  customer = customer;
  merchant = merchant;
  amount = amount;
  token = token;
  release_timestamp = parent.release_timestamp;
  min_hold_period = parent.min_hold_period;
  expiry_timestamp = parent.expiry_timestamp;
  auto_refund_on_expiry = parent.auto_refund_on_expiry;
}

-- The creation inside the creation of a child.
create_child_escrow-inner :
    (env : Env) (admin : Address) (parent : ℕ) (amount : ℤ) (token customer merchant : Address)
    (id : ℕ) (p : Escrow) (s t : Storage)
    → s.book.escrows parent ≡ some p
    → create_child_escrow env admin parent amount token customer merchant s ≡ ok (id, t)
    → is_ok (internal_create_escrow env (child_request p amount token customer merchant) none s)
      ≡ true
unfolding create_child_escrow
create_child_escrow-inner env admin parent amount token customer merchant id p s t h e =
    ground arith

create_child_escrow-book :
    (env : Env) (admin : Address) (parent : ℕ) (amount : ℤ) (token customer merchant : Address)
    (id id' : ℕ) (p : Escrow) (s t u : Storage)
    → s.book.escrows parent ≡ some p
    → internal_create_escrow env (child_request p amount token customer merchant) none s
      ≡ ok (id', u)
    → create_child_escrow env admin parent amount token customer merchant s ≡ ok (id, t)
    → (t.book.escrows ≡ u.book.escrows) × (t.book.counter ≡ u.book.counter)
unfolding create_child_escrow
create_child_escrow-book env admin parent amount token customer merchant id id' p s t u h q e =
    ground arith

pub create_child_escrow-Evolves :
    (env : Env) (admin : Address) (parent : ℕ) (amount : ℤ) (token customer merchant : Address)
    (id : ℕ) (s t : Storage)
    → Numbered s
    → create_child_escrow env admin parent amount token customer merchant s ≡ ok (id, t)
    → Evolves s t
unfolding create_child_escrow
create_child_escrow-Evolves env admin parent amount token customer merchant id s t n e =
    elim (Option-cases (s.book.escrows parent)) [
      | inl missing ↦ ground arith
      | inr (p, h) ↦
          let r = child_request p amount token customer merchant in
          let (id', u, q) = is_ok-eq-ok (internal_create_escrow env r none s) (
            create_child_escrow-inner env admin parent amount token customer merchant id p s t h
              e) in
          let (x, y) =
            create_child_escrow-book env admin parent amount token customer merchant id id' p s t u
              h q e in
          Evolves-book s u t x y (internal_create_escrow-Evolves env r none id' s u n q)
    ]
