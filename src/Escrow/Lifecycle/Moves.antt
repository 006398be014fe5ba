-- ===== src/Escrow/Lifecycle/Moves.antt =====
-- The moves between statuses that calls may make.
use facilpay_contracts.Prelude.{
  ℕ, ◌≡◌, refl, sym, ◌∙◌, subst, inl, inr, Bool, true, false, Option, none, some, arith, ◌==◌,
  Bool-cases, put,
}
use facilpay_contracts.Escrow.Storage.{Storage}
use facilpay_contracts.Escrow.Types.{
  EscrowStatus, locked, released, disputed, resolved, cancelled, Escrow,
}
use facilpay_contracts.Host.{Address}
use facilpay_contracts.Prelude.Int.{ℤ}

-- Locked escrows may take every status, disputed ones may be released or resolved, and the others
-- keep what they have.
abbrev pub may_become : EscrowStatus → EscrowStatus → Bool
may_become locked _ = true
may_become disputed released = true
may_become disputed resolved = true
may_become disputed disputed = true
may_become released released = true
may_become resolved resolved = true
may_become cancelled cancelled = true
may_become _ _ = false

-- What an escrow keeps.
abbrev pub terms : Escrow → Address × Address × ℤ × Address × ℤ
terms e = (e.customer, e.merchant, e.amount, e.token, e.fee_bps)

-- An escrow may move in its status, and keeps parties, token, amount and fee rate; an empty slot
-- stays empty.
abbrev pub MayMove : Option Escrow → Option Escrow → Type 0
MayMove none o = o ≡ none
MayMove (some e) o =
    (e' : Escrow) × (o ≡ some e') × (may_become e.status e'.status ≡ true) × (terms e' ≡ terms e)

-- All escrows make such moves, and none is added.
abbrev pub Moves : Storage → Storage → Type 0
Moves s t =
    (t.book.counter ≡ s.book.counter) × ((i : ℕ) → MayMove (s.book.escrows i) (t.book.escrows i))

pub may_become_refl : (x : EscrowStatus) → may_become x x ≡ true
may_become_refl locked = refl
may_become_refl released = refl
may_become_refl disputed = refl
may_become_refl resolved = refl
may_become_refl cancelled = refl

pub MayMove-refl : (o : Option Escrow) → MayMove o o
MayMove-refl none = refl
MayMove-refl (some e) = (e, refl, may_become_refl e.status, refl)

pub Moves-refl : (s : Storage) → Moves s s
Moves-refl s = (refl, λ i. MayMove-refl (s.book.escrows i))

-- A call that leaves escrows and counter alone.
pub Moves-same :
    (s t : Storage) → t.book.escrows ≡ s.book.escrows → t.book.counter ≡ s.book.counter → Moves s t
Moves-same s t p q = (
  q,
  λ i. subst (λ f. MayMove (s.book.escrows i) (f i)) (sym p) (MayMove-refl (s.book.escrows i)),
)

-- A call that writes one escrow.
pub Moves-one :
    (id : ℕ) (e e' : Escrow) (s t : Storage)
    → s.book.escrows id ≡ some e
    → t.book.counter ≡ s.book.counter
    → t.book.escrows ≡ put s.book.escrows id (some e')
    → MayMove (some e) (some e')
    → Moves s t
Moves-one id e e' s t h q p m = (
  q,
  λ i. elim (Bool-cases (i == id)) [
    | inl here ↦
        let before : s.book.escrows i ≡ some e = ground (arith, h) in
        let behind : t.book.escrows i ≡ some e' = ground (arith, p) in
        subst (λ o. MayMove o (t.book.escrows i)) (sym before)
          (subst (λ o. MayMove (some e) o) (sym behind) m)
    | inr there ↦
        let same : t.book.escrows i ≡ s.book.escrows i = ground (arith, p) in
        subst (λ o. MayMove (s.book.escrows i) o) (sym same) (MayMove-refl (s.book.escrows i))
  ],
)

-- One call, and another.
may_become_trans :
    (x y z : EscrowStatus) → may_become x y ≡ true → may_become y z ≡ true → may_become x z ≡ true
may_become_trans x y z p q = ground arith

pub MayMove-trans : (x y z : Option Escrow) → MayMove x y → MayMove y z → MayMove x z
MayMove-trans none y z m n = subst (λ o. MayMove o z) m n
MayMove-trans (some e) y z (e', p, m, k) n =
    let (e'', q, m', k') = subst (λ o. MayMove o z) p n in
    (e'', q, may_become_trans e.status e'.status e''.status m m', k' ∙ k)

pub Moves-trans : (s t u : Storage) → Moves s t → Moves t u → Moves s u
Moves-trans s t u m n = (
  n.0 ∙ m.0,
  λ i. MayMove-trans (s.book.escrows i) (t.book.escrows i) (u.book.escrows i) (m.1 i) (n.1 i),
)
