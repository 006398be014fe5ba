-- ===== src/Refund/Requests/Indexed.antt =====
-- The ledger of refunds stays indexed by status.
use facilpay_contracts.Prelude.{
  ℕ, ◌+◌, ◌≤◌, ◌<◌, ◌≡◌, refl, sym, ◌∙◌, subst, ◌≢◌, Bool, true, false, Option, none, some, arith,
  ◌==◌, if◌then◌else◌, put,
}
use facilpay_contracts.Host.{ok, Action, >>=-eq-ok, zoom-eq-ok, is_ok, is_ok-eq-ok, u64_bound}
use facilpay_contracts.Refund.Errors.{Error}
use facilpay_contracts.Refund.Requests.{on_index, move_refund, enter_refund}
use facilpay_contracts.Refund.StatusIndex.{add_to_status_index, remove_from_status_index}
use facilpay_contracts.Refund.StatusIndex.Valid.{
  Index-IsValid, add-Index-IsValid, remove-is_ok, remove-Index-IsValid, remove-count, add-is_ok,
}
use facilpay_contracts.Refund.Storage.{StatusIndex, Ledger}
use facilpay_contracts.Refund.Types.{
  RefundStatus, requested, approved, rejected, processed, pending_appeal, status_code, RefundRecord,
}
use mathlib.Core.Path.{fun_ext}

pub status_code_injective : (a b : RefundStatus) → status_code a ≡ status_code b → a ≡ b
status_code_injective requested b e = ground arith
status_code_injective approved b e = ground arith
status_code_injective rejected b e = ground arith
status_code_injective processed b e = ground arith
status_code_injective pending_appeal b e = ground arith

-- The status of each refund, by its number.
abbrev pub code_of : Option RefundRecord → Option ℕ
code_of none = none
code_of (some r) = some (status_code r.status)

abbrev pub status_of : (ℕ → Option RefundRecord) → ℕ → Option ℕ
status_of refunds id = code_of (refunds id)

-- The index lists each refund under its status and nothing else, and a refund is stored under its
-- own number, which is not 0 and not beyond the counter.
pub record Ledger-IsValid (l : Ledger) : Type 0 where
  pub indexed : Index-IsValid (status_of l.refunds) l.index
  pub numbered :
      (id : ℕ) (r : RefundRecord)
      → l.refunds id ≡ some r
      → (0 < id) × (id ≤ l.counter) × (r.id ≡ id)

Index-IsValid-resp :
    {f g : ℕ → Option ℕ} {x : StatusIndex}
    → ((id : ℕ) → f id ≡ g id)
    → Index-IsValid f x
    → Index-IsValid g x
Index-IsValid-resp {x = x} h v = subst (λ f. Index-IsValid f x) (fun_ext h) v

code_if :
    (b : Bool) (x y : Option RefundRecord)
    → (if b then code_of x else code_of y) ≡ code_of (if b then x else y)
code_if true x y = refl
code_if false x y = refl

status_of-put :
    (refunds : ℕ → Option RefundRecord) (id : ℕ) (r : RefundRecord) (j : ℕ)
    → put (status_of refunds) id (some (status_code r.status)) j
      ≡ status_of (put refunds id (some r)) j
status_of-put refunds id r j = code_if (j == id) (some r) (refunds j)

put_twice : (f : ℕ → Option ℕ) (id j : ℕ) (a b : Option ℕ) → put (put f id a) id b j ≡ put f id b j
put_twice f id j a b = ground arith

on_index-eq-ok :
    (m : Action Error StatusIndex Unit) (l k : Ledger)
    → on_index m l ≡ ok (tt, k)
    → (x : StatusIndex) × (m l.index ≡ ok (tt, x)) × (k ≡ record l { index = x })
on_index-eq-ok m l k e = zoom-eq-ok (λ l. l.index) (λ l x. record l { index = x }) m l e

module _ {l : Ledger} (v : Ledger-IsValid l) where
  -- A change of a refund's status that goes through the index keeps the ledger valid.
  pub move-Ledger-IsValid :
      (old : RefundStatus) (id : ℕ) (r r' : RefundRecord) (m : Ledger)
      → l.refunds id ≡ some r
      → status_code r.status ≡ status_code old
      → r'.id ≡ r.id
      → move_refund old id r' l ≡ ok (tt, m)
      → Ledger-IsValid m × (m.refunds ≡ put l.refunds id (some r')) × (m.counter ≡ l.counter)
  unfolding move_refund
  move-Ledger-IsValid old id r r' m h c n e =
      let (u, l1, removes, rest) = >>=-eq-ok (on_index (remove_from_status_index old id)) _ l e in
      let (x, removed, e1) = on_index-eq-ok (remove_from_status_index old id) l l1 removes in
      let l2 : Ledger = record l { refunds = put l.refunds id (some r'); index = x } in
      let adds : on_index (add_to_status_index r'.status id) l2 ≡ ok (tt, m) =
        subst
          (λ k.
            on_index (add_to_status_index r'.status id)
              (record k { refunds = put k.refunds id (some r') })
            ≡ ok (tt, m))
          e1 rest in
      let (y, added, e2) = on_index-eq-ok (add_to_status_index r'.status id) l2 m adds in
      let w = remove-Index-IsValid v.indexed old id x (ground (arith, h, c)) removed in
      let z = add-Index-IsValid w r'.status id y (ground arith) added in
      (
        subst Ledger-IsValid (sym e2) (record {
          indexed =
              Index-IsValid-resp
                (λ j.
                  put_twice (status_of l.refunds) id j none (some (status_code r'.status))
                  ∙ status_of-put l.refunds id r' j)
                z;
          numbered = λ j q k. ground (arith, v.numbered j q, v.numbered id r);
        }),
        ground arith,
        ground arith,
      )

  -- So does the entry of a new refund.
  pub enter-Ledger-IsValid :
      (r : RefundRecord) (m : Ledger)
      → r.id ≡ l.counter + 1
      → enter_refund r l ≡ ok (tt, m)
      → Ledger-IsValid m
        × (m.refunds ≡ put l.refunds r.id (some r))
        × (m.counter ≡ r.id)
        × (l.refunds r.id ≡ none)
  unfolding enter_refund
  enter-Ledger-IsValid r m n e =
      let l1 : Ledger = record l { refunds = put l.refunds r.id (some r); counter = r.id } in
      let (y, added, e2) = on_index-eq-ok (add_to_status_index r.status r.id) l1 m e in
      let fresh : l.refunds r.id ≡ none = unused (l.refunds r.id) refl in
      let z = add-Index-IsValid v.indexed r.status r.id y (ground (arith, fresh)) added in
      (
        subst Ledger-IsValid (sym e2) (record {
          indexed = Index-IsValid-resp (status_of-put l.refunds r.id r) z;
          numbered = λ j q k. ground (arith, v.numbered j q);
        }),
        ground arith,
        ground arith,
        fresh,
      )
    where
      unused : (o : Option RefundRecord) → l.refunds r.id ≡ o → l.refunds r.id ≡ none
      unused none k = k
      unused (some q) k = absurd (omega (arith, v.numbered r.id q k))

  -- In a valid ledger a change of status succeeds, if the number of refunds of the new status fits
  -- its counter.
  pub move-is_ok :
      (old : RefundStatus) (id : ℕ) (r r' : RefundRecord)
      → l.refunds id ≡ some r
      → status_code r.status ≡ status_code old
      → status_code r'.status ≢ status_code old
      → l.index.count (status_code r'.status) + 1 < u64_bound
      → is_ok (move_refund old id r' l) ≡ true
  unfolding move_refund
  move-is_ok old id r r' h c n b =
      let (a, x, removed) =
        is_ok-eq-ok (remove_from_status_index old id l.index)
          (remove-is_ok v.indexed old id (ground (arith, h, c))) in
      let (a', y, added) = is_ok-eq-ok (add_to_status_index r'.status id x) (
        add-is_ok r'.status id x (
          subst (λ k. k + 1 < u64_bound)
            (sym (remove-count old id (status_code r'.status) l.index x removed n)) b)) in
      ground (arith, removed, added)
