-- ===== src/Prelude/Lists.antt =====
-- Lists measured by native numbers: the vectors of the host, with `contains`, `push_back` and `len`.
use Prim.Native.Nat.{ℕ, zero, suc, ◌+◌}
use mathlib.Core.Path.{◌≡◌, refl}
use mathlib.Core.Bool.{Bool, true, false, ◌||◌}
use mathlib.Core.List.{List, [], ◌∷◌, ◌++◌}
use mathlib.Core.Option.{Option, none, some}
use native.Mathlib.Omega.{arith}
use facilpay_contracts.Prelude.Tests.{◌==◌, if◌then◌else◌}

module _ {ℓ} {A : Type ℓ} where
  abbrev pub length : List A → ℕ
  length [] = 0
  length (_ ∷ xs) = suc (length xs)

  abbrev pub push_back : List A → A → List A
  push_back [] x = x ∷ []
  push_back (y ∷ ys) x = y ∷ push_back ys x

  abbrev pub get_elem? : List A → ℕ → Option A
  get_elem? [] _ = none
  get_elem? (x ∷ _) zero = some x
  get_elem? (_ ∷ xs) (suc i) = get_elem? xs i

module _ {ℓ} {A : Type ℓ} where
  pub length-push_back : (xs : List A) (x : A) → length (push_back xs x) ≡ length xs + 1
  length-push_back [] x = omega arith
  length-push_back (y ∷ ys) x = omega (arith, length-push_back ys x)

  abbrev pub All {κ} : (A → Type κ) → List A → Type κ
  All P [] = Unit
  All P (x ∷ xs) = P x × All P xs

  pub All-push_back {κ} :
      (P : A → Type κ) (xs : List A) (x : A) → All P xs → P x → All P (push_back xs x)
  All-push_back P [] x h p = (p, tt)
  All-push_back P (y ∷ ys) x h p = (h.0, All-push_back P ys x h.1 p)

abbrev pub contains : List ℕ → ℕ → Bool
contains [] _ = false
contains (y ∷ ys) x = if y == x then true else contains ys x

-- No address stands twice.
abbrev pub Distinct : List ℕ → Type 0
Distinct [] = Unit
Distinct (x ∷ xs) = (contains xs x ≡ false) × Distinct xs

-- The entries other than `x`, in order.
abbrev pub without : List ℕ → ℕ → List ℕ
without [] _ = []
without (y ∷ ys) x = if y == x then without ys x else y ∷ without ys x

pub contains-push_back :
    (xs : List ℕ) (x y : ℕ) → contains (push_back xs x) y ≡ (contains xs y || (x == y))
contains-push_back [] x y = ground arith
contains-push_back (z ∷ zs) x y = ground (arith, contains-push_back zs x y)

pub push_back-Distinct :
    (xs : List ℕ) (x : ℕ) → Distinct xs → contains xs x ≡ false → Distinct (push_back xs x)
push_back-Distinct [] x d h = (refl, tt)
push_back-Distinct (y ∷ ys) x d h =
    ground (arith, push_back-Distinct ys x d.1, contains-push_back ys x y)

pub contains-without :
    (xs : List ℕ) (x y : ℕ) → contains (without xs x) y ≡ (if x == y then false else contains xs y)
contains-without [] x y = ground arith
contains-without (z ∷ zs) x y = ground (arith, contains-without zs x y)

pub without-Distinct : (xs : List ℕ) (x : ℕ) → Distinct xs → Distinct (without xs x)
without-Distinct [] x d = tt
without-Distinct (y ∷ ys) x d = ground (arith, without-Distinct ys x d.1, contains-without ys x y)

pub without_absent : (xs : List ℕ) (x : ℕ) → contains xs x ≡ false → without xs x ≡ xs
without_absent [] x h = refl
without_absent (y ∷ ys) x h = ground (arith, without_absent ys x)

pub length-without :
    (xs : List ℕ) (x : ℕ)
    → Distinct xs
    → length (without xs x) + (if contains xs x then 1 else 0) ≡ length xs
length-without [] x d = refl
length-without (y ∷ ys) x d = ground (arith, length-without ys x d.1, without_absent ys x)

pub contains-++ :
    (xs ys : List ℕ) (x : ℕ) → contains (xs ++ ys) x ≡ (contains xs x || contains ys x)
contains-++ [] ys x = refl
contains-++ (z ∷ zs) ys x = ground (arith, contains-++ zs ys x)
