-- ===== src/Prelude/Maps.antt =====
-- Storage slots of one kind: a map from keys to optional values, with the laws of a write.
use Prim.Native.Nat.{ℕ}
use mathlib.Core.Bool.{Bool, true, false, ◌&&◌}
use mathlib.Core.List.{List, [], ◌∷◌}
use mathlib.Core.Path.{◌≡◌, refl}
use native.Mathlib.Omega.{arith}
use facilpay_contracts.Prelude.Tests.{◌==◌, if◌then◌else◌}

module _ {ℓ} {V : Type ℓ} where
  -- `set` of one slot; `remove` writes `none`.
  abbrev pub put : (ℕ → V) → ℕ → V → ℕ → V
  put m k v j = if j == k then v else m j

  -- Slots with two keys.
  abbrev pub put_at : (ℕ → ℕ → V) → ℕ → ℕ → V → ℕ → ℕ → V
  put_at m k l v i j = if i == k && j == l then v else m i j

abbrev pub bytes_eq : List ℕ → List ℕ → Bool
bytes_eq [] [] = true
bytes_eq (x ∷ xs) (y ∷ ys) = if x == y then bytes_eq xs ys else false
bytes_eq _ _ = false

pub bytes_eq_refl : (xs : List ℕ) → bytes_eq xs xs ≡ true
bytes_eq_refl [] = refl
bytes_eq_refl (x ∷ xs) = ground (arith, bytes_eq_refl xs)

pub bytes_eq_sound : (xs ys : List ℕ) → bytes_eq xs ys ≡ true → xs ≡ ys
bytes_eq_sound [] [] h = refl
bytes_eq_sound [] (y ∷ ys) h = cc
bytes_eq_sound (x ∷ xs) [] h = cc
bytes_eq_sound (x ∷ xs) (y ∷ ys) h = ground (arith, bytes_eq_sound xs ys)

-- Slots whose key is a byte string.
module _ {ℓ} {V : Type ℓ} where
  abbrev pub put_bytes : (List ℕ → V) → List ℕ → V → List ℕ → V
  put_bytes m k v j = if bytes_eq j k then v else m j
