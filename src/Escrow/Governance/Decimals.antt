-- ===== src/Escrow/Governance/Decimals.antt =====
-- The proposal ids: `u64_to_string` writes a counter in decimal, within its buffer of 20 bytes.
use facilpay_contracts.Prelude.{
  ℕ, zero, suc, ◌+◌, ◌-◌, ◌*◌, ◌/◌, ◌%◌, ◌^◌, ◌≤◌, ◌<◌, ◌≡◌, refl, ap, ◌∙◌, some, [], ◌∷◌, arith,
  length,
}
use facilpay_contracts.Escrow.Errors.{Error}
use facilpay_contracts.Escrow.Governance.Numbers.{digits_loop, u64_to_string}
use facilpay_contracts.Escrow.Storage.{Governance}
use facilpay_contracts.Host.{Bytes, ok, u64_bound}
use native.Mathlib.Nat.{pow-suc}

-- The number that decimal digits stand for, after the digits of `acc`.
abbrev pub value_from : ℕ → Bytes → ℕ
value_from acc [] = acc
value_from acc (d ∷ ds) = value_from (acc * 10 + (d - b'0')) ds

digits_loop-value :
    (room n : ℕ) (out ds : Bytes)
    → digits_loop room n out ≡ some ds
    → value_from 0 ds ≡ value_from n out
unfolding digits_loop
digits_loop-value room zero out ds e = ground arith
digits_loop-value zero (suc n) out ds e = cc
digits_loop-value (suc room) (suc n) out ds e =
    digits_loop-value room (suc n / 10) ((b'0' + suc n % 10) ∷ out) ds e
    ∙ ap (λ k. value_from k out) (omega arith)

digits_loop_total :
    (room n : ℕ) (out : Bytes)
    → n < 10 ^ room
    → (ds : Bytes) × (digits_loop room n out ≡ some ds) × (length ds ≤ room + length out)
unfolding digits_loop
digits_loop_total room zero out h = (out, ground arith, omega arith)
digits_loop_total zero (suc n) out h = absurd (omega arith)
digits_loop_total (suc room) (suc n) out h =
    let (ds, e, l) =
      digits_loop_total room (suc n / 10) ((b'0' + suc n % 10) ∷ out)
        (omega (arith, pow-suc 10 room)) in
    (ds, e, omega arith)

u64_to_string-suc :
    (n : ℕ) (ds : Bytes) (g : Governance)
    → digits_loop 20 (suc n) [] ≡ some ds
    → u64_to_string {E = Error} (suc n) g ≡ ok (ds, g)
unfolding u64_to_string
u64_to_string-suc n ds g e = ground arith

-- Every `u64` is written, in at most 20 bytes, and the digits stand for it: so two counters never
-- share a proposal id.
pub u64_to_string_total :
    (n : ℕ) (g : Governance)
    → n < u64_bound
    → (ds : Bytes) × (u64_to_string {E = Error} n g ≡ ok (ds, g))
      × (length ds ≤ 20)
      × (value_from 0 ds ≡ n)
unfolding u64_to_string
u64_to_string_total zero g h = (b'0' ∷ [], refl, omega arith, refl)
u64_to_string_total (suc n) g h =
    let (ds, e, l) = digits_loop_total 20 (suc n) [] (omega arith) in
    (ds, u64_to_string-suc n ds g e, omega arith, digits_loop-value 20 (suc n) [] ds e)

pub u64_to_string-injective :
    (m n : ℕ) (ds : Bytes) (g h : Governance)
    → u64_to_string {E = Error} m g ≡ ok (ds, g)
    → u64_to_string {E = Error} n h ≡ ok (ds, h)
    → m < u64_bound
    → n < u64_bound
    → m ≡ n
u64_to_string-injective m n ds g h em en bm bn =
    let (xs, ex, _, vx) = u64_to_string_total m g bm in
    let (ys, ey, _, vy) = u64_to_string_total n h bn in ground (arith)
