-- ===== src/Host/Words.antt =====
-- Machine integers: `u32`, `u64`, `i64` and `i128`. The release profile checks for overflow, so an
-- operation whose exact result does not fit traps.
use facilpay_contracts.Prelude.{
  ℕ, zero, suc, ◌+◌, ◌-◌, ◌%◌, min, Bool, ltb, leb, if◌then◌else◌, ◌&&◌, true, false, Option, none,
  some,
}
use facilpay_contracts.Prelude.Int.{ℤ, pos, negsuc, pos_part, neg_part, ◌-ℤ◌, ◌/ℤ◌}
use facilpay_contracts.Host.Call.{ok, trap, Action}

abbrev pub u32_bound : ℕ
u32_bound = 4294967296

abbrev pub u64_bound : ℕ
u64_bound = 18446744073709551616

-- Results in range, or a trap.
module _ {E S : Type 0} where
  abbrev pub u32 : ℕ → Action E S ℕ
  u32 n s = elim (ltb n u32_bound) [ true ↦ ok (n, s) | false ↦ trap ]

  abbrev pub u64 : ℕ → Action E S ℕ
  u64 n s = elim (ltb n u64_bound) [ true ↦ ok (n, s) | false ↦ trap ]

  -- `a - b` on an unsigned type
  abbrev pub unsigned_sub : ℕ → ℕ → Action E S ℕ
  unsigned_sub a b s = elim (leb b a) [ true ↦ ok (a - b, s) | false ↦ trap ]

abbrev pub fits_i64 : ℤ → Bool
fits_i64 z = ltb (pos_part z) 9223372036854775808 && leb (neg_part z) 9223372036854775808

abbrev pub fits_i128 : ℤ → Bool
fits_i128 z =
    ltb (pos_part z) 170141183460469231731687303715884105728
    && leb (neg_part z) 170141183460469231731687303715884105728

module _ {E S : Type 0} where
  abbrev pub i64 : ℤ → Action E S ℤ
  i64 z s = elim (fits_i64 z) [ true ↦ ok (z, s) | false ↦ trap ]

  abbrev pub i128 : ℤ → Action E S ℤ
  i128 z s = elim (fits_i128 z) [ true ↦ ok (z, s) | false ↦ trap ]

-- `saturating_add` and `saturating_mul`
abbrev pub saturating_u64 : ℕ → ℕ
saturating_u64 n = min n 18446744073709551615

abbrev pub saturating_u32 : ℕ → ℕ
saturating_u32 n = min n 4294967295

-- `as u32` of an `i128`
abbrev pub as_u32 : ℤ → ℕ
as_u32 z = (pos_part z % u32_bound + (u32_bound - neg_part z % u32_bound)) % u32_bound

-- `saturating_add`, `saturating_sub` and `saturating_mul` on `i128`
abbrev pub saturating_i128 : ℤ → ℤ
saturating_i128 (pos n) = pos (min n 170141183460469231731687303715884105727)
saturating_i128 (negsuc n) = negsuc (min n 170141183460469231731687303715884105727)

-- `checked_mul` and `checked_add` on `i128`
abbrev pub checked_i128 : ℤ → Option ℤ
checked_i128 z = if fits_i128 z then some z else none

-- `checked_div` on `i128`
abbrev pub checked_div : ℤ → ℤ → Option ℤ
checked_div a (pos zero) = none
checked_div a (pos (suc n)) = some (a /ℤ suc n)
checked_div a (negsuc n) = checked_i128 (pos 0 -ℤ (a /ℤ suc n))
