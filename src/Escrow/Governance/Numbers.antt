-- ===== src/Escrow/Governance/Numbers.antt =====
-- `u64_to_string` and `read_u64_from_bytes` of contracts/escrow/src/lib.rs.
use facilpay_contracts.Prelude.{
  ℕ, zero, suc, ◌+◌, ◌*◌, ◌/◌, ◌%◌, Option, none, some, [], ◌∷◌, ◌==◌, if◌then◌else◌, unwrap_or,
  get_elem?,
}
use facilpay_contracts.Host.{Bytes, Action, pure, unwrap, u64_bound}

-- `while num > 0 { digits[count] = b'0' + num % 10; … }` and the reversal into `buf`. `room` is what
-- is left of the 20 bytes of `digits`; a write past them panics.
unfoldable pub digits_loop : ℕ → ℕ → Bytes → Option Bytes
digits_loop room zero out = some out
digits_loop zero (suc _) out = none
digits_loop (suc room) (suc n) out = digits_loop room (suc n / 10) ((b'0' + suc n % 10) ∷ out)

unfoldable pub u64_to_string : {E S : Type 0} → ℕ → Action E S Bytes
unfolding digits_loop
u64_to_string n = if n == 0 then pure (b'0' ∷ []) else unwrap (digits_loop 20 n [])

-- `result = (result << 8) | byte` over the eight bytes from `offset`; a byte that is missing is 0,
-- and the shift drops what leaves the 64 bits.
read_loop : ℕ → Bytes → ℕ → ℕ → ℕ
read_loop zero payload at result = result
read_loop (suc rest) payload at result =
    read_loop rest payload (at + 1)
      ((result * 256) % u64_bound + unwrap_or (get_elem? payload at) 0)

unfoldable pub read_u64_from_bytes : Bytes → ℕ → ℕ
unfolding read_loop
read_u64_from_bytes payload offset = read_loop 8 payload offset 0
