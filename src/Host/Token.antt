-- ===== src/Host/Token.antt =====
-- The client of a token contract. The contracts keep no balance of a token: what a call moves is the
-- list of transfers that it makes, the last one first.
use facilpay_contracts.Prelude.{ℕ, ◌+◌, List, [], ◌∷◌, if◌then◌else◌}
use facilpay_contracts.Prelude.Int.{ℤ, pos_part}
use facilpay_contracts.Host.Call.{Address, Transfer, Env, ok, trap, Action}

module _ {E : Type 0} (env : Env) where
  -- `token::Client::transfer`: a refusal traps.
  abbrev pub transfer : Address → Address → Address → ℤ → Action E (List Transfer) Unit
  transfer token from to amount log =
      let t : Transfer = record { token = token; from = from; to = to; amount = amount } in
      if env.accepts log t then ok (tt, t ∷ log) else trap

-- What a list of transfers moves in all.
abbrev pub moved : List Transfer → ℕ
moved [] = 0
moved (t ∷ ts) = pos_part t.amount + moved ts
