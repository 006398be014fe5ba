-- ===== src/Escrow/SubAccounts.antt =====
-- The sub-accounts of an escrow: `create_sub_account`, `set_sub_account_fee_override`,
-- `fund_sub_account` and `release_sub_account` of contracts/escrow/src/lib.rs.
pub mod Rules
use facilpay_contracts.Prelude.{
  ℕ, zero, suc, ◌+◌, Bool, true, false, not, Option, none, some, ◌==◌, unwrap_or, put, put_at,
}
use facilpay_contracts.Escrow.Errors.{
  unauthorized, sub_account_not_found, sub_account_already_released,
  sub_account_funding_exceeds_escrow, Error, basic, escrow,
}
use facilpay_contracts.Escrow.Payout.{transfer_if_token_contract, fee_config_of, fee_of}
use facilpay_contracts.Escrow.Release.{get_escrow}
use facilpay_contracts.Escrow.Storage.{Call, on_book, on_transfers}
use facilpay_contracts.Escrow.Types.{released, EscrowSubAccount}
use facilpay_contracts.Host.{
  Address, Bytes, Env, Action, ◌>>=◌, ◌>>◌, pure, gets, ok_or, modify, err_if, when, require_auth,
  u64, i128,
}
use facilpay_contracts.Prelude.Int.{ℤ, pos, ◌+ℤ◌, ◌-ℤ◌, ◌*ℤ◌, ltb_ℤ}

abbrev pub effective_sub_account_fee_bps : EscrowSubAccount → ℤ → ℤ
effective_sub_account_fee_bps sub parent_fee_bps = unwrap_or sub.fee_bps_override parent_fee_bps

abbrev pub add_sub_account : {S : Type 0} → Option EscrowSubAccount → Bool → ℤ → Action Error S ℤ
add_sub_account none skip sum = pure sum
add_sub_account (some sub) true sum = pure sum
add_sub_account (some sub) false sum = i128 (sum +ℤ sub.amount)

-- The loop that adds up the sub-accounts 1 to `count`, those that `skip` names left out.
unfoldable pub allocated :
    {S : Type 0} → (ℕ → Option EscrowSubAccount) → (ℕ → Bool) → ℕ → Action Error S ℤ
unfolding ◌+ℤ◌
allocated slot skip zero = pure (pos 0)
allocated slot skip (suc count) =
    allocated slot skip count >>= add_sub_account (slot (suc count)) (skip (suc count))

abbrev pub sub_account_or_err : ℕ → ℕ → Call EscrowSubAccount
sub_account_or_err id sub_id = do
  s ← gets (λ s. s)
  ok_or (s.book.sub_accounts id sub_id) (escrow sub_account_not_found)

abbrev pub set_sub_account : ℕ → ℕ → EscrowSubAccount → Call Unit
set_sub_account id sub_id sub = modify (λ s. record s {
  book = record (s.book) { sub_accounts = put_at s.book.sub_accounts id sub_id (some sub) };
})

abbrev pub new_sub_account : ℕ → ℕ → Bytes → ℤ → Option ℤ → EscrowSubAccount
new_sub_account id sub_id label_hash amount fee_bps_override = record {
  escrow_id = id;
  sub_id = sub_id;
  label_hash = label_hash;
  amount = amount;
  released = false;
  release_condition = none;
  fee_bps_override = fee_bps_override;
}

unfoldable pub create_sub_account : Env → Address → ℕ → Bytes → ℤ → Option ℤ → Call ℕ
unfolding allocated ◌+ℤ◌
create_sub_account env merchant id label_hash amount fee_bps_override = do
  require_auth env merchant
  e ← get_escrow id
  s ← gets (λ s. s)
  sum ← allocated (s.book.sub_accounts id) (λ _. false) (s.book.sub_account_counter id)
  total ← i128 (sum +ℤ amount)
  err_if (ltb_ℤ e.amount total) (escrow sub_account_funding_exceeds_escrow)
  sub_id ← u64 (s.book.sub_account_counter id + 1)
  set_sub_account id sub_id (new_sub_account id sub_id label_hash amount fee_bps_override)
  on_book (modify (λ b. record b { sub_account_counter = put b.sub_account_counter id sub_id }))
  pure sub_id

unfoldable pub set_sub_account_fee_override : Env → Address → ℕ → ℕ → Option ℤ → Call Unit
set_sub_account_fee_override env merchant id sub_id fee_bps_override = do
  require_auth env merchant
  e ← get_escrow id
  err_if (not (merchant == e.merchant)) (basic unauthorized)
  sub ← sub_account_or_err id sub_id
  err_if sub.released (escrow sub_account_already_released)
  set_sub_account id sub_id (record sub { fee_bps_override = fee_bps_override })

unfoldable pub fund_sub_account : Env → Address → ℕ → ℕ → ℤ → Call Unit
unfolding allocated ◌+ℤ◌
fund_sub_account env funder id sub_id amount = do
  require_auth env funder
  e ← get_escrow id
  sub ← sub_account_or_err id sub_id
  s ← gets (λ s. s)
  others ← allocated (s.book.sub_accounts id) (λ i. i == sub_id) (s.book.sub_account_counter id)
  before ← i128 (others +ℤ sub.amount)
  total ← i128 (before +ℤ amount)
  err_if (ltb_ℤ e.amount total) (escrow sub_account_funding_exceeds_escrow)
  funded ← i128 (sub.amount +ℤ amount)
  set_sub_account id sub_id (record sub { amount = funded })

unfoldable pub release_sub_account : Env → Address → ℕ → ℕ → Call Unit
unfolding fee_of transfer_if_token_contract ◌*ℤ◌ ◌-ℤ◌
release_sub_account env admin id sub_id = do
  require_auth env admin
  e ← get_escrow id
  sub ← sub_account_or_err id sub_id
  err_if sub.released (escrow sub_account_already_released)
  let fee_bps = effective_sub_account_fee_bps sub e.fee_bps
  product ← i128 (sub.amount *ℤ fee_bps)
  let fee = fee_of sub.amount fee_bps
  rest ← i128 (sub.amount -ℤ fee)
  s ← gets (λ s. s)
  when (ltb_ℤ (pos 0) fee) (
      on_transfers (transfer_if_token_contract env e.token (fee_config_of env s).fee_recipient fee))
  on_transfers (transfer_if_token_contract env e.token e.merchant rest)
  set_sub_account id sub_id (record sub { released = true })
