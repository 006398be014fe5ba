-- ===== src/Escrow/Examples/SubAccounts.antt =====
-- Sub-accounts of a concrete escrow.
use facilpay_contracts.Prelude.{◌≡◌, refl, true, false, none, some, [], unwrap_or, put, put_at}
use facilpay_contracts.Escrow.Examples.{now, start, locked_escrow, holding}
use facilpay_contracts.Escrow.Payout.{transfer_if_token_contract, fee_of}
use facilpay_contracts.Escrow.Release.Payment.{payout}
use facilpay_contracts.Escrow.Storage.{Storage}
use facilpay_contracts.Escrow.SubAccounts.{
  allocated, new_sub_account, create_sub_account, release_sub_account,
}
use facilpay_contracts.Escrow.SubAccounts.Rules.{
  total_but, allocation, create_sub_account-allocates, release_sub_account-pays,
}
use facilpay_contracts.Escrow.Types.{EscrowSubAccount}
use facilpay_contracts.Host.{after}
use facilpay_contracts.Prelude.Int.{pos, ◌+ℤ◌, ◌-ℤ◌, ◌*ℤ◌, ◌/ℤ◌, ◌≤ℤ◌}

-- Escrow 1 with one sub-account.
abbrev sub : EscrowSubAccount
sub = new_sub_account 1 1 [] (pos 400) none

abbrev divided : Storage
divided = record start {
  book = record ((holding locked_escrow).book) {
    sub_accounts = put_at (λ _ _. none) 1 1 (some sub);
    sub_account_counter = put (λ _. 0) 1 1;
  };
}

abbrev divided_again : Storage
divided_again = after (divided) (create_sub_account now 20 1 [] (pos 600) none (divided))

create_sub_account-allocates_example :
    (divided_again.book.escrows ≡ divided.book.escrows)
    × (allocation divided_again 1 ≡ allocation divided 1 +ℤ (pos 600))
    × (allocation divided_again 1 ≤ℤ locked_escrow.amount)
unfolding allocated total_but create_sub_account ◌+ℤ◌ ◌-ℤ◌ ◌*ℤ◌ ◌/ℤ◌
create_sub_account-allocates_example =
    create_sub_account-allocates now 20 1 [] (pos 600) none 2 locked_escrow divided divided_again
      refl refl

abbrev sub_released : Storage
sub_released = after (divided) (release_sub_account now 77 1 1 (divided))

release_sub_account-pays_example :
    (sub.released ≡ false)
    × (sub_released.book.sub_accounts 1 1 ≡ some (record sub { released = true }))
    × (sub_released.book.escrows ≡ divided.book.escrows)
    × (sub_released.transfers
        ≡ payout now divided locked_escrow.token sub.amount
            (fee_of sub.amount (unwrap_or sub.fee_bps_override locked_escrow.fee_bps))
            locked_escrow.merchant)
unfolding release_sub_account fee_of transfer_if_token_contract ◌+ℤ◌ ◌-ℤ◌ ◌*ℤ◌ ◌/ℤ◌
release_sub_account-pays_example =
    release_sub_account-pays now 77 1 1 locked_escrow sub divided sub_released refl refl refl
