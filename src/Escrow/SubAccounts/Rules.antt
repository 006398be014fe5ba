-- ===== src/Escrow/SubAccounts/Rules.antt =====
-- What the sub-accounts of an escrow may hold, and what the release of one pays.
use facilpay_contracts.Prelude.{
  ℕ, zero, suc, ◌≤◌, ◌<◌, ◌≡◌, refl, ap, ◌∙◌, inl, inr, Bool, true, false, Option, none, some,
  arith, ◌==◌, if◌then◌else◌, le-or-lt, unwrap_or, put_at,
}
use facilpay_contracts.Escrow.Payout.{transfer_if_token_contract, fee_of}
use facilpay_contracts.Escrow.Release.Payment.{payout}
use facilpay_contracts.Escrow.Storage.{Storage}
use facilpay_contracts.Escrow.SubAccounts.{
  add_sub_account, allocated, new_sub_account, create_sub_account, fund_sub_account,
  release_sub_account,
}
use facilpay_contracts.Escrow.Types.{Escrow, EscrowSubAccount}
use facilpay_contracts.Host.{Address, Bytes, Env, ok, >>=-eq-ok}
use facilpay_contracts.Prelude.Int.{ℤ, pos, ◌+ℤ◌, ◌≤ℤ◌, +ℤ_zero, +ℤ_swap, +ℤ_assoc}

abbrev pub amount_of : Option EscrowSubAccount → ℤ
amount_of none = pos 0
amount_of (some sub) = sub.amount

-- The sum of the sub-accounts 1 to `count`, those that `skip` names left out.
unfoldable pub total_but : (ℕ → Bool) → (ℕ → Option EscrowSubAccount) → ℕ → ℤ
total_but skip slot zero = pos 0
total_but skip slot (suc count) =
    if skip (suc count)
    then total_but skip slot count
    else total_but skip slot count +ℤ amount_of (slot (suc count))

-- The sum of all sub-accounts of an escrow.
abbrev pub allocation : Storage → ℕ → ℤ
allocation s id = total_but (λ _. false) (s.book.sub_accounts id) (s.book.sub_account_counter id)

add_sub_account-total :
    {S : Type 0} (o : Option EscrowSubAccount) (skip : Bool) (sum : ℤ) (s t : S) (r : ℤ)
    → add_sub_account o skip sum s ≡ ok (r, t)
    → (t ≡ s) × (r ≡ (if skip then sum else sum +ℤ amount_of o))
add_sub_account-total none true sum s t r e = ground arith
add_sub_account-total none false sum s t r e = ground (arith, +ℤ_zero sum)
add_sub_account-total (some sub) true sum s t r e = ground arith
add_sub_account-total (some sub) false sum s t r e = ground arith

-- The loop computes that sum and changes nothing.
pub allocated-total :
    {S : Type 0} (slot : ℕ → Option EscrowSubAccount) (skip : ℕ → Bool) (count : ℕ) (s t : S)
    (sum : ℤ)
    → allocated slot skip count s ≡ ok (sum, t)
    → (t ≡ s) × (sum ≡ total_but skip slot count)
unfolding allocated total_but
allocated-total slot skip zero s t sum r = ground arith
allocated-total slot skip (suc count) s t sum r =
    let (x, u, first, last) = >>=-eq-ok (allocated slot skip count) _ s r in
    let (p, q) = allocated-total slot skip count s u x first in
    let (p', q') = add_sub_account-total (slot (suc count)) (skip (suc count)) x u t sum last in
    (p' ∙ p, q' ∙ ap (λ y. if skip (suc count) then y else y +ℤ amount_of (slot (suc count))) q)

-- Slots beyond the count do not matter.
total_but-ext :
    (skip : ℕ → Bool) (f g : ℕ → Option EscrowSubAccount) (count : ℕ)
    → ((i : ℕ) → i ≤ count → skip i ≡ false → f i ≡ g i)
    → total_but skip f count ≡ total_but skip g count
unfolding total_but
total_but-ext skip f g zero h = refl
total_but-ext skip f g (suc count) h =
    ground (arith, total_but-ext skip f g count (λ i b. h i (omega arith)), h (suc count))

-- A sub-account out of range need not be left out.
total_but_beyond :
    (f : ℕ → Option EscrowSubAccount) (sub_id count : ℕ)
    → count < sub_id
    → total_but (λ i. i == sub_id) f count ≡ total_but (λ _. false) f count
unfolding total_but
total_but_beyond f sub_id zero b = refl
total_but_beyond f sub_id (suc count) b =
    ground (arith, total_but_beyond f sub_id count (omega arith))

-- One sub-account in range, and the others.
total_but-split :
    (f : ℕ → Option EscrowSubAccount) (sub_id count : ℕ)
    → 0 < sub_id
    → sub_id ≤ count
    → total_but (λ _. false) f count ≡ total_but (λ i. i == sub_id) f count +ℤ amount_of (f sub_id)
unfolding total_but
total_but-split f sub_id zero p b = ground arith
total_but-split f sub_id (suc count) p b = elim (le-or-lt sub_id count) [
  | inl le ↦ ground (
    arith,
    total_but-split f sub_id count p le,
    +ℤ_swap (total_but (λ i. i == sub_id) f count) (amount_of (f sub_id))
        (amount_of (f (suc count))),
  )
  | inr lt ↦ ground (arith, total_but_beyond f sub_id count lt)
]

-- The totals after a write.
total_but-grows :
    (slots : ℕ → ℕ → Option EscrowSubAccount) (id count : ℕ) (sub : EscrowSubAccount)
    → total_but (λ _. false) (put_at slots id (suc count) (some sub) id) (suc count)
      ≡ total_but (λ _. false) (slots id) count +ℤ sub.amount
unfolding total_but
total_but-grows slots id count sub = ground (
  arith,
  total_but-ext (λ _. false) (put_at slots id (suc count) (some sub) id) (slots id) count
      (λ i b _. ground arith),
)

total_but-changes :
    (slots : ℕ → ℕ → Option EscrowSubAccount) (id sub_id count : ℕ) (sub : EscrowSubAccount)
    → 0 < sub_id
    → sub_id ≤ count
    → total_but (λ _. false) (put_at slots id sub_id (some sub) id) count
      ≡ total_but (λ i. i == sub_id) (slots id) count +ℤ sub.amount
total_but-changes slots id sub_id count sub p b = ground (
  arith,
  total_but-split (put_at slots id sub_id (some sub) id) sub_id count p b,
  total_but-ext (λ i. i == sub_id) (put_at slots id sub_id (some sub) id) (slots id) count
      (λ i b q. ground (arith, q)),
)

create_sub_account-writes :
    (env : Env) (merchant : Address) (id : ℕ) (label_hash : Bytes) (amount : ℤ) (fee : Option ℤ)
    (sub_id : ℕ) (e : Escrow) (s t : Storage)
    → s.book.escrows id ≡ some e
    → create_sub_account env merchant id label_hash amount fee s ≡ ok (sub_id, t)
    → (sub_id ≡ suc (s.book.sub_account_counter id))
      × (t.book.escrows ≡ s.book.escrows)
      × (t.book.sub_accounts
          ≡ put_at s.book.sub_accounts id sub_id
              (some (new_sub_account id sub_id label_hash amount fee)))
      × (t.book.sub_account_counter id ≡ sub_id)
      × (allocation s id +ℤ amount ≤ℤ e.amount)
unfolding create_sub_account
create_sub_account-writes env merchant id label_hash amount fee sub_id e s t h r = grind (
  arith,
  allocated-total {S = Storage} (s.book.sub_accounts id) (λ _. false)
      (s.book.sub_account_counter id) s,
)

fund_sub_account-writes :
    (env : Env) (funder : Address) (id sub_id : ℕ) (amount : ℤ) (e : Escrow)
    (sub : EscrowSubAccount) (s t : Storage)
    → s.book.escrows id ≡ some e
    → s.book.sub_accounts id sub_id ≡ some sub
    → fund_sub_account env funder id sub_id amount s ≡ ok (tt, t)
    → (t.book ≡ record (s.book) {
      sub_accounts =
          put_at s.book.sub_accounts id sub_id
            (some (record sub { amount = sub.amount +ℤ amount }));
    })
      × (total_but (λ i. i == sub_id) (s.book.sub_accounts id) (s.book.sub_account_counter id)
            +ℤ sub.amount
            +ℤ amount
          ≤ℤ e.amount)
unfolding fund_sub_account
fund_sub_account-writes env funder id sub_id amount e sub s t h k r = grind (
  arith,
  allocated-total {S = Storage} (s.book.sub_accounts id) (λ i. i == sub_id)
      (s.book.sub_account_counter id) s,
)

-- A sub-account is created only if all sub-accounts together stay within the amount of the escrow,
-- which itself does not change.
pub create_sub_account-allocates :
    (env : Env) (merchant : Address) (id : ℕ) (label_hash : Bytes) (amount : ℤ) (fee : Option ℤ)
    (sub_id : ℕ) (e : Escrow) (s t : Storage)
    → s.book.escrows id ≡ some e
    → create_sub_account env merchant id label_hash amount fee s ≡ ok (sub_id, t)
    → (t.book.escrows ≡ s.book.escrows)
      × (allocation t id ≡ allocation s id +ℤ amount)
      × (allocation t id ≤ℤ e.amount)
create_sub_account-allocates env merchant id label_hash amount fee sub_id e s t h r = ground (
  arith,
  create_sub_account-writes env merchant id label_hash amount fee sub_id e s t h r,
  total_but-grows s.book.sub_accounts id (s.book.sub_account_counter id)
      (new_sub_account id sub_id label_hash amount fee),
)

-- Funding a sub-account that was created keeps all sub-accounts together within the amount of the
-- escrow, which itself does not change.
pub fund_sub_account-allocates :
    (env : Env) (funder : Address) (id sub_id : ℕ) (amount : ℤ) (e : Escrow)
    (sub : EscrowSubAccount) (s t : Storage)
    → s.book.escrows id ≡ some e
    → s.book.sub_accounts id sub_id ≡ some sub
    → 0 < sub_id
    → sub_id ≤ s.book.sub_account_counter id
    → fund_sub_account env funder id sub_id amount s ≡ ok (tt, t)
    → (t.book.escrows ≡ s.book.escrows)
      × (allocation t id ≡ allocation s id +ℤ amount)
      × (allocation t id ≤ℤ e.amount)
fund_sub_account-allocates env funder id sub_id amount e sub s t h k p b r =
    let others =
      total_but (λ i. i == sub_id) (s.book.sub_accounts id) (s.book.sub_account_counter id) in
    let funded : EscrowSubAccount = record sub { amount = sub.amount +ℤ amount } in
    ground (
      arith,
      fund_sub_account-writes env funder id sub_id amount e sub s t h k r,
      total_but-split (s.book.sub_accounts id) sub_id (s.book.sub_account_counter id) p b,
      total_but-changes s.book.sub_accounts id sub_id (s.book.sub_account_counter id) funded p b,
      +ℤ_assoc others sub.amount amount,
    )

-- A release of a sub-account that succeeds was of one that was not released, and marks it: the fee,
-- at the sub-account's own rate if it has one and at the escrow's if not, goes to the recipient of fees and the rest of its
-- amount to the merchant, and the escrow keeps its full amount and its status. A transfer of the
-- escrow's token is made only where a token contract answers.
pub release_sub_account-pays :
    (env : Env) (admin : Address) (id sub_id : ℕ) (e : Escrow) (sub : EscrowSubAccount)
    (s t : Storage)
    → s.book.escrows id ≡ some e
    → s.book.sub_accounts id sub_id ≡ some sub
    → release_sub_account env admin id sub_id s ≡ ok (tt, t)
    → (sub.released ≡ false)
      × (t.book.sub_accounts id sub_id ≡ some (record sub { released = true }))
      × (t.book.escrows ≡ s.book.escrows)
      × (t.transfers
          ≡ payout env s e.token sub.amount
              (fee_of sub.amount (unwrap_or sub.fee_bps_override e.fee_bps))
              e.merchant)
unfolding release_sub_account transfer_if_token_contract
release_sub_account-pays env admin id sub_id e sub s t h k r = ground arith
