-- ===== src/Escrow/Release/Payment.antt =====
-- What a release needs and what it pays.
use facilpay_contracts.Prelude.{
  ℕ, ◌+◌, ◌-◌, ◌≤◌, ◌≡◌, ◌⊎◌, Bool, true, false, Option, some, List, ◌∷◌, arith, if◌then◌else◌,
  unwrap_or, put,
}
use facilpay_contracts.Escrow.Hierarchy.{can_parent_release}
use facilpay_contracts.Escrow.Payout.{
  transfer_if_token_contract, fee_config_of, fee_of, collect_fee, pay_out,
}
use facilpay_contracts.Escrow.Release.{
  can_release_escrow, below_threshold, settle_release, internal_release_escrow,
}
use facilpay_contracts.Escrow.Reputation.{reward_completion}
use facilpay_contracts.Escrow.Statistics.{released_after, released_value, update_all}
use facilpay_contracts.Escrow.Storage.{Storage, on_reputations, on_statistics}
use facilpay_contracts.Escrow.Types.{locked, released, Escrow}
use facilpay_contracts.Host.{Address, Transfer, Env, ok, ◌>>◌, >>=-eq-ok}
use facilpay_contracts.Prelude.Int.{ℤ, pos, ◌-ℤ◌, ltb_ℤ}

-- The transfer that `transfer_if_token_contract` makes.
abbrev pub paid : Env → Address → Address → ℤ → List Transfer → List Transfer
paid env token to amount log =
    if env.is_token token
    then record { token = token; from = env.current_contract; to = to; amount = amount } ∷ log
    else log

-- `can_release_escrow` changes nothing, and passes only a locked escrow; without `early_release`
-- only after its release time and its hold period.
pub can_release_escrow-needs :
    (env : Env) (id : ℕ) (early : Bool) (e : Escrow) (s t : Storage)
    → s.book.escrows id ≡ some e
    → can_release_escrow env id early s ≡ ok (tt, t)
    → (t ≡ s)
      × (e.status ≡ locked)
      × ((early ≡ true)
          ⊎ ((e.release_timestamp ≤ env.timestamp)
              × (e.created_at + e.min_hold_period ≤ env.timestamp)))
unfolding can_release_escrow can_parent_release
can_release_escrow-needs env id early e s t h r = ground arith

-- The transfers of a payout: the fee, if it is positive, and the rest.
abbrev pub payout : Env → Storage → Address → ℤ → ℤ → Address → List Transfer
payout env s token amount fee recipient = paid env token recipient (amount -ℤ fee) (
    if ltb_ℤ (pos 0) fee
    then paid env token (fee_config_of env s).fee_recipient fee s.transfers
    else s.transfers)

-- `pay_out` makes those transfers; of the storage it changes at most the account of fees.
pub pay_out-pays :
    (env : Env) (token : Address) (amount bps : ℤ) (recipient : Address) (s t : Storage)
    → pay_out env token amount bps recipient s ≡ ok (tt, t)
    → t ≡ record s {
      transfers = payout env s token amount (fee_of amount bps) recipient;
      accumulated_fees = t.accumulated_fees;
    }
unfolding pay_out collect_fee transfer_if_token_contract
pay_out-pays env token amount bps recipient s t e = ground arith

-- What comes behind the payout leaves escrows, transfers and signers alone.
settle_release_after :
    (env : Env) (id : ℕ) (e : Escrow) (s t : Storage)
    → (on_reputations (reward_completion env id e)
          >> on_statistics (
              update_all
                (released_after e.amount (env.timestamp - e.created_at))
                (released_value e.amount)
                e.customer
                e.merchant))
        s
      ≡ ok (tt, t)
    → (t.book ≡ s.book) × (t.transfers ≡ s.transfers)
settle_release_after env id e s t r = ground arith

pub settle_release-pays :
    (env : Env) (id : ℕ) (e : Escrow) (recipient : Address) (s t : Storage)
    → settle_release env id e recipient s ≡ ok (tt, t)
    → (t.book ≡ record (s.book) { escrows = put s.book.escrows id (some e) })
      × (t.transfers ≡ payout env s e.token e.amount (fee_of e.amount e.fee_bps) recipient)
unfolding settle_release
settle_release-pays env id e recipient s t r =
    let (x, u, paying, done) =
      >>=-eq-ok (pay_out env e.token e.amount e.fee_bps recipient) _
        (record s { book = record (s.book) { escrows = put s.book.escrows id (some e) } }) r in
    ground (
      arith,
      pay_out-pays env e.token e.amount e.fee_bps recipient
          (record s { book = record (s.book) { escrows = put s.book.escrows id (some e) } }) u
          paying,
      settle_release_after env id e u t done,
    )

-- A release that succeeds: the escrow was locked and is released, and the others stay as they are;
-- its signers, if it has any, had reached their threshold; without `early_release` its times had
-- passed; the fee, if it is positive, goes to the recipient of fees, and the rest of the amount to
-- the merchant or to the recipient that replaces it. A transfer of the escrow's token is made only
-- where a token contract answers.
pub internal_release_escrow-pays :
    (env : Env) (id : ℕ) (early : Bool) (override : Option Address) (e : Escrow) (s t : Storage)
    → s.book.escrows id ≡ some e
    → internal_release_escrow env id early override s ≡ ok (tt, t)
    → (e.status ≡ locked)
      × (t.book ≡ record (s.book) {
        escrows = put s.book.escrows id (some (record e { status = released }));
      })
      × (t.transfers
          ≡ payout env s e.token e.amount
              (fee_of e.amount e.fee_bps)
              (unwrap_or override e.merchant))
      × (below_threshold (s.book.release_multisigs id) ≡ false)
      × ((early ≡ true)
          ⊎ ((e.release_timestamp ≤ env.timestamp)
              × (e.created_at + e.min_hold_period ≤ env.timestamp)))
unfolding internal_release_escrow
internal_release_escrow-pays env id early override e s t h r =
    let (x, u, passed, rest) = >>=-eq-ok (can_release_escrow env id early) _ s r in
    let needs = can_release_escrow-needs env id early e s u h passed in
    ground (
      arith,
      needs,
      settle_release-pays env id (record e { status = released }) (unwrap_or override e.merchant) s
          t,
    )
