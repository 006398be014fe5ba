-- ===== src/Escrow/Refund/Rules.antt =====
-- What refunds, expiries and renewals need and do.
use facilpay_contracts.Prelude.{ℕ, ◌+◌, ◌≤◌, ◌<◌, ◌≡◌, ◌≢◌, ◌⊎◌, true, some, List, arith, put}
use facilpay_contracts.Escrow.Errors.{escrow_already_expired, escrow}
use facilpay_contracts.Escrow.Refund.{
  refund_escrow, is_escrow_expired, expire_escrow, renew, extend_escrow_expiry,
}
use facilpay_contracts.Escrow.Release.Payment.{paid}
use facilpay_contracts.Escrow.Storage.{Storage}
use facilpay_contracts.Escrow.Types.{
  locked, released, disputed, resolved, cancelled, Escrow, EscrowRenewalConfig,
}
use facilpay_contracts.Host.{Address, Transfer, Env, ok, err}

-- The storage in which escrow `id` is `e` and `log` has been transferred.
abbrev pub settled : Storage → ℕ → Escrow → List Transfer → Storage
settled s id e log = record s {
  book = record (s.book) { escrows = put s.book.escrows id (some e) };
  transfers = log;
}

-- A refund that succeeds was signed by a party of the escrow, which was locked beyond its hold
-- period, or disputed. It resolves the escrow and pays its whole amount to the customer, and does
-- nothing else. A transfer of the escrow's token is made only where a token contract answers.
pub refund_escrow-pays :
    (env : Env) (caller : Address) (id : ℕ) (e : Escrow) (s t : Storage)
    → s.book.escrows id ≡ some e
    → refund_escrow env caller id s ≡ ok (tt, t)
    → (env.authorized caller ≡ true)
      × ((e.customer ≡ caller) ⊎ (e.merchant ≡ caller))
      × (((e.status ≡ locked) × (e.created_at + e.min_hold_period ≤ env.timestamp))
          ⊎ (e.status ≡ disputed))
      × (t
          ≡ settled s id
              (record e { status = resolved })
              (paid env e.token e.customer e.amount s.transfers))
unfolding refund_escrow
refund_escrow-pays env caller id e s t h r = ground arith

-- An expiry that succeeds was of a locked escrow with an expiry that has come. The escrow is
-- cancelled, the customer is paid the whole amount, and nothing else changes. A transfer of the
-- escrow's token is made only where a token contract answers.
pub expire_escrow-pays :
    (env : Env) (id : ℕ) (e : Escrow) (s t : Storage)
    → s.book.escrows id ≡ some e
    → expire_escrow env id s ≡ ok (tt, t)
    → (e.status ≡ locked)
      × (is_escrow_expired env id s ≡ true)
      × (t
          ≡ settled s id
              (record e { status = cancelled })
              (paid env e.token e.customer e.amount s.transfers))
unfolding expire_escrow is_escrow_expired
expire_escrow-pays env id e s t h r = ground arith

-- Once an escrow is released, resolved or cancelled, no refund and no expiry of it succeeds: both
-- answer with an error, whoever asks.
pub settled_no_refund :
    (env : Env) (caller : Address) (id : ℕ) (e : Escrow) (s t : Storage)
    → s.book.escrows id ≡ some e
    → (e.status ≡ released) ⊎ (e.status ≡ resolved) ⊎ (e.status ≡ cancelled)
    → (refund_escrow env caller id s ≢ ok (tt, t))
      × (expire_escrow env id s ≡ err (escrow escrow_already_expired))
unfolding refund_escrow expire_escrow
settled_no_refund env caller id e s t h done = ground arith

-- A renewal only moves the expiry of a locked escrow into the future, and to after the old one; under
-- a configuration it is counted, and never more often than allowed.
pub extend_escrow_expiry-extends :
    (env : Env) (caller : Address) (id expiry : ℕ) (e : Escrow) (s t : Storage)
    → s.book.escrows id ≡ some e
    → extend_escrow_expiry env caller id expiry s ≡ ok (tt, t)
    → (e.status ≡ locked)
      × (env.timestamp < expiry)
      × ((e.expiry_timestamp ≡ 0) ⊎ (e.expiry_timestamp < expiry))
      × (t.book.escrows id
          ≡ some (record e { expiry_timestamp = expiry; last_activity_at = env.timestamp }))
      × (t.transfers ≡ s.transfers)
unfolding extend_escrow_expiry
extend_escrow_expiry-extends env caller id expiry e s t h r = ground arith

pub extend_escrow_expiry-counts :
    (env : Env) (caller : Address) (id expiry : ℕ) (c : EscrowRenewalConfig) (s t : Storage)
    → s.renewals.config ≡ some c
    → extend_escrow_expiry env caller id expiry s ≡ ok (tt, t)
    → (c.enabled ≡ true)
      × (t.renewals.count id ≡ s.renewals.count id + 1)
      × (t.renewals.count id ≤ c.max_renewals)
unfolding extend_escrow_expiry renew
extend_escrow_expiry-counts env caller id expiry c s t h r = ground arith
