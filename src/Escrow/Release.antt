-- ===== src/Escrow/Release.antt =====
-- Release of an escrow to the merchant: `release_escrow`, `can_release_escrow` and
-- `internal_release_escrow` of contracts/escrow/src/lib.rs, and the approvals of a release that has
-- signers.
pub mod Payment
pub mod Fees
use facilpay_contracts.Prelude.{
  ℕ, zero, suc, ◌+◌, ◌-◌, Bool, false, not, ◌||◌, Option, none, some, ltb, ◌==◌, if◌then◌else◌,
  unwrap_or, length, push_back, contains, put,
}
use facilpay_contracts.Escrow.Errors.{
  unauthorized, not_an_admin, duplicate_approval, not_found, invalid_status, already_processed,
  release_not_yet_available, release_on_hold_period, children_not_resolved,
  approvals_threshold_not_met, basic, escrow, action,
}
use facilpay_contracts.Escrow.Governance.{get_multisig_config}
use facilpay_contracts.Escrow.Hierarchy.{can_parent_release}
use facilpay_contracts.Escrow.Payout.{pay_out}
use facilpay_contracts.Escrow.Reputation.{reward_completion}
use facilpay_contracts.Escrow.Statistics.{released_after, released_value, update_all}
use facilpay_contracts.Escrow.Storage.{
  Book, Call, on_governance, on_book, on_reputations, on_statistics,
}
use facilpay_contracts.Escrow.Types.{
  EscrowStatus, locked, released, disputed, resolved, cancelled, status_eq, Escrow,
  EscrowReleaseMultisig, EscrowSubAccount, EscrowObserver,
}
use facilpay_contracts.Host.{
  Address, Env, ◌>>=◌, ◌>>◌, fail, gets, ok_or, unwrap, modify, err_if, when, require_auth, u64,
}

-- `get_escrow`, which panics on a missing escrow
abbrev pub get_escrow : ℕ → Call Escrow
get_escrow id = do s ← gets (λ s. s); unwrap (s.book.escrows id)

-- The slot `EscrowKey::Data(id)`.
abbrev pub set_escrow : ℕ → Escrow → Call Unit
set_escrow id e =
    modify (λ s. record s { book = record (s.book) { escrows = put s.book.escrows id (some e) } })

-- The guard `if !has(Data(id)) { return Err(NotFound) }` and the `get_escrow` behind it.
abbrev pub escrow_or_err : ℕ → Call Escrow
escrow_or_err id = do s ← gets (λ s. s); ok_or (s.book.escrows id) (escrow not_found)

-- The loop of `verify_observer_access`: the first grant to `observer` decides.
abbrev grants : (ℕ → Option EscrowObserver) → ℕ → ℕ → ℕ → Address → Bool
grants slot zero at now observer = false
grants slot (suc rest) at now observer =
    let later = grants slot rest (at + 1) now observer in
    elim (slot at) [
      | none ↦ later
      | some o ↦ if o.observer == observer then ltb now o.expires_at else later
    ]

unfoldable pub verify_observer_access : Env → ℕ → Address → Book → Bool
verify_observer_access env id observer b =
    grants (b.observers id) (b.observer_count id) 0 env.timestamp observer

-- The loop of `can_release_escrow` over the sub-accounts 1 to `count`: is one of them unreleased?
abbrev pub any_unreleased : (ℕ → Option EscrowSubAccount) → ℕ → Bool
any_unreleased slot zero = false
any_unreleased slot (suc count) =
    any_unreleased slot count
    || elim (slot (suc count)) [ none ↦ false | some sub ↦ not sub.released ]

-- `match escrow.status`
unfoldable pub check_status : Env → Escrow → Bool → EscrowStatus → Call Unit
check_status env e early_release locked = when (not early_release) do
  err_if (ltb env.timestamp e.release_timestamp) (escrow release_not_yet_available)
  held_until ← u64 (e.created_at + e.min_hold_period)
  err_if (ltb env.timestamp held_until) (escrow release_on_hold_period)
check_status env e early_release released = fail (escrow already_processed)
check_status env e early_release disputed = fail (escrow invalid_status)
check_status env e early_release resolved = fail (escrow already_processed)
check_status env e early_release cancelled = fail (escrow already_processed)

unfoldable pub can_release_escrow : Env → ℕ → Bool → Call Unit
unfolding check_status
can_release_escrow env id early_release = do
  e ← escrow_or_err id
  clear ← on_book (can_parent_release id)
  err_if (not clear) (escrow children_not_resolved)
  s ← gets (λ s. s)
  err_if (any_unreleased (s.book.sub_accounts id) (s.book.sub_account_counter id))
      (escrow invalid_status)
  check_status env e early_release e.status

abbrev pub below_threshold : Option EscrowReleaseMultisig → Bool
below_threshold none = false
below_threshold (some m) = ltb (length m.approvals) m.threshold

-- `internal_release_escrow` behind its guards: the status, the payout, reputation and analytics.
unfoldable pub settle_release : Env → ℕ → Escrow → Address → Call Unit
settle_release env id e recipient = do
  set_escrow id e
  pay_out env e.token e.amount e.fee_bps recipient
  on_reputations (reward_completion env id e)
  on_statistics (
      update_all (released_after e.amount (env.timestamp - e.created_at)) (released_value e.amount)
        e.customer e.merchant)

unfoldable pub internal_release_escrow : Env → ℕ → Bool → Option Address → Call Unit
internal_release_escrow env id early_release recipient_override = do
  can_release_escrow env id early_release
  s ← gets (λ s. s)
  err_if (below_threshold (s.book.release_multisigs id)) (action approvals_threshold_not_met)
  stored ← get_escrow id
  settle_release env id
      (record stored {
        status = if status_eq stored.status locked then released else stored.status;
      })
      (unwrap_or recipient_override stored.merchant)

unfoldable pub release_escrow : Env → Address → ℕ → Bool → Call Unit
unfolding verify_observer_access
release_escrow env admin id early_release = do
  require_auth env admin
  s ← gets (λ s. s)
  err_if (verify_observer_access env id admin s.book) (basic unauthorized)
  when (not (s.governance.trusted_bridges admin)) do
    config ← on_governance get_multisig_config
    err_if (not (contains config.admins admin)) (basic not_an_admin)
    err_if early_release (basic unauthorized)
  internal_release_escrow env id early_release none

unfoldable pub approve_escrow_release : Env → Address → ℕ → Call Unit
approve_escrow_release env signer id = do
  require_auth env signer
  e ← escrow_or_err id
  err_if (not (status_eq e.status locked)) (escrow invalid_status)
  s ← gets (λ s. s)
  m ← ok_or (s.book.release_multisigs id) (escrow not_found)
  err_if (not (contains m.signers signer)) (basic unauthorized)
  err_if (contains m.approvals signer) (basic duplicate_approval)
  on_book (
      modify (λ b. record b {
        release_multisigs =
            put b.release_multisigs id
              (some (record m { approvals = push_back m.approvals signer }));
      }))
