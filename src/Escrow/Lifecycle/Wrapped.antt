-- ===== src/Escrow/Lifecycle/Wrapped.antt =====
-- The calls around releases and resolutions, and those that change no escrow.
use facilpay_contracts.Prelude.{
  ℕ, ◌≡◌, refl, ap, inl, inr, Bool, true, false, Option, none, some, arith, ◌==◌, Option-cases, put,
}
use facilpay_contracts.Escrow.Dispatch.{dispatch_action, execute_action}
use facilpay_contracts.Escrow.Dispute.{internal_resolve_dispute, resolve_dispute}
use facilpay_contracts.Escrow.Errors.{Error}
use facilpay_contracts.Escrow.Governance.{begin_execution, dispatch_admin}
use facilpay_contracts.Escrow.Lifecycle.Moves.{
  Moves, may_become_refl, Moves-same, Moves-one, Moves-trans,
}
use facilpay_contracts.Escrow.Lifecycle.Steps.{
  internal_release_escrow-Moves, internal_resolve_dispute-Moves, dispatch_release-Moves,
  dispatch_resolve-Moves,
}
use facilpay_contracts.Escrow.Refund.{renew, extend_escrow_expiry}
use facilpay_contracts.Escrow.Release.{
  internal_release_escrow, release_escrow, approve_escrow_release,
}
use facilpay_contracts.Escrow.Storage.{Governance, Storage, on_governance}
use facilpay_contracts.Escrow.SubAccounts.{
  create_sub_account, fund_sub_account, release_sub_account,
}
use facilpay_contracts.Escrow.SubAccounts.Rules.{allocated-total}
use facilpay_contracts.Escrow.Timelock.{
  queue_action, carry_out, execute_queued_action, cancel_queued_action,
}
use facilpay_contracts.Escrow.Timelock.Rules.{execute_queued_action-needs}
use facilpay_contracts.Escrow.Types.{Escrow, ActionType, AdminProposal, EscrowActionType}
use facilpay_contracts.Host.{Address, Bytes, Env, ok, Action, >>=-eq-ok}
use facilpay_contracts.Prelude.Int.{ℤ}

extend_escrow_expiry-book :
    (env : Env) (caller : Address) (id expiry : ℕ) (e : Escrow) (s t : Storage)
    → s.book.escrows id ≡ some e
    → extend_escrow_expiry env caller id expiry s ≡ ok (tt, t)
    → t.book ≡ record (s.book) {
      escrows =
          put s.book.escrows id
            (some (record e { expiry_timestamp = expiry; last_activity_at = env.timestamp }));
    }
unfolding extend_escrow_expiry renew
extend_escrow_expiry-book env caller id expiry e s t h r = ground arith

pub extend_escrow_expiry-Moves :
    (env : Env) (caller : Address) (id expiry : ℕ) (s t : Storage)
    → extend_escrow_expiry env caller id expiry s ≡ ok (tt, t)
    → Moves s t
unfolding extend_escrow_expiry
extend_escrow_expiry-Moves env caller id expiry s t r = elim (Option-cases (s.book.escrows id)) [
  | inl missing ↦ ground arith
  | inr (e, h) ↦
      let w = extend_escrow_expiry-book env caller id expiry e s t h r in
      let e' : Escrow = record e { expiry_timestamp = expiry; last_activity_at = env.timestamp } in
      Moves-one id e e' s t h (ground (arith, w)) (ground (arith, w))
        (e', refl, may_become_refl e.status, refl)
]

-- A release behind its guards.
release_escrow-inner :
    (env : Env) (admin : Address) (id : ℕ) (early : Bool) (s t : Storage)
    → release_escrow env admin id early s ≡ ok (tt, t)
    → internal_release_escrow env id early none s ≡ ok (tt, t)
unfolding release_escrow
release_escrow-inner env admin id early s t r = ground arith

pub release_escrow-Moves :
    (env : Env) (admin : Address) (id : ℕ) (early : Bool) (s t : Storage)
    → release_escrow env admin id early s ≡ ok (tt, t)
    → Moves s t
release_escrow-Moves env admin id early s t r =
    internal_release_escrow-Moves env id early none s t
      (release_escrow-inner env admin id early s t r)

resolve_dispute-inner :
    (env : Env) (admin : Address) (id : ℕ) (to_merchant : Bool) (s t : Storage)
    → resolve_dispute env admin id to_merchant s ≡ ok (tt, t)
    → internal_resolve_dispute env id to_merchant s ≡ ok (tt, t)
unfolding resolve_dispute
resolve_dispute-inner env admin id to_merchant s t r = ground arith

pub resolve_dispute-Moves :
    (env : Env) (admin : Address) (id : ℕ) (to_merchant : Bool) (s t : Storage)
    → resolve_dispute env admin id to_merchant s ≡ ok (tt, t)
    → Moves s t
resolve_dispute-Moves env admin id to_merchant s t r =
    internal_resolve_dispute-Moves env id to_merchant s t
      (resolve_dispute-inner env admin id to_merchant s t r)

-- A queued action.
carry_out-Moves :
    (env : Env) (id : ℕ) (kind : EscrowActionType) (s t : Storage)
    → carry_out env id kind s ≡ ok (tt, t)
    → Moves s t
unfolding carry_out
carry_out-Moves env id (EscrowActionType.resolve_dispute to_merchant) s t r =
    internal_resolve_dispute-Moves env id to_merchant s t r
carry_out-Moves env id EscrowActionType.force_release s t r =
    internal_release_escrow-Moves env id true none s t r
carry_out-Moves env id (EscrowActionType.update_release_timestamp time) s t r =
    Moves-same s t (ground arith) (ground arith)
carry_out-Moves env id EscrowActionType.cancel_escrow s t r =
    Moves-same s t (ground arith) (ground arith)

pub execute_queued_action-Moves :
    (env : Env) (id : ℕ) (s t : Storage) → execute_queued_action env id s ≡ ok (tt, t) → Moves s t
unfolding execute_queued_action
execute_queued_action-Moves env id s t r = elim (Option-cases (s.timelock.actions id)) [
  | inl missing ↦ ground arith
  | inr (a, h) ↦
      let needs = execute_queued_action-needs env id a s t h r in
      carry_out-Moves env a.escrow_id a.action_type
        (record s {
          timelock = record (s.timelock) {
            actions = put s.timelock.actions id (some (record a { executed = true }));
          };
        })
        t needs.4
]

-- A proposal.
on_governance-Moves :
    (m : Action Error Governance Unit) (s t : Storage) → on_governance m s ≡ ok (tt, t) → Moves s t
on_governance-Moves m s t r = Moves-same s t (ground arith) (ground arith)

dispatch_action-Moves :
    (env : Env) (kind : ActionType) (target : Address) (payload : Bytes) (s t : Storage)
    → dispatch_action env kind target payload s ≡ ok (tt, t)
    → Moves s t
unfolding dispatch_action
dispatch_action-Moves env ActionType.release_escrow target payload s t r =
    dispatch_release-Moves env _ _ s t r
dispatch_action-Moves env ActionType.resolve_dispute target payload s t r =
    dispatch_resolve-Moves env _ _ s t r
dispatch_action-Moves env ActionType.complete_payment target payload s t r =
    on_governance-Moves (dispatch_admin ActionType.complete_payment target payload) s t r
dispatch_action-Moves env ActionType.refund_payment target payload s t r =
    on_governance-Moves (dispatch_admin ActionType.refund_payment target payload) s t r
dispatch_action-Moves env ActionType.add_admin target payload s t r =
    on_governance-Moves (dispatch_admin ActionType.add_admin target payload) s t r
dispatch_action-Moves env ActionType.remove_admin target payload s t r =
    on_governance-Moves (dispatch_admin ActionType.remove_admin target payload) s t r
dispatch_action-Moves env ActionType.update_required_signatures target payload s t r =
    on_governance-Moves (dispatch_admin ActionType.update_required_signatures target payload) s t r
dispatch_action-Moves env (ActionType.update_threshold n) target payload s t r =
    on_governance-Moves (dispatch_admin (ActionType.update_threshold n) target payload) s t r

execute_action-inner :
    (env : Env) (id : Bytes) (s u : Storage) (p : AdminProposal)
    → on_governance (begin_execution env id) s ≡ ok (p, u)
    → u.book ≡ s.book
execute_action-inner env id s u p r = ground arith

pub execute_action-Moves :
    (env : Env) (id : Bytes) (s t : Storage) → execute_action env id s ≡ ok (tt, t) → Moves s t
unfolding execute_action
execute_action-Moves env id s t r =
    let (p, u, began, done) = >>=-eq-ok (on_governance (begin_execution env id)) _ s r in
    let same = execute_action-inner env id s u p began in
    Moves-trans s u t (Moves-same s u (ap (λ b. b.escrows) same) (ap (λ b. b.counter) same))
      (dispatch_action-Moves env p.action_type p.target p.payload u t done)

-- Calls that change no escrow.
pub approve_escrow_release-Moves :
    (env : Env) (signer : Address) (id : ℕ) (s t : Storage)
    → approve_escrow_release env signer id s ≡ ok (tt, t)
    → Moves s t
unfolding approve_escrow_release
approve_escrow_release-Moves env signer id s t r = Moves-same s t (ground arith) (ground arith)

pub queue_action-Moves :
    (env : Env) (admin : Address) (id : ℕ) (kind : EscrowActionType) (payload : Bytes) (n : ℕ)
    (s t : Storage)
    → queue_action env admin id kind payload s ≡ ok (n, t)
    → Moves s t
unfolding queue_action
queue_action-Moves env admin id kind payload n s t r = Moves-same s t (ground arith) (ground arith)

pub cancel_queued_action-Moves :
    (env : Env) (admin : Address) (id : ℕ) (s t : Storage)
    → cancel_queued_action env admin id s ≡ ok (tt, t)
    → Moves s t
unfolding cancel_queued_action
cancel_queued_action-Moves env admin id s t r = Moves-same s t (ground arith) (ground arith)

pub create_sub_account-Moves :
    (env : Env) (merchant : Address) (id : ℕ) (label : Bytes) (amount : ℤ) (fee : Option ℤ) (n : ℕ)
    (s t : Storage)
    → create_sub_account env merchant id label amount fee s ≡ ok (n, t)
    → Moves s t
unfolding create_sub_account
create_sub_account-Moves env merchant id label amount fee n s t r =
    let slot = s.book.sub_accounts id in
    let count = s.book.sub_account_counter id in
    Moves-same s t (grind (arith, allocated-total {S = Storage} slot (λ _. false) count s))
      (grind (arith, allocated-total {S = Storage} slot (λ _. false) count s))

pub fund_sub_account-Moves :
    (env : Env) (funder : Address) (id sub_id : ℕ) (amount : ℤ) (s t : Storage)
    → fund_sub_account env funder id sub_id amount s ≡ ok (tt, t)
    → Moves s t
unfolding fund_sub_account
fund_sub_account-Moves env funder id sub_id amount s t r =
    let slot = s.book.sub_accounts id in
    let count = s.book.sub_account_counter id in
    Moves-same s t (grind (arith, allocated-total {S = Storage} slot (λ i. i == sub_id) count s))
      (grind (arith, allocated-total {S = Storage} slot (λ i. i == sub_id) count s))

pub release_sub_account-Moves :
    (env : Env) (admin : Address) (id sub_id : ℕ) (s t : Storage)
    → release_sub_account env admin id sub_id s ≡ ok (tt, t)
    → Moves s t
unfolding release_sub_account
release_sub_account-Moves env admin id sub_id s t r = Moves-same s t (ground arith) (ground arith)
