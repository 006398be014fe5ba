-- ===== src/Refund/Requests.antt =====
-- Requests for refunds of contracts/refund/src/lib.rs, their approval and their processing.
pub mod Indexed
pub mod Totals
pub mod Processing
use facilpay_contracts.Prelude.{
  ℕ, zero, suc, ◌+◌, Bool, true, false, not, ◌&&◌, Option, none, some, ltb, leb, ◌==◌,
  if◌then◌else◌, unwrap_or, is_some, put,
}
use facilpay_contracts.Host.{
  Address, Bytes, Env, Action, ◌>>=◌, ◌>>◌, pure, gets, ok_or, modify, err_if, when, require_auth,
  zoom, u64, i128, saturating_u64, saturating_i128,
}
use facilpay_contracts.Prelude.Int.{ℤ, pos, ◌+ℤ◌, ltb_ℤ, leb_ℤ}
use facilpay_contracts.Refund.Breaker.{check_and_update_circuit_breaker, check_fraud_signals}
use facilpay_contracts.Refund.Errors.{
  invalid_amount, refund_not_found, invalid_payment_id, invalid_status, refund_exceeds_payment,
  total_refunds_exceed_payment, refund_window_expired, payment_ownership_mismatch,
  address_flagged_for_fraud, customer_blocked_from_refund, unsupported_refund_token, Error, core,
  ext,
}
use facilpay_contracts.Refund.History.{append_customer_refund_history}
use facilpay_contracts.Refund.Limits.{
  check_payment_refund_cap, update_payment_refund_usage,
  check_and_update_customer_refund_rate_limit, use_quota, update_customer_refund_cooldown,
  deduct_refund_fee,
}
use facilpay_contracts.Refund.Policies.{
  get_effective_refund_policy, validate_against_policy, check_refund_eligibility_internal,
}
use facilpay_contracts.Refund.StatusIndex.{add_to_status_index, remove_from_status_index}
use facilpay_contracts.Refund.Storage.{
  StatusIndex, Ledger, Policies, FraudSignal, RefundStorage, RefundCall, on_ledger, on_breaker,
  on_fraud, on_merchant_refunds, on_payment_refunds, on_limits, on_policies, on_history, append_to,
}
use facilpay_contracts.Refund.Types.{
  RefundStatus, requested, approved, processed, status_code, RefundReasonCode, RefundRecord,
  EligibilityRule, allow, block, RefundTtlConfig,
}

abbrev pub refund_or_err : ℕ → RefundCall RefundRecord
refund_or_err id = do s ← gets (λ s. s); ok_or (s.ledger.refunds id) (core refund_not_found)

-- The calls of the status index, on the ledger.
abbrev pub on_index : Action Error StatusIndex Unit → Action Error Ledger Unit
on_index = zoom (λ l. l.index) (λ l x. record l { index = x })

-- What every change of a status does: `remove_from_status_index` from the old status, the new
-- record, `add_to_status_index` under its status.
unfoldable pub move_refund : RefundStatus → ℕ → RefundRecord → Action Error Ledger Unit
unfolding remove_from_status_index add_to_status_index
move_refund old id r = do
  on_index (remove_from_status_index old id)
  modify (λ l. record l { refunds = put l.refunds id (some r) })
  on_index (add_to_status_index r.status id)

-- A new record under the next number.
unfoldable pub enter_refund : RefundRecord → Action Error Ledger Unit
unfolding add_to_status_index
enter_refund r = do
  modify (λ l. record l { refunds = put l.refunds r.id (some r); counter = r.id })
  on_index (add_to_status_index r.status r.id)

-- One round of the loop of `get_total_refunded_amount`.
abbrev pub total_part : {S : Type 0} → Option RefundRecord → ℕ → ℤ → Action Error S ℤ
total_part none payment_id total = pure total
total_part (some r) payment_id total =
    if r.payment_id == payment_id && (status_code r.status == 3)
    then i128 (total +ℤ r.amount)
    else pure total

-- The loop, from number `id` on: the processed refunds of a payment.
abbrev pub total_loop : {S : Type 0} → (ℕ → Option RefundRecord) → ℕ → ℕ → ℕ → ℤ → Action Error S ℤ
total_loop refunds payment_id zero id total = pure total
total_loop refunds payment_id (suc rounds) id total = do
  total' ← total_part (refunds id) payment_id total
  total_loop refunds payment_id rounds (id + 1) total'

unfoldable pub get_total_refunded_amount : ℕ → RefundCall ℤ
unfolding ◌+ℤ◌
get_total_refunded_amount payment_id = do
  s ← gets (λ s. s)
  total_loop s.ledger.refunds payment_id s.ledger.counter 1 (pos 0)

unfoldable pub can_refund_payment : ℕ → ℤ → ℤ → RefundCall Bool
unfolding get_total_refunded_amount ◌+ℤ◌
can_refund_payment payment_id requested_amount original_amount = do
  total_refunded ← get_total_refunded_amount payment_id
  err_if (ltb_ℤ original_amount (saturating_i128 (requested_amount +ℤ total_refunded)))
      (core total_refunds_exceed_payment)
  pure true

-- `owns` is the answer of the payment contract at an address to `check_payment_customer`, and `false`
-- where the call fails.
unfoldable pub verify_payment_ownership :
    (owns : Address → ℕ → Address → Bool) → ℕ → Address → RefundStorage → Bool
verify_payment_ownership owns payment_id customer s = elim s.payment_contract [
  | none ↦ false
  | some contract ↦ owns contract payment_id customer
]

-- The status of a request: approved at once if the merchant whose policy counts allows it.
abbrev pub initial_status : Bool → Address → ℤ → Policies → RefundStatus
initial_status force_approved merchant amount p =
    let effective_merchant : Address = elim (get_effective_refund_policy merchant p) [
      | none ↦ merchant
      | some policy ↦ policy.merchant
    ] in
    let requires_approval = unwrap_or (p.requires_admin_approval effective_merchant) true in
    if force_approved
    then approved
    else if not requires_approval && leb_ℤ amount (p.auto_approve_below effective_merchant)
    then approved
    else requested

-- `env.storage().get(RefundTTLConfig).filter(active).map(…)`
abbrev pub ttl_end : ℕ → Option RefundTtlConfig → Option ℕ
ttl_end now none = none
ttl_end now (some config) =
    if config.active then some (saturating_u64 (now + config.default_ttl_seconds)) else none

-- The arguments of a request.
pub record RefundRequest : Type 0 where
  pub merchant : Address
  pub payment_id : ℕ
  pub customer : Address
  pub amount : ℤ
  pub original_payment_amount : ℤ
  pub token : Address
  pub reason : Bytes
  pub reason_code : RefundReasonCode
  pub payment_created_at : ℕ

abbrev pub is_unreviewed : Option FraudSignal → Bool
is_unreviewed none = false
is_unreviewed (some signal) = not signal.reviewed

abbrev pub is_block : EligibilityRule → Bool
is_block allow = false
is_block block = true

-- The first tests of `create_refund`: of the arguments, and of the owner of the payment.
unfoldable pub check_arguments :
    (owns : Address → ℕ → Address → Bool) → RefundRequest → RefundCall Unit
unfolding verify_payment_ownership
check_arguments owns q = do
  err_if (leb_ℤ q.amount (pos 0)) (core invalid_amount)
  err_if (ltb_ℤ q.original_payment_amount q.amount) (core refund_exceeds_payment)
  err_if (q.payment_id == 0) (core invalid_payment_id)
  s ← gets (λ s. s)
  err_if
      (is_some s.payment_contract && not (verify_payment_ownership owns q.payment_id q.customer s))
      (core payment_ownership_mismatch)

-- Its tests behind that of what is refunded already: the limits, the policy and the parties.
unfoldable pub check_limits : Env → RefundRequest → RefundCall Unit
unfolding check_and_update_circuit_breaker check_and_update_customer_refund_rate_limit
    check_payment_refund_cap check_fraud_signals check_refund_eligibility_internal
    validate_against_policy
check_limits env q = do
  on_breaker (check_and_update_circuit_breaker env q.amount q.original_payment_amount)
  on_limits (check_and_update_customer_refund_rate_limit env q.customer)
  on_limits (check_payment_refund_cap q.payment_id q.amount)
  s ← gets (λ s. s)
  signal ← on_fraud (check_fraud_signals env q.customer (s.history.count q.customer))
  err_if (is_unreviewed signal) (ext address_flagged_for_fraud)
  err_if (is_block (check_refund_eligibility_internal q.merchant q.customer s.policies))
      (ext customer_blocked_from_refund)
  when (is_some s.admin) (
      on_policies (
        validate_against_policy env q.merchant q.customer q.amount q.original_payment_amount
          q.payment_created_at))

unfoldable pub check_request :
    (owns : Address → ℕ → Address → Bool) → Env → RefundRequest → RefundCall Unit
unfolding check_arguments can_refund_payment check_limits
check_request owns env q = do
  check_arguments owns q
  within ← can_refund_payment q.payment_id q.amount q.original_payment_amount
  check_limits env q

-- The record of a request.
abbrev pub new_refund : Env → RefundRequest → ℕ → RefundStatus → Option ℕ → RefundRecord
new_refund env q id status ttl_expires_at = record {
  id = id;
  payment_id = q.payment_id;
  merchant = q.merchant;
  customer = q.customer;
  amount = q.amount;
  original_payment_amount = q.original_payment_amount;
  token = q.token;
  original_token = q.token;
  status = status;
  requested_at = env.timestamp;
  reason = q.reason;
  reason_code = q.reason_code;
  approved_at = if status_code status == 1 then some env.timestamp else none;
  rejected_at = none;
  processed_at = none;
  rejected_by = none;
  appeal_deadline = none;
  expires_at = ttl_expires_at;
}

-- What `create_refund` stores.
unfoldable pub store_request : Env → RefundRequest → Bool → RefundCall ℕ
unfolding get_effective_refund_policy enter_refund append_customer_refund_history
    update_payment_refund_usage update_customer_refund_cooldown
store_request env q force_approved = do
  s ← gets (λ s. s)
  refund_id ← u64 (s.ledger.counter + 1)
  let status = initial_status force_approved q.merchant q.amount s.policies
  on_ledger
      (enter_refund (new_refund env q refund_id status (ttl_end env.timestamp s.limits.ttl_config)))
  on_merchant_refunds (append_to q.merchant refund_id)
  on_history (append_customer_refund_history q.customer refund_id)
  on_payment_refunds (append_to q.payment_id refund_id)
  on_limits (update_payment_refund_usage q.payment_id q.amount)
  on_limits (update_customer_refund_cooldown env q.customer)
  pure refund_id

unfoldable pub create_refund :
    (owns : Address → ℕ → Address → Bool) → Env → RefundRequest → Bool → RefundCall ℕ
unfolding check_request store_request
create_refund owns env q force_approved = do
  check_request owns env q
  store_request env q force_approved

-- `match supported`
abbrev pub is_active_token : Option Bool → Bool
is_active_token active = unwrap_or active false

unfoldable pub request_refund :
    (owns : Address → ℕ → Address → Bool) → Env → RefundRequest → RefundCall ℕ
unfolding create_refund
request_refund owns env q = do
  require_auth env q.merchant
  s ← gets (λ s. s)
  err_if (ltb 0 s.token_count && not (is_active_token (s.token_active q.token)))
      (ext unsupported_refund_token)
  create_refund owns env q false

abbrev pub is_over : Option ℕ → ℕ → Bool
is_over none now = false
is_over (some expires_at) now = leb expires_at now

unfoldable pub approve_refund_internal : Env → ℕ → RefundCall Unit
unfolding move_refund
approve_refund_internal env id = do
  r ← refund_or_err id
  err_if (not (status_code r.status == 0)) (core invalid_status)
  err_if (is_over r.expires_at env.timestamp) (core refund_window_expired)
  on_ledger
      (move_refund requested id (record r { status = approved; approved_at = some env.timestamp }))

-- Any address that signs may approve.
unfoldable pub approve_refund : Env → Address → ℕ → RefundCall Unit
unfolding approve_refund_internal
approve_refund env admin id = do require_auth env admin; approve_refund_internal env id

-- The part of `process_refund_internal` behind the test of the status.
unfoldable pub process_approved : Env → ℕ → RefundRecord → RefundCall Unit
unfolding can_refund_payment deduct_refund_fee use_quota move_refund
process_approved env id r = do
  within ← can_refund_payment r.payment_id r.amount r.original_payment_amount
  net_and_fee ← deduct_refund_fee env r.amount r.token
  on_limits (use_quota env r.merchant r.amount)
  on_ledger
      (move_refund approved id (record r { status = processed; processed_at = some env.timestamp }))

unfoldable pub process_refund_internal : Env → ℕ → RefundCall Unit
unfolding process_approved
process_refund_internal env id = do
  r ← refund_or_err id
  err_if (not (status_code r.status == 1)) (core invalid_status)
  process_approved env id r

-- Any address that signs may have a refund processed.
unfoldable pub process_refund : Env → Address → ℕ → RefundCall Unit
unfolding process_refund_internal
process_refund env admin id = do require_auth env admin; process_refund_internal env id
