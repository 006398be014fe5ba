-- ===== src/Escrow/Errors.antt =====
-- Errors of contracts/escrow/src/lib.rs and their numeric codes.
use facilpay_contracts.Prelude.{
  ℕ, zero, suc, ◌-◌, ◌≡◌, refl, ◌&&◌, Option, none, some, List, [], ◌∷◌, leb, if◌then◌else◌,
}

pub data BasicError : Type 0 where
  unauthorized not_an_admin already_approved contract_paused : BasicError
  duplicate_approval multi_sig_not_initialized migration_not_started : BasicError
  already_migrated participant_not_found invalid_merkle_proof root_already_committed : BasicError
  invalid_bps insufficient_admins invalid_address schema_already_at_target : BasicError

pub data EscrowError : Type 0 where
  not_found invalid_status already_processed release_not_yet_available : EscrowError
  timeout_not_reached release_on_hold_period invalid_vesting_schedule : EscrowError
  cliff_period_not_passed milestone_already_released escrow_not_expired : EscrowError
  escrow_already_expired expiry_before_release template_not_found template_inactive : EscrowError
  sub_account_not_found sub_account_already_released : EscrowError
  sub_account_funding_exceeds_escrow conditional_escrow_not_found : EscrowError
  parent_escrow_not_found children_not_resolved max_hierarchy_depth batch_too_large : EscrowError
  renewal_disabled max_renewals_reached new_expiry_not_after_current : EscrowError
  renewal_period_too_short renewal_period_too_long invalid_threshold : EscrowError
  succession_plan_exists clawback_delay_too_short : EscrowError

pub data ActionError : Type 0 where
  not_ready not_disputed observer_already_added observer_not_found : ActionError
  acceleration_limit_exceeded transfer_not_allowed same_beneficiary : ActionError
  condition_already_evaluated stale_threshold_not_configured swap_config_not_found : ActionError
  swap_output_below_minimum swap_already_executed batch_release_size_limit_exceeded : ActionError
  evidence_deadline_passed approvals_threshold_not_met insufficient_collateral : ActionError

pub data Error : Type 0 where
  basic : BasicError → Error
  escrow : EscrowError → Error
  action : ActionError → Error

-- The discriminants of the three `#[repr(u32)]` enums, in the order of their declaration.
basic_codes : List BasicError
basic_codes =
    unauthorized ∷ not_an_admin ∷ already_approved ∷ contract_paused ∷ duplicate_approval
    ∷ multi_sig_not_initialized ∷ migration_not_started ∷ already_migrated ∷ participant_not_found
    ∷ invalid_merkle_proof ∷ root_already_committed ∷ invalid_bps ∷ insufficient_admins
    ∷ invalid_address ∷ schema_already_at_target ∷ []

escrow_codes : List EscrowError
escrow_codes =
    not_found ∷ invalid_status ∷ already_processed ∷ release_not_yet_available ∷ timeout_not_reached
    ∷ release_on_hold_period ∷ invalid_vesting_schedule ∷ cliff_period_not_passed
    ∷ milestone_already_released ∷ escrow_not_expired ∷ escrow_already_expired
    ∷ expiry_before_release ∷ template_not_found ∷ template_inactive ∷ sub_account_not_found
    ∷ sub_account_already_released ∷ sub_account_funding_exceeds_escrow
    ∷ conditional_escrow_not_found ∷ parent_escrow_not_found ∷ children_not_resolved
    ∷ max_hierarchy_depth ∷ batch_too_large ∷ renewal_disabled ∷ max_renewals_reached
    ∷ new_expiry_not_after_current ∷ renewal_period_too_short ∷ renewal_period_too_long
    ∷ invalid_threshold ∷ succession_plan_exists ∷ clawback_delay_too_short ∷ []

action_codes : List ActionError
action_codes =
    not_ready ∷ not_disputed ∷ observer_already_added ∷ observer_not_found
    ∷ acceleration_limit_exceeded ∷ transfer_not_allowed ∷ same_beneficiary
    ∷ condition_already_evaluated ∷ stale_threshold_not_configured ∷ swap_config_not_found
    ∷ swap_output_below_minimum ∷ swap_already_executed ∷ batch_release_size_limit_exceeded
    ∷ evidence_deadline_passed ∷ approvals_threshold_not_met ∷ insufficient_collateral ∷ []

basic_to_u32 : BasicError → ℕ
basic_to_u32 unauthorized = 100
basic_to_u32 not_an_admin = 101
basic_to_u32 already_approved = 102
basic_to_u32 contract_paused = 103
basic_to_u32 duplicate_approval = 104
basic_to_u32 multi_sig_not_initialized = 105
basic_to_u32 migration_not_started = 106
basic_to_u32 already_migrated = 107
basic_to_u32 participant_not_found = 108
basic_to_u32 invalid_merkle_proof = 109
basic_to_u32 root_already_committed = 110
basic_to_u32 invalid_bps = 111
basic_to_u32 insufficient_admins = 112
basic_to_u32 invalid_address = 113
basic_to_u32 schema_already_at_target = 114

escrow_to_u32 : EscrowError → ℕ
escrow_to_u32 not_found = 200
escrow_to_u32 invalid_status = 201
escrow_to_u32 already_processed = 202
escrow_to_u32 release_not_yet_available = 203
escrow_to_u32 timeout_not_reached = 204
escrow_to_u32 release_on_hold_period = 205
escrow_to_u32 invalid_vesting_schedule = 206
escrow_to_u32 cliff_period_not_passed = 207
escrow_to_u32 milestone_already_released = 208
escrow_to_u32 escrow_not_expired = 209
escrow_to_u32 escrow_already_expired = 210
escrow_to_u32 expiry_before_release = 211
escrow_to_u32 template_not_found = 212
escrow_to_u32 template_inactive = 213
escrow_to_u32 sub_account_not_found = 214
escrow_to_u32 sub_account_already_released = 215
escrow_to_u32 sub_account_funding_exceeds_escrow = 216
escrow_to_u32 conditional_escrow_not_found = 217
escrow_to_u32 parent_escrow_not_found = 218
escrow_to_u32 children_not_resolved = 219
escrow_to_u32 max_hierarchy_depth = 220
escrow_to_u32 batch_too_large = 221
escrow_to_u32 renewal_disabled = 222
escrow_to_u32 max_renewals_reached = 223
escrow_to_u32 new_expiry_not_after_current = 224
escrow_to_u32 renewal_period_too_short = 225
escrow_to_u32 renewal_period_too_long = 226
escrow_to_u32 invalid_threshold = 227
escrow_to_u32 succession_plan_exists = 228
escrow_to_u32 clawback_delay_too_short = 229

action_to_u32 : ActionError → ℕ
action_to_u32 not_ready = 300
action_to_u32 not_disputed = 301
action_to_u32 observer_already_added = 302
action_to_u32 observer_not_found = 303
action_to_u32 acceleration_limit_exceeded = 304
action_to_u32 transfer_not_allowed = 305
action_to_u32 same_beneficiary = 306
action_to_u32 condition_already_evaluated = 307
action_to_u32 stale_threshold_not_configured = 308
action_to_u32 swap_config_not_found = 309
action_to_u32 swap_output_below_minimum = 310
action_to_u32 swap_already_executed = 311
action_to_u32 batch_release_size_limit_exceeded = 312
action_to_u32 evidence_deadline_passed = 313
action_to_u32 approvals_threshold_not_met = 314
action_to_u32 insufficient_collateral = 315

-- `Error::to_u32`
pub to_u32 : Error → ℕ
unfolding basic_to_u32 escrow_to_u32 action_to_u32
to_u32 (basic e) = basic_to_u32 e
to_u32 (escrow e) = escrow_to_u32 e
to_u32 (action e) = action_to_u32 e

-- `transmute` of a code to the enum whose discriminants begin at `base`.
abbrev variant {ℓ κ} : {A : Type ℓ} {B : Type κ} → (A → B) → List A → ℕ → Option B
variant wrap [] i = none
variant wrap (e ∷ _) zero = some (wrap e)
variant wrap (_ ∷ es) (suc i) = variant wrap es i

-- `TryFrom<soroban_sdk::Error>` on the code of a contract error. `none` hands the error back.
pub try_from : ℕ → Option Error
unfolding basic_codes escrow_codes action_codes
try_from code =
    if leb 300 code && leb code 315
    then variant action action_codes (code - 300)
    else if leb 200 code && leb code 229
    then variant escrow escrow_codes (code - 200)
    else if leb 100 code && leb code 114
    then variant basic basic_codes (code - 100)
    else none

-- Every error comes back from its code as it was.
pub try_from-to_u32 : (e : Error) → try_from (to_u32 e) ≡ some e
unfolding try_from to_u32
try_from-to_u32 (basic e) = code e
  where
    code : (e : BasicError) → try_from (to_u32 (basic e)) ≡ some (basic e)
    code unauthorized = refl
    code _ = refl
try_from-to_u32 (escrow e) = code e
  where
    code : (e : EscrowError) → try_from (to_u32 (escrow e)) ≡ some (escrow e)
    code not_found = refl
    code _ = refl
try_from-to_u32 (action e) = code e
  where
    code : (e : ActionError) → try_from (to_u32 (action e)) ≡ some (action e)
    code not_ready = refl
    code _ = refl
