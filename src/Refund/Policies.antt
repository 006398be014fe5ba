-- ===== src/Refund/Policies.antt =====
-- Refund policies of contracts/refund/src/lib.rs: their tiers, the inheritance from parent merchants,
-- and the test of a refund against the policy.
pub mod Tiers
pub mod Parents
use facilpay_contracts.Prelude.{
  ℕ, zero, suc, ◌+◌, ◌-◌, ◌/◌, Bool, true, false, not, ◌&&◌, ◌||◌, Option, none, some, List, [],
  ◌∷◌, ltb, leb, ◌==◌, if◌then◌else◌, unwrap_or, push_back, contains, put, put_at,
}
use facilpay_contracts.Host.{
  Address, Env, Action, ◌>>=◌, ◌>>◌, pure, gets, ok_or, modify, err_if, require_auth, u32, as_u32,
  checked_i128, checked_div,
}
use facilpay_contracts.Prelude.Int.{ℤ, pos, ◌-ℤ◌, ◌*ℤ◌, ◌/ℤ◌}
use facilpay_contracts.Refund.Errors.{
  invalid_amount, refund_window_expired, refund_exceeds_policy, policy_not_found, policy_inactive,
  circular_inheritance, max_inheritance_depth_error, tier_policy_not_found, Error, core, ext,
}
use facilpay_contracts.Refund.Storage.{Policies, RefundCall, on_policies, stored_admin_only}
use facilpay_contracts.Refund.Types.{
  EligibilityRule, allow, RefundTier, RefundPolicy, RefundPolicyVersion,
}

unfoldable pub validate_bps : {S : Type 0} → ℕ → Action Error S Unit
validate_bps bps = err_if (ltb bps 1 || ltb 10000 bps) (core invalid_amount)

-- The inner loop of `sort_tiers`: `sorted[..j]` is kept with its last entry first, so that the
-- exchange of neighbours moves the new entry over the entries that come later than it.
abbrev pub sink : RefundTier → List RefundTier → List RefundTier
sink x [] = x ∷ []
sink x (prev ∷ before) =
    if ltb x.days_from_purchase prev.days_from_purchase
    then prev ∷ sink x before
    else x ∷ prev ∷ before

abbrev pub sort_loop : List RefundTier → List RefundTier → List RefundTier
sort_loop before [] = before
sort_loop before (x ∷ rest) = sort_loop (sink x before) rest

-- The vector whose last entries, last first, are the first argument.
abbrev pub reverse_onto : List RefundTier → List RefundTier → List RefundTier
reverse_onto [] later = later
reverse_onto (x ∷ before) later = reverse_onto before (x ∷ later)

unfoldable pub sort_tiers : List RefundTier → List RefundTier
sort_tiers tiers = reverse_onto (sort_loop [] tiers) []

abbrev pub all_bps_valid : List RefundTier → Bool
all_bps_valid [] = true
all_bps_valid (t ∷ ts) =
    if ltb t.max_refund_bps 1 || ltb 10000 t.max_refund_bps then false else all_bps_valid ts

unfoldable pub set_refund_policy : Env → Address → List RefundTier → RefundCall Unit
unfolding sort_tiers
set_refund_policy env merchant tiers = do
  require_auth env merchant
  err_if (not (all_bps_valid tiers)) (core refund_exceeds_policy)
  let policy : RefundPolicy = record {
    merchant = merchant;
    tiers = sort_tiers tiers;
    active = true;
    created_at = env.timestamp;
    updated_at = env.timestamp;
    default_window_seconds = 2592000;
  }
  s ← gets (λ s. s)
  new_version ← u32 (s.policies.version_count merchant + 1)
  on_policies (
      modify (λ p. record p {
        policy = put p.policy merchant (some policy);
        versions = put_at p.versions merchant new_version (
            some (record {
              version = new_version;
              policy = policy;
              created_at = env.timestamp;
              created_by = merchant;
            }));
        version_count = put p.version_count merchant new_version;
      }))

-- `find` of the version in force: the last one in order that was made at or before the time.
abbrev pub version_loop :
    (ℕ → Option RefundPolicyVersion)
    → ℕ
    → ℕ
    → ℕ
    → Option RefundPolicyVersion
    → Option RefundPolicyVersion
version_loop versions timestamp zero v result = result
version_loop versions timestamp (suc rounds) v result =
    version_loop versions timestamp rounds (v + 1) (elim (versions v) [
      | none ↦ result
      | some pv ↦ if leb pv.created_at timestamp then some pv else result
    ])

unfoldable pub get_refund_policy_at_time : Address → ℕ → Policies → Option RefundPolicyVersion
get_refund_policy_at_time merchant timestamp p =
    version_loop (p.versions merchant) timestamp (p.version_count merchant) 1 none

unfoldable pub deactivate_refund_policy : Env → Address → RefundCall Unit
deactivate_refund_policy env merchant = do
  require_auth env merchant
  s ← gets (λ s. s)
  policy ← ok_or (s.policies.policy merchant) (core policy_not_found)
  err_if (not policy.active) (core policy_inactive)
  on_policies (
      modify (λ p. record p {
        policy = put p.policy merchant (some (record policy { active = false }));
      }))

unfoldable pub set_default_refund_policy : Env → Address → RefundPolicy → RefundCall Unit
set_default_refund_policy env admin policy = do
  stored_admin_only env admin
  on_policies (modify (λ p. record p { default_policy = some policy }))

unfoldable pub remove_default_refund_policy : Env → Address → RefundCall Unit
remove_default_refund_policy env admin = do
  stored_admin_only env admin
  on_policies (modify (λ p. record p { default_policy = none }))

unfoldable pub set_requires_admin_approval : Env → Address → Bool → RefundCall Unit
set_requires_admin_approval env merchant value = do
  require_auth env merchant
  on_policies (
      modify (λ p. record p {
        requires_admin_approval = put p.requires_admin_approval merchant (some value);
      }))

unfoldable pub set_auto_approve_below : Env → Address → ℤ → RefundCall Unit
set_auto_approve_below env merchant value = do
  require_auth env merchant
  on_policies
      (modify (λ p. record p { auto_approve_below = put p.auto_approve_below merchant value }))

unfoldable pub set_inherit_from_parent : Env → Address → Bool → RefundCall Unit
set_inherit_from_parent env merchant inherit = do
  require_auth env merchant
  on_policies (
      modify
        (λ p. record p { inherit_from_parent = put p.inherit_from_parent merchant (some inherit) }))

unfoldable pub set_customer_tier : Env → Address → Address → ℕ → RefundCall Unit
set_customer_tier env admin customer tier_id = do
  stored_admin_only env admin
  on_policies
      (modify (λ p. record p { customer_tier = put p.customer_tier customer (some tier_id) }))

unfoldable pub set_customer_tier_policy : Env → Address → ℕ → ℕ → RefundCall Unit
set_customer_tier_policy env merchant tier_id max_refund_bps = do
  require_auth env merchant
  err_if (ltb 10000 max_refund_bps) (core invalid_amount)
  on_policies (
      modify (λ p. record p {
        tier_policy_bps = put_at p.tier_policy_bps merchant tier_id (some max_refund_bps);
      }))

unfoldable pub set_strict_tier_policy : Env → Address → Bool → RefundCall Unit
set_strict_tier_policy env merchant strict = do
  require_auth env merchant
  on_policies
      (modify (λ p. record p { strict_tier_policy = put p.strict_tier_policy merchant strict }))

abbrev pub max_inheritance_depth : ℕ
max_inheritance_depth = 5

-- The loop of `set_merchant_parent` up the chain of parents, a round for each depth that it may
-- reach; it answers with the depth, or nothing for a cycle.
abbrev pub climb : (Address → Option Address) → Address → ℕ → Address → List Address → ℕ → Option ℕ
climb parent_of merchant zero current visited depth = some depth
climb parent_of merchant (suc rounds) current visited depth =
    let next : Option ℕ = elim (parent_of current) [
      | none ↦ some depth
      | some parent ↦ climb parent_of merchant rounds parent (push_back visited current) (depth + 1)
    ] in
    if current == merchant || contains visited current then none else next

unfoldable pub set_merchant_parent : Env → Address → Address → Address → RefundCall Unit
set_merchant_parent env admin merchant parent = do
  stored_admin_only env admin
  err_if (merchant == parent) (core circular_inheritance)
  s ← gets (λ s. s)
  depth ←
      ok_or (climb s.policies.parent_of merchant max_inheritance_depth parent (merchant ∷ []) 1)
        (core circular_inheritance)
  err_if (leb max_inheritance_depth depth) (core max_inheritance_depth_error)
  on_policies (modify (λ p. record p { parent_of = put p.parent_of merchant (some parent) }))

-- The loop of `get_effective_refund_policy`: what it returns, or nothing where it ends without.
abbrev pub search_policy :
    Policies → Address → ℕ → Address → List Address → Option (Option RefundPolicy)
search_policy p merchant zero current visited = some none
search_policy p merchant (suc rounds) current visited =
    let further : Option (Option RefundPolicy) = elim (p.parent_of current) [
      | none ↦ none
      | some parent ↦ search_policy p merchant rounds parent (push_back visited current)
    ] in
    let here : Option (Option RefundPolicy) = elim (p.policy current) [
      | none ↦ further
      | some policy ↦
          if policy.active
          then some (some policy)
          else if current == merchant && not (unwrap_or (p.inherit_from_parent merchant) true)
          then some (some policy)
          else further
    ] in
    if contains visited current then some none else here

-- The fallback after the loop.
abbrev pub own_or_default : Policies → Address → Option RefundPolicy
own_or_default p merchant = elim (p.policy merchant) [
  | none ↦ p.default_policy
  | some policy ↦ some policy
]

unfoldable pub get_effective_refund_policy : Address → Policies → Option RefundPolicy
get_effective_refund_policy merchant p =
    elim (search_policy p merchant max_inheritance_depth merchant []) [
      | none ↦ own_or_default p merchant
      | some answer ↦ answer
    ]

-- The loop over the tiers: the first that is not over.
abbrev pub tier_for : ℕ → List RefundTier → Option RefundTier
tier_for days [] = none
tier_for days (t ∷ ts) = if leb days t.days_from_purchase then some t else tier_for days ts

-- `match tier_cap_opt`: the cap of the customer's own tier counts instead of the policy's.
abbrev pub bps_for : Policies → Address → Address → ℕ → Action Error Policies ℕ
bps_for p merchant customer allowed = elim (p.customer_tier customer) [
  | none ↦ pure allowed
  | some tier_id ↦ elim (p.tier_policy_bps merchant tier_id) [
    | some bps ↦ pure bps
    | none ↦ err_if (p.strict_tier_policy merchant) (ext tier_policy_not_found) >> pure allowed
  ]
]

-- The share of the payment that a refund is, in basis points.
unfoldable pub percentage_bps : ℤ → ℤ → ℕ
unfolding ◌*ℤ◌ ◌/ℤ◌ ◌-ℤ◌
percentage_bps amount original = as_u32 (
    unwrap_or
      (checked_div
        (unwrap_or (checked_i128 (amount *ℤ pos 10000))
          (pos 170141183460469231731687303715884105727))
        original)
      (pos 4294967295))

unfoldable pub validate_against_policy :
    Env → Address → Address → ℤ → ℤ → ℕ → Action Error Policies Unit
unfolding get_effective_refund_policy percentage_bps
validate_against_policy env merchant customer amount original payment_created_at = do
  p ← gets (λ p. p)
  policy ← ok_or (get_effective_refund_policy merchant p) (core policy_not_found)
  err_if (not policy.active) (core policy_inactive)
  let days_since_purchase = (env.timestamp - payment_created_at) / 86400
  tier ← ok_or (tier_for days_since_purchase policy.tiers) (core refund_window_expired)
  allowed_bps ← bps_for p merchant customer tier.max_refund_bps
  err_if (ltb allowed_bps (percentage_bps amount original)) (core refund_exceeds_policy)

unfoldable pub check_refund_eligibility_internal : Address → Address → Policies → EligibilityRule
check_refund_eligibility_internal merchant customer p =
    unwrap_or (p.eligibility merchant customer) allow
