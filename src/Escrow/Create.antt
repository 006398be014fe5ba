-- ===== src/Escrow/Create.antt =====
-- Creation of an escrow, `internal_create_escrow` of contracts/escrow/src/lib.rs and its callers
-- `create_escrow`, `create_escrow_with_multisig` and `create_child_escrow`. (No token moves here.)
pub mod Rules
use facilpay_contracts.Prelude.{
  ℕ, ◌+◌, Bool, false, not, ◌&&◌, ◌||◌, Option, none, some, [], ◌∷◌, ltb, leb, ◌==◌, if◌then◌else◌,
  unwrap_or, length, push_back, contains, put, put_at,
}
use facilpay_contracts.Escrow.Errors.{
  not_an_admin, contract_paused, escrow_already_expired, expiry_before_release,
  parent_escrow_not_found, max_hierarchy_depth, invalid_threshold, Error, basic, escrow,
}
use facilpay_contracts.Escrow.Governance.{get_multisig_config}
use facilpay_contracts.Escrow.Payout.{fee_config_of}
use facilpay_contracts.Escrow.Statistics.{created, update_all}
use facilpay_contracts.Escrow.Storage.{Book, Settings, Call, on_governance, on_book, on_statistics}
use facilpay_contracts.Escrow.Types.{
  locked, AutoResolveFavor, EscalationConfig, EscrowFeeConfig, Escrow, EscrowReleaseMultisig,
  MultisigConfiguration, EscrowHierarchyNode, MigrationStatus,
}
use facilpay_contracts.Host.{
  Address, Env, Action, ◌>>=◌, ◌>>◌, pure, gets, ok_or, modify, err_if, require_auth, u64,
  saturating_u64,
}
use facilpay_contracts.Prelude.Int.{ℤ, pos}

-- `validate_release_multisig_threshold`
abbrev bad_threshold : Option MultisigConfiguration → Bool
bad_threshold none = false
bad_threshold (some c) = elim c.signers [
  | [] ↦ false
  | _ ∷ _ ↦ c.threshold == 0 || ltb (length c.signers) c.threshold
]

abbrev pub with_multisig : Option MultisigConfiguration → Option EscrowReleaseMultisig
with_multisig none = none
with_multisig (some c) = elim c.signers [
  | [] ↦ none
  | _ ∷ _ ↦ some (record { signers = c.signers; threshold = c.threshold; approvals = [] })
]

abbrev migrating : Option MigrationStatus → Bool
migrating none = false
migrating (some m) = m.in_progress

abbrev default_escalation : EscalationConfig
default_escalation = record { timeout_seconds = 604800; favor = AutoResolveFavor.customer }

-- What the caller gives.
pub record Request : Type 0 where
  pub customer : Address
  pub merchant : Address
  pub amount : ℤ
  pub token : Address
  pub release_timestamp : ℕ
  pub min_hold_period : ℕ
  pub expiry_timestamp : ℕ
  pub auto_refund_on_expiry : Bool

-- The escrow that is stored.
unfoldable pub new_escrow : Env → Settings → EscrowFeeConfig → ℕ → Request → Escrow
new_escrow env settings fees id r =
    let escalation = unwrap_or settings.escalation_config default_escalation in
    record {
      id = id;
      customer = r.customer;
      merchant = r.merchant;
      amount = r.amount;
      token = r.token;
      status = locked;
      created_at = env.timestamp;
      release_timestamp = r.release_timestamp;
      dispute_started_at = 0;
      last_activity_at = env.timestamp;
      escalation_level = 0;
      min_hold_period = r.min_hold_period;
      fee_bps = if fees.enabled then fees.fee_bps else pos 0;
      expiry_timestamp = r.expiry_timestamp;
      auto_refund_on_expiry = r.auto_refund_on_expiry;
      escalated_at = none;
      escalation_timeout = escalation.timeout_seconds;
      auto_resolve_in_favor_of = escalation.favor;
      evidence_deadline = none;
    }

-- Stores the escrow under the next id, with its signers, and lists it for both parties.
unfoldable pub enter : ℕ → Escrow → Option EscrowReleaseMultisig → Action Error Book Unit
enter id e signers = do
  modify (λ b. record b { escrows = put b.escrows id (some e); counter = id })
  modify (λ b. record b {
    release_multisigs = elim signers [
      | none ↦ b.release_multisigs
      | some m ↦ put b.release_multisigs id (some m)
    ];
  })
  b ← gets (λ b. b)
  customers ← u64 (b.customer_count e.customer + 1)
  modify (λ b. record b {
    customer_list = put_at b.customer_list e.customer (b.customer_count e.customer) (some id);
    customer_count = put b.customer_count e.customer customers;
  })
  merchants ← u64 (b.merchant_count e.merchant + 1)
  modify (λ b. record b {
    merchant_list = put_at b.merchant_list e.merchant (b.merchant_count e.merchant) (some id);
    merchant_count = put b.merchant_count e.merchant merchants;
  })

unfoldable pub internal_create_escrow : Env → Request → Option MultisigConfiguration → Call ℕ
unfolding new_escrow enter update_all created
internal_create_escrow env r multisig = do
  s ← gets (λ s. s)
  err_if (migrating s.settings.migration) (basic contract_paused)
  err_if (not (r.expiry_timestamp == 0) && leb r.expiry_timestamp r.release_timestamp)
      (escrow expiry_before_release)
  err_if
      (not (r.expiry_timestamp == 0)
        && leb r.expiry_timestamp (saturating_u64 (env.timestamp + r.min_hold_period)))
      (escrow escrow_already_expired)
  err_if (bad_threshold multisig) (escrow invalid_threshold)
  escrow_id ← u64 (s.book.counter + 1)
  on_book (
      enter escrow_id (new_escrow env s.settings (fee_config_of env s) escrow_id r)
        (with_multisig multisig))
  on_statistics (update_all (created r.amount) (created r.amount) r.customer r.merchant)
  pure escrow_id

unfoldable pub create_escrow : Env → Request → Call ℕ
unfolding internal_create_escrow
create_escrow env r = do require_auth env r.customer; internal_create_escrow env r none

unfoldable pub create_escrow_with_multisig : Env → Request → MultisigConfiguration → Call ℕ
unfolding internal_create_escrow
create_escrow_with_multisig env r multisig = do
  require_auth env r.customer
  internal_create_escrow env r (some multisig)

abbrev pub root_node : ℕ → EscrowHierarchyNode
root_node id = record { escrow_id = id; parent_id = none; children = []; depth = 0 }

-- `create_child_escrow`: the child takes its times from the parent.
unfoldable pub create_child_escrow : Env → Address → ℕ → ℤ → Address → Address → Address → Call ℕ
unfolding internal_create_escrow
create_child_escrow env admin parent_id amount token customer_address merchant_address = do
  require_auth env admin
  config ← on_governance get_multisig_config
  err_if (not (contains config.admins admin)) (basic not_an_admin)
  s ← gets (λ s. s)
  parent ← ok_or (s.book.escrows parent_id) (escrow parent_escrow_not_found)
  let node = unwrap_or (s.book.hierarchy parent_id) (root_node parent_id)
  err_if (ltb 3 (node.depth + 1)) (escrow max_hierarchy_depth)
  child_id ←
      internal_create_escrow env
        (record {
          customer = customer_address;
          merchant = merchant_address;
          amount = amount;
          token = token;
          release_timestamp = parent.release_timestamp;
          min_hold_period = parent.min_hold_period;
          expiry_timestamp = parent.expiry_timestamp;
          auto_refund_on_expiry = parent.auto_refund_on_expiry;
        })
        none
  on_book (
      modify (λ b. record b {
        hierarchy =
            put
              (put b.hierarchy parent_id
                (some (record node { children = push_back node.children child_id })))
              child_id
              (some (record {
                escrow_id = child_id;
                parent_id = some parent_id;
                children = [];
                depth = node.depth + 1;
              }));
      }))
  pure child_id
