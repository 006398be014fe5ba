-- ===== src/Refund/Examples.antt =====
-- Tests: a refund of a payment in each of its states, and the limits, policies, votes and vouchers
-- around it.
pub mod Ledgers
pub mod Rules
use facilpay_contracts.Prelude.{refl, true, false, none, some, [], ◌∷◌, arith, ◌==◌, put}
use facilpay_contracts.Host.{Env, after}
use facilpay_contracts.Prelude.Int.{pos}
use facilpay_contracts.Refund.Requests.{enter_refund}
use facilpay_contracts.Refund.Requests.Indexed.{Ledger-IsValid, enter-Ledger-IsValid}
use facilpay_contracts.Refund.StatusIndex.{add_to_status_index}
use facilpay_contracts.Refund.Storage.{
  Ledger, Register, CustomerHistory, Breaker, Limits, Policies, Arbitration, RefundStorage,
}
use facilpay_contracts.Refund.Types.{
  RefundStatus, requested, approved, rejected, processed, pending_appeal, customer_request,
  RefundRecord, open_case, ArbitrationCase, CustomerRefundRateLimit, CircuitBreakerConfig,
}

abbrev pub now : Env
now = record {
  timestamp = 1000000;
  current_contract = 99;
  authorized = λ _. true;
  is_token = λ a. a == 50;
  accepts = λ _ _. true;
  to_xdr = λ _. 1 ∷ [];
}

abbrev pub later : Env
later = record now { timestamp = 2000000 }

abbrev pub wanted : RefundRecord
wanted = record {
  id = 1;
  payment_id = 7;
  merchant = 20;
  customer = 10;
  amount = pos 300;
  original_payment_amount = pos 1000;
  token = 50;
  original_token = 50;
  status = requested;
  requested_at = 900000;
  reason = [];
  reason_code = customer_request;
  approved_at = none;
  rejected_at = none;
  processed_at = none;
  rejected_by = none;
  appeal_deadline = some 1500000;
  expires_at = none;
}

abbrev pub no_refunds : Ledger
no_refunds = record {
  refunds = λ _. none;
  counter = 0;
  index = record { by_status = λ _ _. none; count = λ _. 0; place = λ _. none };
}

abbrev pub empty_register : Register
empty_register = record { entry = λ _ _. none; len = λ _. 0 }

abbrev pub no_history : CustomerHistory
no_history = record { hot = λ _ _. none; count = λ _. 0; start = λ _. 0; archive = λ _ _. none }

abbrev pub breaker_config : CircuitBreakerConfig
breaker_config = record {
  max_refund_rate_bps = 5000;
  measurement_window_seconds = 86400;
  cooldown_seconds = 3600;
  enabled = true;
}

abbrev pub closed_breaker : Breaker
closed_breaker = record {
  config = some breaker_config;
  state = none;
  window_start = 0;
  refund_volume = pos 0;
  payment_volume = pos 0;
}

abbrev pub customer_limit : CustomerRefundRateLimit
customer_limit = record {
  customer = 10;
  window_start = 990000;
  request_count = 2;
  max_requests_per_window = 3;
  window_seconds = 86400;
  custom_override = false;
}

abbrev pub limits : Limits
limits = record {
  caps = λ _. none;
  usage = λ _. none;
  quotas = λ _. none;
  customer_limits = put (λ _. none) 10 (some customer_limit);
  global_limit = none;
  cooldown_config = none;
  cooldowns = λ _. none;
  fee_config = none;
  accumulated_fees = pos 0;
  ttl_config = none;
}

abbrev pub policies : Policies
policies = record {
  policy = λ _. none;
  default_policy = none;
  versions = λ _ _. none;
  version_count = λ _. 0;
  parent_of = λ _. none;
  requires_admin_approval = λ _. none;
  auto_approve_below = λ _. pos 0;
  inherit_from_parent = λ _. none;
  customer_tier = λ _. none;
  tier_policy_bps = λ _ _. none;
  strict_tier_policy = λ _. false;
  eligibility = λ _ _. none;
}

abbrev pub case : ArbitrationCase
case = record {
  case_id = 1;
  refund_id = 1;
  arbitrators = 31 ∷ 32 ∷ 33 ∷ [];
  votes_for_refund = 0;
  votes_against_refund = 0;
  status = open_case;
  created_at = 900000;
  deadline = 1500000;
  fee_pool = pos 90;
  timeout_at = 1600000;
  default_favor_customer = true;
}

abbrev pub arbitration : Arbitration
arbitration = record {
  cases = put (λ _. none) 1 (some case);
  counter = 1;
  arbitrators = 31 ∷ 32 ∷ 33 ∷ [];
  voted = λ _. [];
  votes = λ _ _. none;
  fee_config = none;
  treasury_fees = pos 0;
  stake_config = none;
  stakes = λ _. none;
  reputations = λ _. none;
  timeout = none;
  senior = [];
  tier_config = none;
  escalated = λ _. false;
  pool_token = put (λ _. none) 1 (some 50);
}

abbrev pub deployed : Ledger → RefundStorage
deployed ledger = record {
  admin = some 1;
  payment_contract = none;
  ledger = ledger;
  merchant_refunds = empty_register;
  payment_refunds = empty_register;
  history = no_history;
  breaker = closed_breaker;
  fraud = record { config = none; signals = λ _. none; flagged = 0 };
  limits = limits;
  policies = policies;
  appeals = record {
    appeals = λ _. none;
    counter = 0;
    by_refund = λ _. none;
    by_customer = empty_register;
    rejected_at = λ _. none;
    window = none;
  };
  arbitration = arbitration;
  vouchers = record { vouchers = λ _. none; counter = 0; by_customer = empty_register };
  token_count = 0;
  token_active = λ _. none;
  pausing = record { state = none; history = λ _. none; count = 0 };
  transfers = [];
}

abbrev pub refund_in : RefundStatus → RefundRecord
refund_in st = record wanted { status = st }

-- A ledger with one refund, of a status.
abbrev pub ledger_in : RefundStatus → Ledger
ledger_in st = after no_refunds (enter_refund (refund_in st) no_refunds)

abbrev pub storage_in : RefundStatus → RefundStorage
storage_in st = deployed (ledger_in st)

no_refunds-IsValid : Ledger-IsValid no_refunds
no_refunds-IsValid = record {
  indexed = record {
    has_place = λ id c e. absurd (ground arith);
    placed = λ id c i e p. absurd (ground arith);
    full = λ c i e. absurd (ground arith);
    listed = λ c i id e p. absurd (ground arith);
  };
  numbered = λ id r e. absurd (ground arith);
}

pub ledger_in-IsValid : (st : RefundStatus) → Ledger-IsValid (ledger_in st)
unfolding enter_refund add_to_status_index
ledger_in-IsValid requested =
    (enter-Ledger-IsValid no_refunds-IsValid (refund_in requested) (ledger_in requested) refl
      refl).0
ledger_in-IsValid approved =
    (enter-Ledger-IsValid no_refunds-IsValid (refund_in approved) (ledger_in approved) refl refl).0
ledger_in-IsValid rejected =
    (enter-Ledger-IsValid no_refunds-IsValid (refund_in rejected) (ledger_in rejected) refl refl).0
ledger_in-IsValid processed =
    (enter-Ledger-IsValid no_refunds-IsValid (refund_in processed) (ledger_in processed) refl
      refl).0
ledger_in-IsValid pending_appeal =
    (enter-Ledger-IsValid no_refunds-IsValid (refund_in pending_appeal) (ledger_in pending_appeal)
      refl refl).0
