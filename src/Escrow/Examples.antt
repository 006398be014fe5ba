-- ===== src/Escrow/Examples.antt =====
-- A contract with three admins, an escrow, and calls at one time: the setting of the tests.
pub mod Payments
pub mod Vestings
pub mod Rules
pub mod Admins
pub mod Parties
pub mod Disputes
pub mod SubAccounts
pub mod Delays
use facilpay_contracts.Prelude.{true, false, none, some, [], ◌∷◌, ◌==◌, put}
use facilpay_contracts.Escrow.Storage.{Governance, Book, Storage}
use facilpay_contracts.Escrow.Types.{locked, disputed, AutoResolveFavor, Escrow, MultiSigConfig}
use facilpay_contracts.Host.{Env}
use facilpay_contracts.Prelude.Int.{pos}

abbrev pub now : Env
now = record {
  timestamp = 1000000;
  current_contract = 99;
  authorized = λ _. true;
  is_token = λ a. a == 50;
  accepts = λ _ _. true;
  to_xdr = λ _. 1 ∷ [];
}

-- A second and a week later.
abbrev pub soon : Env
soon = record now { timestamp = 1000001 }

abbrev pub next_week : Env
next_week = record now { timestamp = 1604800 }

abbrev pub three_admins : MultiSigConfig
three_admins = record {
  admins = 1 ∷ 2 ∷ 3 ∷ [];
  required_signatures = 2;
  total_admins = 3;
  proposal_ttl = 604800;
}

abbrev pub administered : Governance
administered = record {
  multisig = some three_admins;
  schema_version = some 1;
  proposals = λ _. none;
  proposal_counter = 0;
  succession = none;
  trusted_bridges = λ _. false;
}

abbrev pub locked_escrow : Escrow
locked_escrow = record {
  id = 1;
  customer = 10;
  merchant = 20;
  amount = pos 1000;
  token = 50;
  status = locked;
  created_at = 1000;
  release_timestamp = 2000;
  dispute_started_at = 0;
  last_activity_at = 1000;
  escalation_level = 0;
  min_hold_period = 500;
  fee_bps = pos 100;
  expiry_timestamp = 5000;
  auto_refund_on_expiry = true;
  escalated_at = none;
  escalation_timeout = 604800;
  auto_resolve_in_favor_of = AutoResolveFavor.customer;
  evidence_deadline = none;
}

abbrev pub disputed_escrow : Escrow
disputed_escrow = record locked_escrow { status = disputed }

abbrev pub empty_book : Book
empty_book = record {
  escrows = λ _. none;
  counter = 0;
  release_multisigs = λ _. none;
  customer_list = λ _ _. none;
  customer_count = λ _. 0;
  merchant_list = λ _ _. none;
  merchant_count = λ _. 0;
  sub_accounts = λ _ _. none;
  sub_account_counter = λ _. 0;
  hierarchy = λ _. none;
  observers = λ _ _. none;
  observer_count = λ _. 0;
}

abbrev pub start : Storage
start = record {
  governance = administered;
  clawbacks = record { requests = λ _. none; counter = 0; by_escrow = λ _. none };
  book = empty_book;
  settings = record {
    fee_config = some (record { fee_bps = pos 100; fee_recipient = 98; enabled = true });
    escalation_config = none;
    pause_state = none;
    pause_history = λ _. none;
    pause_count = 0;
    active_pause = λ _. none;
    dispute_config = none;
    timelock_config = none;
    migration = none;
  };
  reputations = record {
    scores = λ _. none;
    config = none;
    tenure_config = none;
    tenure_applied = λ _ _. false;
  };
  statistics = record { overall = none; by_customer = λ _. none; by_merchant = λ _. none };
  queue = record { ids_at = λ _. none; index = none; deadline_of = λ _. none };
  timelock = record { actions = λ _. none; counter = 0 };
  renewals = record { config = none; last = λ _. none; count = λ _. 0 };
  multi_parties = record {
    deals = λ _. none;
    counter = 0;
    vote_weights = λ _ _. none;
    thresholds_bps = λ _. none;
    disputes = λ _. none;
  };
  vesting = record { schedules = λ _. none; accelerations = λ _. none };
  collateral = λ _. none;
  accumulated_fees = λ _. pos 0;
  transfers = [];
}

-- The storage in which escrow 1 is `e`.
abbrev pub holding : Escrow → Storage
holding e = record start {
  book = record empty_book { escrows = put (λ _. none) 1 (some e); counter = 1 };
}
