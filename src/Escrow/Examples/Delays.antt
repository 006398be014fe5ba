-- ===== src/Escrow/Examples/Delays.antt =====
-- Clawbacks and queued actions, which wait.
use facilpay_contracts.Prelude.{◌≡◌, refl, false, none, some, [], ◌∷◌, arith, put}
use facilpay_contracts.Escrow.Clawback.{execute_clawback}
use facilpay_contracts.Escrow.Clawback.Rules.{execute_clawback_any_status}
use facilpay_contracts.Escrow.Examples.{now, three_admins, locked_escrow, empty_book, holding}
use facilpay_contracts.Escrow.Storage.{Storage}
use facilpay_contracts.Escrow.Types.{
  released, Escrow, ClawbackRequest, EscrowActionType, TimeLockAction,
}
use facilpay_contracts.Host.{ok}

abbrev claim : ClawbackRequest
claim = record {
  request_id = 1;
  escrow_id = 1;
  initiated_by = 1;
  reason_hash = [];
  execute_after = 900000;
  executed = false;
  cancelled = false;
}

abbrev claimed : Storage
claimed = record (holding locked_escrow) {
  clawbacks = record {
    requests = put (λ _. none) 1 (some claim);
    counter = 1;
    by_escrow = put (λ _. none) 1 (some 1);
  };
}

abbrev released_escrow : Escrow
released_escrow = record locked_escrow { status = released }

abbrev claimed_after_release : Storage
claimed_after_release = record claimed {
  book = record empty_book { escrows = put (λ _. none) 1 (some released_escrow); counter = 1 };
}

execute_clawback_any_status_example :
    (t : Storage) × (execute_clawback now 2 1 claimed_after_release ≡ ok (tt, t))
    × (t.transfers
        ≡ record {
          token = released_escrow.token;
          from = now.current_contract;
          to = 2;
          amount = released_escrow.amount;
        }
          ∷ claimed_after_release.transfers)
execute_clawback_any_status_example =
    execute_clawback_any_status now 2 1 claim released_escrow three_admins claimed_after_release
      refl refl refl refl refl (refl, refl, omega arith) refl

abbrev queued_release : TimeLockAction
queued_release = record {
  action_id = 1;
  action_type = EscrowActionType.force_release;
  escrow_id = 1;
  proposed_by = 1;
  queued_at = 900000;
  executable_after = 986400;
  expires_at = 1072800;
  executed = false;
  cancelled = false;
  payload = [];
}

abbrev queued : Storage
queued = record (holding locked_escrow) {
  timelock = record { actions = put (λ _. none) 1 (some queued_release); counter = 1 };
}
