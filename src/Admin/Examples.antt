-- ===== src/Admin/Examples.antt =====
-- Tests of the emergency pause of a platform with all three contracts.
use facilpay_contracts.Prelude.{none, some, [], ◌∷◌, put}
use facilpay_contracts.Admin.{Platform, emergency_pause_all}
use facilpay_contracts.Escrow.Examples.{start}
use facilpay_contracts.Escrow.Storage.{Storage}
use facilpay_contracts.Host.{after}
use facilpay_contracts.Payment.Examples.{start as payment_start}
use facilpay_contracts.Refund.Examples.{now, storage_in}
use facilpay_contracts.Refund.Types.{requested}

abbrev platform : Platform
platform = record {
  admin = some 9;
  pauser = some 1;
  payment_contract = some 101;
  escrow_contract = some 102;
  refund_contract = some 103;
  payments =
      put (λ _. none) 101 (some (record payment_start { multisig = start.governance.multisig }));
  escrows = put (λ _. none) 102 (some start);
  refunds = put (λ _. none) 103 (some (storage_in requested));
}

abbrev paused_platform : Platform
paused_platform = after platform (emergency_pause_all now 1 (7 ∷ []) platform)
