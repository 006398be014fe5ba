-- ===== src/Admin/Rules.antt =====
-- The emergency pause and what it reaches.
use facilpay_contracts.Escrow.Pause.{pause_contract as pause_escrow}
use facilpay_contracts.Payment.Pause.{pause_contract as pause_payment}
use facilpay_contracts.Refund.Pause.{pause_contract as pause_refund}
use facilpay_contracts.Escrow.Storage.{Storage}
