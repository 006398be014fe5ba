-- ===== src/Payment/Pause.antt =====
-- The pause of contracts/payment/src/lib.rs.
use facilpay_contracts.Host.{Address, Bytes, Env, ◌>>◌}
use facilpay_contracts.Pausing.{pause_all, unpause_all, pause_one, unpause_one}
use facilpay_contracts.Payment.SpendLimits.{admin_or_err}
use facilpay_contracts.Payment.Storage.{PaymentCall, on_pausing}

unfoldable pub pause_contract : Env → Address → Bytes → PaymentCall Unit
unfolding pause_all
pause_contract env admin why = do admin_or_err env admin; on_pausing (pause_all env admin why)

unfoldable pub unpause_contract : Env → Address → PaymentCall Unit
unfolding unpause_all
unpause_contract env admin = do admin_or_err env admin; on_pausing (unpause_all env admin)

unfoldable pub pause_function : Env → Address → Bytes → Bytes → PaymentCall Unit
unfolding pause_one
pause_function env admin name why = do
  admin_or_err env admin
  on_pausing (pause_one env admin name why)

unfoldable pub unpause_function : Env → Address → Bytes → PaymentCall Unit
unfolding unpause_one
unpause_function env admin name = do admin_or_err env admin; on_pausing (unpause_one env admin name)
