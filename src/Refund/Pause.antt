-- ===== src/Refund/Pause.antt =====
-- The pause of contracts/refund/src/lib.rs.
pub mod Rules
use facilpay_contracts.Host.{Address, Bytes, Env, ◌>>◌}
use facilpay_contracts.Pausing.{pause_all, unpause_all, pause_one, unpause_one}
use facilpay_contracts.Refund.Storage.{RefundCall, on_refund_pausing, stored_admin_only}

unfoldable pub pause_contract : Env → Address → Bytes → RefundCall Unit
unfolding pause_all
pause_contract env admin why = do
  stored_admin_only env admin
  on_refund_pausing (pause_all env admin why)

unfoldable pub unpause_contract : Env → Address → RefundCall Unit
unfolding unpause_all
unpause_contract env admin = do
  stored_admin_only env admin
  on_refund_pausing (unpause_all env admin)

unfoldable pub pause_function : Env → Address → Bytes → Bytes → RefundCall Unit
unfolding pause_one
pause_function env admin name why = do
  stored_admin_only env admin
  on_refund_pausing (pause_one env admin name why)

unfoldable pub unpause_function : Env → Address → Bytes → RefundCall Unit
unfolding unpause_one
unpause_function env admin name = do
  stored_admin_only env admin
  on_refund_pausing (unpause_one env admin name)
