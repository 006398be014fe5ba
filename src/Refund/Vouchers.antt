-- ===== src/Refund/Vouchers.antt =====
-- Vouchers of contracts/refund/src/lib.rs for the amount of a refund.
pub mod Rules
use facilpay_contracts.Prelude.{ℕ, ◌+◌, true, false, not, some, ltb, ◌==◌, put}
use facilpay_contracts.Host.{
  Address, Env, ◌>>=◌, ◌>>◌, pure, gets, ok_or, modify, err_if, require_auth, zoom, u64,
  saturating_u64,
}
use facilpay_contracts.Refund.Errors.{
  unauthorized, voucher_not_found, voucher_expired, voucher_already_redeemed, core, ext,
}
use facilpay_contracts.Refund.Requests.{refund_or_err}
use facilpay_contracts.Refund.Storage.{RefundCall, on_vouchers, stored_admin_only, append_to}

unfoldable pub issue_refund_voucher : Env → Address → ℕ → ℕ → RefundCall ℕ
issue_refund_voucher env admin refund_id expiry_seconds = do
  stored_admin_only env admin
  r ← refund_or_err refund_id
  s ← gets (λ s. s)
  voucher_id ← u64 (s.vouchers.counter + 1)
  on_vouchers (
      modify (λ v. record v {
        vouchers = put v.vouchers voucher_id (
            some (record {
              voucher_id = voucher_id;
              refund_id = refund_id;
              customer = r.customer;
              merchant = r.merchant;
              amount = r.amount;
              token = r.token;
              issued_at = env.timestamp;
              expires_at = saturating_u64 (env.timestamp + expiry_seconds);
              redeemed = false;
            }));
        counter = voucher_id;
      }))
  on_vouchers (
      zoom (λ v. v.by_customer) (λ v x. record v { by_customer = x })
        (append_to r.customer voucher_id))
  pure voucher_id

-- `_payment_id` is not used.
unfoldable pub redeem_refund_voucher : Env → Address → ℕ → ℕ → RefundCall Unit
redeem_refund_voucher env customer voucher_id payment_id = do
  require_auth env customer
  s ← gets (λ s. s)
  v ← ok_or (s.vouchers.vouchers voucher_id) (ext voucher_not_found)
  err_if (not (v.customer == customer)) (core unauthorized)
  err_if v.redeemed (ext voucher_already_redeemed)
  err_if (ltb v.expires_at env.timestamp) (ext voucher_expired)
  on_vouchers (
      modify (λ k. record k {
        vouchers = put k.vouchers voucher_id (some (record v { redeemed = true }));
      }))
