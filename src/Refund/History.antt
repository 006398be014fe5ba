-- ===== src/Refund/History.antt =====
-- The history of a customer's refunds of contracts/refund/src/lib.rs: the last 50 entries in the
-- instance storage, older ones in an archive.
pub mod Entries
-- `CUSTOMER_HISTORY_HOT_CAP`
use facilpay_contracts.Prelude.{ℕ, ◌+◌, Option, none, some, ltb, if◌then◌else◌, put, put_at}
use facilpay_contracts.Host.{Address, Action, ◌>>=◌, ◌>>◌, gets, modify, when, u64, unsigned_sub}
use facilpay_contracts.Refund.Errors.{Error}
use facilpay_contracts.Refund.Storage.{CustomerHistory}

abbrev pub history_hot_cap : ℕ
history_hot_cap = 50

-- The oldest entry moves to the archive.
abbrev pub archive_oldest : Address → ℕ → Action Error CustomerHistory Unit
archive_oldest customer start = do
  modify (λ h. elim (h.hot customer start) [
    | none ↦ h
    | some id ↦ record h { archive = put_at h.archive customer start (some id) }
  ])
  start' ← u64 (start + 1)
  modify (λ h. record h {
    hot = put_at h.hot customer start none;
    start = put h.start customer start';
  })

unfoldable pub append_customer_refund_history : Address → ℕ → Action Error CustomerHistory Unit
append_customer_refund_history customer refund_id = do
  customer_count ← gets (λ h. h.count customer)
  count' ← u64 (customer_count + 1)
  modify (λ h. record h {
    hot = put_at h.hot customer customer_count (some refund_id);
    count = put h.count customer count';
  })
  h ← gets (λ h. h)
  hot_len ← unsigned_sub count' (h.start customer)
  when (ltb history_hot_cap hot_len) (archive_oldest customer (h.start customer))

unfoldable pub get_customer_refund_id_at : Address → ℕ → CustomerHistory → Option ℕ
get_customer_refund_id_at customer index h =
    if ltb index (h.start customer) then h.archive customer index else h.hot customer index
