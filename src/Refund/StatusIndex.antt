-- ===== src/Refund/StatusIndex.antt =====
-- The index of refunds by status of contracts/refund/src/lib.rs: for each status an array of refund
-- ids without gaps, and for each refund its place in its array.
pub mod Valid
use facilpay_contracts.Prelude.{ℕ, ◌+◌, ◌-◌, true, false, none, some, ◌==◌, put, put_at}
use facilpay_contracts.Host.{ok, Action, ◌>>=◌, ◌>>◌, gets, ok_or, modify, err_if, u64}
use facilpay_contracts.Refund.Errors.{invalid_status, Error, core}
use facilpay_contracts.Refund.Storage.{StatusIndex}
use facilpay_contracts.Refund.Types.{RefundStatus, status_code}

unfoldable pub get_refund_count_by_status : RefundStatus → StatusIndex → ℕ
get_refund_count_by_status status x = x.count (status_code status)

unfoldable pub add_to_status_index : RefundStatus → ℕ → Action Error StatusIndex Unit
unfolding get_refund_count_by_status
add_to_status_index status id = do
  count ← gets (get_refund_count_by_status status)
  count' ← u64 (count + 1)
  modify (λ x. record {
    by_status = put_at x.by_status (status_code status) count (some id);
    count = put x.count (status_code status) count';
    place = put x.place id (some count);
  })

-- The last entry of the array takes the place `index` that becomes free.
abbrev pub fill_gap : RefundStatus → ℕ → ℕ → Action Error StatusIndex Unit
fill_gap status index last_index x = elim (index == last_index) [
  | true ↦ ok (tt, x)
  | false ↦
      (do
        last_id ← ok_or (x.by_status (status_code status) last_index) (core invalid_status)
        modify (λ x. record x {
          by_status = put_at x.by_status (status_code status) index (some last_id);
          place = put x.place last_id (some index);
        }))
        x
]

unfoldable pub remove_from_status_index : RefundStatus → ℕ → Action Error StatusIndex Unit
unfolding get_refund_count_by_status
remove_from_status_index status id = do
  count ← gets (get_refund_count_by_status status)
  err_if (count == 0) (core invalid_status)
  x ← gets (λ x. x)
  index ← ok_or (x.place id) (core invalid_status)
  let last_index = count - 1
  fill_gap status index last_index
  modify (λ x. record {
    by_status = put_at x.by_status (status_code status) last_index none;
    count = put x.count (status_code status) last_index;
    place = put x.place id none;
  })
