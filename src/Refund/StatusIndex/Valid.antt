-- ===== src/Refund/StatusIndex/Valid.antt =====
-- The index by status lists exactly the refunds of each status.
use facilpay_contracts.Prelude.{
  ℕ, ◌+◌, ◌-◌, ◌<◌, ◌≡◌, refl, ◌≢◌, true, Option, none, some, arith, is_some, put,
}
use facilpay_contracts.Host.{ok, is_ok, u64_bound}
use facilpay_contracts.Refund.StatusIndex.{add_to_status_index, remove_from_status_index}
use facilpay_contracts.Refund.Storage.{StatusIndex}
use facilpay_contracts.Refund.Types.{RefundStatus, status_code}

-- `status` says for each refund the number of its status. A refund that has one stands at its place in
-- the array of that status; the arrays have no gaps; what stands in one has that status and that place.
pub record Index-IsValid (status : ℕ → Option ℕ) (x : StatusIndex) : Type 0 where
  pub has_place : (id c : ℕ) → status id ≡ some c → is_some (x.place id) ≡ true
  pub placed :
      (id c i : ℕ)
      → status id ≡ some c
      → x.place id ≡ some i
      → (i < x.count c) × (x.by_status c i ≡ some id)
  pub full : (c i : ℕ) → i < x.count c → is_some (x.by_status c i) ≡ true
  pub listed :
      (c i id : ℕ)
      → i < x.count c
      → x.by_status c i ≡ some id
      → (status id ≡ some c) × (x.place id ≡ some i)

pub some_of : (o : Option ℕ) → is_some o ≡ true → (i : ℕ) × (o ≡ some i)
some_of none h = cc
some_of (some i) h = (i, refl)

module _ {status : ℕ → Option ℕ} {x : StatusIndex} (v : Index-IsValid status x) where
  -- An entry of a refund that the index does not list keeps it valid.
  pub add-Index-IsValid :
      (st : RefundStatus) (id : ℕ) (y : StatusIndex)
      → status id ≡ none
      → add_to_status_index st id x ≡ ok (tt, y)
      → Index-IsValid (put status id (some (status_code st))) y
  unfolding add_to_status_index
  add-Index-IsValid st id y h r = record {
    has_place = λ j c e. ground (arith, v.has_place j c);
    placed = λ j c i e p. ground (arith, v.placed j c i);
    full = λ c i e. ground (arith, v.full c i);
    listed = λ c i j e p. ground (arith, v.listed c i j);
  }

  -- The removal of a refund that is listed succeeds, and keeps the index valid.
  pub remove-is_ok :
      (st : RefundStatus) (id : ℕ)
      → status id ≡ some (status_code st)
      → is_ok (remove_from_status_index st id x) ≡ true
  unfolding remove_from_status_index
  remove-is_ok st id h =
      let (i, p) = some_of (x.place id) (v.has_place id (status_code st) h) in
      ground (
        arith,
        v.placed id (status_code st) i h p,
        v.full (status_code st) (x.count (status_code st) - 1),
      )

  pub remove-Index-IsValid :
      (st : RefundStatus) (id : ℕ) (y : StatusIndex)
      → status id ≡ some (status_code st)
      → remove_from_status_index st id x ≡ ok (tt, y)
      → Index-IsValid (put status id none) y
  unfolding remove_from_status_index
  remove-Index-IsValid st id y h r =
      let (i, pi) = placed_at in
      let (last_id, pl) = last_at in
      let a = v.placed id (status_code st) i h pi in
      let l = v.listed (status_code st) (x.count (status_code st) - 1) last_id (ground arith) pl in
      record {
        has_place = λ j c e. ground (arith, v.has_place j c);
        placed = λ j c k e p. ground (arith, v.placed j c k, v.placed j c i);
        full = λ c k e. ground (arith, v.full c k);
        listed = λ c k j e p. ground (arith, v.listed c k j);
      }
    where
      placed_at : (i : ℕ) × (x.place id ≡ some i)
      placed_at = some_of (x.place id) (v.has_place id (status_code st) h)

      last_at : (j : ℕ) × (x.by_status (status_code st) (x.count (status_code st) - 1) ≡ some j)
      last_at = some_of (x.by_status (status_code st) (x.count (status_code st) - 1)) (
          v.full (status_code st) (x.count (status_code st) - 1)
            (let (i, p) = placed_at in ground (arith, v.placed id (status_code st) i h p)))

-- A removal changes the number of entries under its own status only.
pub remove-count :
    (st : RefundStatus) (id c : ℕ) (x y : StatusIndex)
    → remove_from_status_index st id x ≡ ok (tt, y)
    → c ≢ status_code st
    → y.count c ≡ x.count c
unfolding remove_from_status_index
remove-count st id c x y e n = ground arith

pub add-is_ok :
    (st : RefundStatus) (id : ℕ) (x : StatusIndex)
    → x.count (status_code st) + 1 < u64_bound
    → is_ok (add_to_status_index st id x) ≡ true
unfolding add_to_status_index
add-is_ok st id x h = ground arith
