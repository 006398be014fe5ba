-- ===== src/Refund/History/Entries.antt =====
-- The history behaves as the list of what was appended.
use facilpay_contracts.Prelude.{
  ℕ, zero, suc, ◌+◌, ◌≤◌, ◌≡◌, refl, some, List, [], ◌∷◌, arith, ◌==◌, if◌then◌else◌, length,
  push_back, get_elem?,
}
use facilpay_contracts.Host.{Address}
use facilpay_contracts.Refund.History.{history_hot_cap, get_customer_refund_id_at}
use facilpay_contracts.Refund.Storage.{CustomerHistory}

pub get_elem?-push_back :
    (xs : List ℕ) (x i : ℕ)
    → get_elem? (push_back xs x) i ≡ (if i == length xs then some x else get_elem? xs i)
get_elem?-push_back [] x zero = refl
get_elem?-push_back [] x (suc i) = ground arith
get_elem?-push_back (y ∷ ys) x zero = ground arith
get_elem?-push_back (y ∷ ys) x (suc i) = ground (arith, get_elem?-push_back ys x i)

-- The history of `customer` holds `xs`, the oldest first, of which at most 50 are hot.
pub record Holds (h : CustomerHistory) (customer : Address) (xs : List ℕ) : Type 0 where
  pub counted : h.count customer ≡ length xs
  pub begins : h.start customer ≤ h.count customer
  pub hot_few : h.count customer ≤ h.start customer + history_hot_cap
  pub reads : (i : ℕ) → get_customer_refund_id_at customer i h ≡ get_elem? xs i
