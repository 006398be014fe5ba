-- ===== src/Refund/Policies/Parents.antt =====
-- The chains of parents end.
use facilpay_contracts.Prelude.{◌≡◌, Option, none, some}
use facilpay_contracts.Host.{Address}

-- From `x` upwards the parents come to an end.
pub data Ends (parent_of : Address → Option Address) : Address → Type 0 where
  top : {x : Address} → parent_of x ≡ none → Ends parent_of x
  under : {x y : Address} → parent_of x ≡ some y → Ends parent_of y → Ends parent_of x
