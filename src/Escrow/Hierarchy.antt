-- ===== src/Escrow/Hierarchy.antt =====
-- Parent and child escrows of contracts/escrow/src/lib.rs: when a parent may be released.
pub mod Descendants
use facilpay_contracts.Prelude.{
  ℕ, zero, suc, ◌+◌, Bool, true, false, ◌&&◌, Option, none, some, List, [], ◌∷◌, ◌++◌,
  if◌then◌else◌, length,
}
use facilpay_contracts.Escrow.Errors.{Error}
use facilpay_contracts.Escrow.Storage.{Book}
use facilpay_contracts.Escrow.Types.{
  EscrowStatus, released, resolved, cancelled, EscrowHierarchyNode,
}
use facilpay_contracts.Host.{ok, Action, unwrap}

abbrev is_resolved_status : EscrowStatus → Bool
is_resolved_status released = true
is_resolved_status resolved = true
is_resolved_status cancelled = true
is_resolved_status _ = false

-- `is_escrow_resolved`: an escrow that is not stored counts as resolved.
unfoldable pub is_escrow_resolved : Book → ℕ → Bool
is_escrow_resolved b id = elim (b.escrows id) [ none ↦ true | some e ↦ is_resolved_status e.status ]

abbrev pub children_of : Option EscrowHierarchyNode → List ℕ
children_of none = []
children_of (some n) = n.children

unfoldable pub all_resolved : Book → List ℕ → Bool
unfolding is_escrow_resolved
all_resolved b [] = true
all_resolved b (c ∷ cs) = is_escrow_resolved b c && all_resolved b cs

-- The `while` loop of `can_parent_release` over the part of its queue that is still ahead. It takes
-- one round of fuel for each escrow that it visits; `none` means that the fuel ran out.
unfoldable pub visit : ℕ → Book → List ℕ → Option Bool
unfolding all_resolved
visit zero b [] = some true
visit zero b (c ∷ ahead) = none
visit (suc f) b [] = some true
visit (suc f) b (c ∷ ahead) =
    let kids = children_of (b.hierarchy c) in
    let rest = visit f b (ahead ++ kids) in if all_resolved b kids then rest else some false

-- The children of all of `ids`.
abbrev pub next_generation : Book → List ℕ → List ℕ
next_generation b [] = []
next_generation b (c ∷ cs) = children_of (b.hierarchy c) ++ next_generation b cs

-- The number of escrows in so many generations from `ids` on.
unfoldable pub generations : ℕ → Book → List ℕ → ℕ
generations zero b ids = 0
generations (suc k) b ids = length ids + generations k b (next_generation b ids)

-- The fuel: `create_child_escrow` keeps the depth at 3 or less, so four generations are all.
unfoldable pub can_parent_release : ℕ → Action Error Book Bool
unfolding visit generations
can_parent_release parent_id b = elim (b.escrows parent_id) [
  | none ↦ ok (false, b)
  | some e ↦ unwrap (visit (generations 4 b (parent_id ∷ [])) b (parent_id ∷ [])) b
]
