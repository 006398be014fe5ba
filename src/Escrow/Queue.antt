-- ===== src/Escrow/Queue.antt =====
-- The escalation queue of contracts/escrow/src/lib.rs: disputed escrows by deadline, and a sorted
-- index of the deadlines in use.
pub mod Rules
use facilpay_contracts.Prelude.{
  ℕ, Bool, true, false, not, ◌&&◌, none, some, List, [], ◌∷◌, ltb, if◌then◌else◌, unwrap_or,
  push_back, contains, without, put,
}
use facilpay_contracts.Escrow.Storage.{EscalationQueue}
use facilpay_contracts.Host.{after}

-- The loop of `insert_escalation_queue_index` over the deadlines; `inserted` once `d` is placed.
abbrev pub insert_loop : ℕ → Bool → List ℕ → List ℕ
insert_loop d inserted [] = if inserted then [] else d ∷ []
insert_loop d inserted (x ∷ xs) =
    let before = insert_loop d true xs in
    let after = insert_loop d inserted xs in
    if not inserted && ltb d x then d ∷ x ∷ before else x ∷ after

unfoldable pub insert_deadline : ℕ → List ℕ → List ℕ
insert_deadline d index = if contains index d then index else insert_loop d false index

-- `insert_escalation_queue_index`
unfoldable pub insert_escalation_queue_index : ℕ → EscalationQueue → EscalationQueue
unfolding insert_deadline
insert_escalation_queue_index d q = record q {
  index = some (insert_deadline d (unwrap_or q.index []));
}

-- `remove_escalation_queue_index`
unfoldable pub remove_escalation_queue_index : ℕ → EscalationQueue → EscalationQueue
remove_escalation_queue_index d q = record q { index = some (without (unwrap_or q.index []) d) }

abbrev pub drop_id : ℕ → ℕ → List ℕ → EscalationQueue → EscalationQueue
drop_id d escrow_id ids q = elim (without ids escrow_id) [
  | [] ↦ remove_escalation_queue_index d (record q { ids_at = put q.ids_at d none })
  | x ∷ xs ↦ record q { ids_at = put q.ids_at d (some (x ∷ xs)) }
]

unfoldable pub dequeue_escalation : ℕ → EscalationQueue → EscalationQueue
unfolding remove_escalation_queue_index
dequeue_escalation escrow_id q = elim (q.deadline_of escrow_id) [
  | none ↦ q
  | some d ↦
      let rest : EscalationQueue = elim (q.ids_at d) [
        | none ↦ q
        | some ids ↦ drop_id d escrow_id ids q
      ] in
      record rest { deadline_of = put rest.deadline_of escrow_id none }
]

unfoldable pub enqueue_escalation : ℕ → ℕ → EscalationQueue → EscalationQueue
unfolding dequeue_escalation insert_escalation_queue_index
enqueue_escalation escrow_id deadline q =
    let q' = dequeue_escalation escrow_id q in
    let ids = push_back (unwrap_or (q'.ids_at deadline) []) escrow_id in
    insert_escalation_queue_index deadline (record q' {
      ids_at = put q'.ids_at deadline (some ids);
      deadline_of = put q'.deadline_of escrow_id (some deadline);
    })
