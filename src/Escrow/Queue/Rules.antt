-- ===== src/Escrow/Queue/Rules.antt =====
-- What holds of the escalation queue.
use facilpay_contracts.Prelude.{
  ℕ, ◌≤◌, ◌<◌, ◌≡◌, refl, ◌≢◌, Bool, true, false, ◌||◌, Option, none, some, List, [], ◌∷◌, arith,
  ◌==◌, unwrap_or, is_some, contains, without, contains-push_back, contains-without,
}
use facilpay_contracts.Escrow.Queue.{
  insert_loop, insert_deadline, insert_escalation_queue_index, remove_escalation_queue_index,
  dequeue_escalation, enqueue_escalation,
}
use facilpay_contracts.Escrow.Storage.{EscalationQueue}

-- Strictly increasing from `low` on.
abbrev pub Above : ℕ → List ℕ → Type 0
Above low [] = Unit
Above low (x ∷ xs) = (low < x) × Above x xs

abbrev pub Sorted : List ℕ → Type 0
Sorted [] = Unit
Sorted (x ∷ xs) = Above x xs

-- Is the deadline `d`?
abbrev pub is_due : Option ℕ → ℕ → Bool
is_due none d = false
is_due (some x) d = x == d

-- The index lists, in order, the deadlines that have a list of escrows, and an escrow stands in the
-- list of its own deadline and in no other.
pub record Queue-IsValid (q : EscalationQueue) : Type 0 where
  pub sorted : Sorted (unwrap_or q.index [])
  pub listed : (d : ℕ) → contains (unwrap_or q.index []) d ≡ is_some (q.ids_at d)
  pub placed : (d id : ℕ) → contains (unwrap_or (q.ids_at d) []) id ≡ is_due (q.deadline_of id) d

insert_placed : (d : ℕ) (xs : List ℕ) → insert_loop d true xs ≡ xs
insert_placed d [] = refl
insert_placed d (x ∷ xs) = ground (arith, insert_placed d xs)

contains-insert_loop :
    (d : ℕ) (xs : List ℕ) (y : ℕ)
    → contains (insert_loop d false xs) y ≡ (contains xs y || (d == y))
contains-insert_loop d [] y = ground arith
contains-insert_loop d (x ∷ xs) y = ground (arith, insert_placed d xs, contains-insert_loop d xs y)

insert_loop-Above :
    (low d : ℕ) (xs : List ℕ)
    → low < d
    → contains xs d ≡ false
    → Above low xs
    → Above low (insert_loop d false xs)
insert_loop-Above low d [] b c a = (b, tt)
insert_loop-Above low d (x ∷ xs) b c a =
    ground (arith, insert_placed d xs, insert_loop-Above x d xs)

insert_loop-Sorted :
    (d : ℕ) (xs : List ℕ) → contains xs d ≡ false → Sorted xs → Sorted (insert_loop d false xs)
insert_loop-Sorted d [] c a = tt
insert_loop-Sorted d (x ∷ xs) c a = ground (arith, insert_placed d xs, insert_loop-Above x d xs)

Above-weaken : (low high : ℕ) (xs : List ℕ) → low ≤ high → Above high xs → Above low xs
Above-weaken low high [] b a = tt
Above-weaken low high (x ∷ xs) b a = ground (arith, a)

without-Above : (low d : ℕ) (xs : List ℕ) → Above low xs → Above low (without xs d)
without-Above low d [] a = tt
without-Above low d (x ∷ xs) a =
    ground (arith, without-Above x d xs a.1, Above-weaken low x (without xs d))

Above-Sorted : (low : ℕ) (xs : List ℕ) → Above low xs → Sorted xs
Above-Sorted low [] a = tt
Above-Sorted low (x ∷ xs) a = a.1

without-Sorted : (d : ℕ) (xs : List ℕ) → Sorted xs → Sorted (without xs d)
without-Sorted d [] a = tt
without-Sorted d (x ∷ xs) a = ground (arith, without-Above x d xs a, Above-Sorted x (without xs d))

-- A removal keeps the queue valid, and leaves the escrow without a deadline.
pub dequeue_escalation-IsValid :
    (id : ℕ) (q : EscalationQueue)
    → Queue-IsValid q
    → Queue-IsValid (dequeue_escalation id q) × ((dequeue_escalation id q).deadline_of id ≡ none)
unfolding dequeue_escalation remove_escalation_queue_index
dequeue_escalation-IsValid id q v = (
  record {
    sorted = grind (arith, v.sorted, without-Sorted);
    listed = λ d. grind (arith, v.listed d, v.placed d id, contains-without);
    placed = λ d i. grind (arith, v.placed d i, v.placed d id, contains-without);
  },
  ground arith,
)

-- A removal takes the escrow out of the list of its deadline and leaves it without a deadline; the
-- deadlines of the other escrows stay.
pub dequeue_escalation-leaves :
    (id : ℕ) (q : EscalationQueue)
    → ((dequeue_escalation id q).deadline_of id ≡ none)
      × ((d : ℕ)
          → q.deadline_of id ≡ some d
          → contains (unwrap_or ((dequeue_escalation id q).ids_at d) []) id ≡ false)
      × ((j : ℕ) → j ≢ id → (dequeue_escalation id q).deadline_of j ≡ q.deadline_of j)
unfolding dequeue_escalation remove_escalation_queue_index
dequeue_escalation-leaves id q =
    (ground arith, λ d h. grind (arith, h, contains-without), λ j n. ground arith)

-- An entry keeps the queue valid, and gives the escrow the deadline.
pub enqueue_escalation-IsValid :
    (id deadline : ℕ) (q : EscalationQueue)
    → Queue-IsValid q
    → Queue-IsValid (enqueue_escalation id deadline q)
      × ((enqueue_escalation id deadline q).deadline_of id ≡ some deadline)
unfolding enqueue_escalation insert_escalation_queue_index insert_deadline
enqueue_escalation-IsValid id deadline q v =
    let (w, out) = dequeue_escalation-IsValid id q v in
    (
      record {
        sorted = ground (
          arith,
          w.sorted,
          insert_loop-Sorted deadline (unwrap_or (dequeue_escalation id q).index []),
        );
        listed = λ d. ground (
          arith,
          w.listed d,
          contains-insert_loop deadline (unwrap_or (dequeue_escalation id q).index []) d,
        );
        placed = λ d i. ground (
          arith,
          w.placed d i,
          w.placed d id,
          contains-push_back (unwrap_or ((dequeue_escalation id q).ids_at deadline) []) id i,
        );
      },
      ground arith,
    )
