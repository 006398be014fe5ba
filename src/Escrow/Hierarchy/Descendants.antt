-- ===== src/Escrow/Hierarchy/Descendants.antt =====
-- What the answer of `can_parent_release` means.
use facilpay_contracts.Prelude.{
  ℕ, zero, suc, ◌+◌, ◌≡◌, refl, sym, ap, subst, ◌⊎◌, inl, inr, Bool, true, false, Option, some,
  List, [], ◌∷◌, ◌++◌, arith, ◌==◌, Bool-cases, Option-cases, is_some, length, contains,
  contains-++,
}
use facilpay_contracts.Escrow.Hierarchy.{
  is_escrow_resolved, children_of, all_resolved, visit, next_generation, generations,
  can_parent_release,
}
use facilpay_contracts.Escrow.Storage.{Book}
use facilpay_contracts.Escrow.Types.{Escrow}
use facilpay_contracts.Host.{ok}

-- `c` is a child of `p`, or a child of a descendant of `p`.
pub data Descends (b : Book) (p : ℕ) : ℕ → Type 0 where
  child : {c : ℕ} → contains (children_of (b.hierarchy p)) c ≡ true → Descends b p c
  below :
      {c d : ℕ} → Descends b p c → contains (children_of (b.hierarchy c)) d ≡ true → Descends b p d

-- A child's descendants are descendants.
through_child :
    (b : Book) (p c : ℕ) {d : ℕ}
    → contains (children_of (b.hierarchy p)) c ≡ true
    → Descends b c d
    → Descends b p d
through_child b p c h (child k) = below (child h) k
through_child b p c h (below x k) = below (through_child b p c h x) k

all_resolved-contains :
    (b : Book) (cs : List ℕ) (c : ℕ)
    → all_resolved b cs ≡ true
    → contains cs c ≡ true
    → is_escrow_resolved b c ≡ true
unfolding all_resolved
all_resolved-contains b [] c r h = ground arith
all_resolved-contains b (x ∷ cs) c r h = ground (arith, all_resolved-contains b cs c)

unresolved_one :
    (b : Book) (cs : List ℕ)
    → all_resolved b cs ≡ false
    → (c : ℕ) × (contains cs c ≡ true) × (is_escrow_resolved b c ≡ false)
unfolding all_resolved
unresolved_one b [] r = ground arith
unresolved_one b (x ∷ cs) r = elim (Bool-cases (is_escrow_resolved b x)) [
  | inl clear ↦ let (c, h, u) = unresolved_one b cs (ground arith) in (c, ground arith, u)
  | inr blocked ↦ (x, ground arith, blocked)
]

-- The children of a member of the queue are resolved and come to the queue themselves.
visit-children :
    (f : ℕ) (b : Book) (queue : List ℕ) (c d : ℕ)
    → visit f b queue ≡ some true
    → contains queue c ≡ true
    → contains (children_of (b.hierarchy c)) d ≡ true
    → (is_escrow_resolved b d ≡ true)
      × (f' : ℕ) × (later : List ℕ) × (visit f' b later ≡ some true)
      × (contains later d ≡ true)
unfolding visit
visit-children zero b [] c d r h k = ground arith
visit-children zero b (x ∷ ahead) c d r h k = ground arith
visit-children (suc f) b [] c d r h k = ground arith
visit-children (suc f) b (x ∷ ahead) c d r h k =
    let kids = children_of (b.hierarchy x) in
    let clear : all_resolved b kids ≡ true = ground arith in
    let onward : visit f b (ahead ++ kids) ≡ some true = ground arith in
    elim (Bool-cases (x == c)) [
      | inl same ↦
          let k' : contains kids d ≡ true = ground (arith, k) in
          (
            all_resolved-contains b kids d clear k',
            f,
            ahead ++ kids,
            onward,
            ground (arith, contains-++ ahead kids d),
          )
      | inr other ↦
          visit-children f b (ahead ++ kids) c d onward (ground (arith, contains-++ ahead kids c)) k
    ]

visit-descendants :
    (f : ℕ) (b : Book) (queue : List ℕ) (p : ℕ) {d : ℕ}
    → visit f b queue ≡ some true
    → contains queue p ≡ true
    → Descends b p d
    → (is_escrow_resolved b d ≡ true)
      × (f' : ℕ) × (later : List ℕ) × (visit f' b later ≡ some true)
      × (contains later d ≡ true)
visit-descendants f b queue p r h (child {c = c} k) = visit-children f b queue p c r h k
visit-descendants f b queue p r h (below {c = c} {d = d} x k) =
    let (_, f', later, r', h') = visit-descendants f b queue p r h x in
    visit-children f' b later c d r' h' k

visit-finds :
    (f : ℕ) (b : Book) (queue : List ℕ)
    → visit f b queue ≡ some false
    → (p d : ℕ) × (contains queue p ≡ true) × Descends b p d × (is_escrow_resolved b d ≡ false)
unfolding visit
visit-finds zero b [] r = ground arith
visit-finds zero b (x ∷ ahead) r = ground arith
visit-finds (suc f) b [] r = ground arith
visit-finds (suc f) b (x ∷ ahead) r =
    let kids = children_of (b.hierarchy x) in
    elim (Bool-cases (all_resolved b kids)) [
      | inr blocked ↦
          let (c, h, u) = unresolved_one b kids blocked in (x, c, ground arith, child h, u)
      | inl clear ↦
          let (p, d, h, x', u) = visit-finds f b (ahead ++ kids) (ground arith) in
          elim (Bool-cases (contains kids p)) [
            | inl k ↦ (x, d, ground arith, through_child b x p k x', u)
            | inr k ↦ (p, d, ground (arith, contains-++ ahead kids p), x', u)
          ]
    ]

-- So many generations from `ids` on, there is nobody.
abbrev pub Ends : ℕ → Book → List ℕ → Type 0
Ends zero b ids = ids ≡ []
Ends (suc k) b ids = Ends k b (next_generation b ids)

++_empty : (xs : List ℕ) → xs ++ [] ≡ xs
++_empty [] = refl
++_empty (x ∷ xs) = ap (λ ys. x ∷ ys) (++_empty xs)

++_assoc : (xs ys zs : List ℕ) → (xs ++ ys) ++ zs ≡ xs ++ (ys ++ zs)
++_assoc [] ys zs = refl
++_assoc (x ∷ xs) ys zs = ap (λ us. x ∷ us) (++_assoc xs ys zs)

abbrev Answers : Option Bool → Type 0
Answers o = is_some o ≡ true

visit_step :
    (f : ℕ) (b : Book) (x : ℕ) (ahead : List ℕ)
    → Answers (visit f b (ahead ++ children_of (b.hierarchy x)))
    → Answers (visit (suc f) b (x ∷ ahead))
unfolding visit
visit_step f b x ahead h = ground arith

-- One generation: `xs` of it is ahead, and `ys` is what the others of it have put behind.
visit_generation :
    (b : Book) (f : ℕ) (xs ys : List ℕ)
    → Answers (visit f b (ys ++ next_generation b xs))
    → Answers (visit (length xs + f) b (xs ++ ys))
visit_generation b f [] ys h =
    subst (λ n. Answers (visit n b ys)) (omega arith)
      (subst (λ q. Answers (visit f b q)) (++_empty ys) h)
visit_generation b f (x ∷ xs) ys h =
    let kids = children_of (b.hierarchy x) in
    let here : Answers (visit f b ((ys ++ kids) ++ next_generation b xs)) =
      subst (λ q. Answers (visit f b q)) (sym (++_assoc ys kids (next_generation b xs))) h in
    let rest : Answers (visit (length xs + f) b ((xs ++ ys) ++ kids)) =
      subst (λ q. Answers (visit (length xs + f) b q)) (sym (++_assoc xs ys kids))
        (visit_generation b f xs (ys ++ kids) here) in
    subst (λ n. Answers (visit n b (x ∷ xs ++ ys))) (omega arith)
      (visit_step (length xs + f) b x (xs ++ ys) rest)

visit_enough :
    (k : ℕ) (b : Book) (ids : List ℕ) → Ends k b ids → Answers (visit (generations k b ids) b ids)
unfolding visit generations
visit_enough zero b ids h = subst (λ q. Answers (visit 0 b q)) (sym h) refl
visit_enough (suc k) b ids h =
    subst (λ q. Answers (visit (length ids + generations k b (next_generation b ids)) b q))
      (++_empty ids)
      (visit_generation b (generations k b (next_generation b ids)) ids []
        (visit_enough k b (next_generation b ids) h))

-- If no escrow lies more than three generations below the parent, `can_parent_release` answers, and
-- its answer is whether every descendant of the parent is resolved.
pub can_parent_release-decides :
    (b : Book) (id : ℕ) (e : Escrow)
    → b.escrows id ≡ some e
    → Ends 4 b (id ∷ [])
    → ((can_parent_release id b ≡ ok (true, b))
        × ((d : ℕ) → Descends b id d → is_escrow_resolved b d ≡ true))
      ⊎ ((can_parent_release id b ≡ ok (false, b))
          × (d : ℕ) × Descends b id d
          × (is_escrow_resolved b d ≡ false))
unfolding can_parent_release
can_parent_release-decides b id e h z =
    let enough = visit_enough 4 b (id ∷ []) z in
    elim (Option-cases (visit (generations 4 b (id ∷ [])) b (id ∷ []))) [
      | inl stuck ↦ ground arith
      | inr (true, q) ↦ inl (
        ground arith,
        λ d x. (visit-descendants (generations 4 b (id ∷ [])) b (id ∷ []) id q (ground arith) x).0,
      )
      | inr (false, q) ↦
          let (p, d, l, x, u) = visit-finds (generations 4 b (id ∷ [])) b (id ∷ []) q in
          let same : p ≡ id = ground arith in
          inr (ground arith, d, subst (λ y. Descends b y d) same x, u)
    ]
