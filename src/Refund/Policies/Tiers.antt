-- ===== src/Refund/Policies/Tiers.antt =====
-- The tiers of a stored policy stand in the order of their days, and the narrowest one counts.
use facilpay_contracts.Prelude.{
  ℕ, ◌≤◌, ◌<◌, ◌≡◌, refl, subst, inl, inr, true, Option, none, some, List, [], ◌∷◌, ◌++◌, arith,
  ltb, leb, if◌then◌else◌, leb→le, Bool-cases, All, put,
}
use facilpay_contracts.Host.{Address, Env, ok}
use facilpay_contracts.Refund.Policies.{
  sink, sort_loop, reverse_onto, sort_tiers, set_refund_policy, tier_for,
}
use facilpay_contracts.Refund.Storage.{RefundStorage}
use facilpay_contracts.Refund.Types.{RefundTier, RefundPolicy}
use mathlib.Core.List.{Mem, Perm, append-nil, perm_middle, mem-cons_self, mem-cons_of_mem}
use mathlib.Core.List.Perm

-- No tier has more days than one before it; no tier has fewer than one before it.
abbrev pub Descending : List RefundTier → Type 0
Descending [] = Unit
Descending (t ∷ ts) = All (λ u. u.days_from_purchase ≤ t.days_from_purchase) ts × Descending ts

abbrev pub Ascending : List RefundTier → Type 0
Ascending [] = Unit
Ascending (t ∷ ts) = All (λ u. t.days_from_purchase ≤ u.days_from_purchase) ts × Ascending ts

All-mono {κ μ} :
    {P : RefundTier → Type κ} {Q : RefundTier → Type μ} (ts : List RefundTier)
    → ((t : RefundTier) → P t → Q t)
    → All P ts
    → All Q ts
All-mono [] f h = tt
All-mono (t ∷ ts) f h = (f t h.0, All-mono ts f h.1)

All-sink {κ} :
    (P : RefundTier → Type κ) (x : RefundTier) (ts : List RefundTier)
    → P x
    → All P ts
    → All P (sink x ts)
All-sink P x [] p h = (p, tt)
All-sink P x (t ∷ ts) p h = elim (Bool-cases (ltb x.days_from_purchase t.days_from_purchase)) [
  | inl e ↦ rw e (h.0, All-sink P x ts p h.1)
  | inr e ↦ rw e (p, h)
]

sink-Descending : (x : RefundTier) (ts : List RefundTier) → Descending ts → Descending (sink x ts)
sink-Descending x [] d = (tt, tt)
sink-Descending x (t ∷ ts) d = elim (Bool-cases (ltb x.days_from_purchase t.days_from_purchase)) [
  | inl e ↦ rw e (All-sink _ x ts (ground arith) d.0, sink-Descending x ts d.1)
  | inr e ↦ rw e ((ground arith, All-mono ts (λ u h. ground arith) d.0), d)
]

sort_loop-Descending :
    (before ts : List RefundTier) → Descending before → Descending (sort_loop before ts)
sort_loop-Descending before [] d = d
sort_loop-Descending before (t ∷ ts) d =
    sort_loop-Descending (sink t before) ts (sink-Descending t before d)

-- No entry of the first list has more days than one of the second.
abbrev Before : List RefundTier → List RefundTier → Type 0
Before before later = All (λ a. All (λ b. b.days_from_purchase ≤ a.days_from_purchase) before) later

reverse_onto-Ascending :
    (before later : List RefundTier)
    → Descending before
    → Ascending later
    → Before before later
    → Ascending (reverse_onto before later)
reverse_onto-Ascending [] later d a b = a
reverse_onto-Ascending (t ∷ ts) later d a b =
    reverse_onto-Ascending ts (t ∷ later) d.1 (All-mono later (λ u h. h.0) b, a)
      (d.0, All-mono later (λ u h. h.1) b)

sink-perm : (x : RefundTier) (ts : List RefundTier) → Perm (sink x ts) (x ∷ ts)
sink-perm x [] = Perm.refl (x ∷ [])
sink-perm x (t ∷ ts) = elim (Bool-cases (ltb x.days_from_purchase t.days_from_purchase)) [
  | inl e ↦ rw e (Perm.trans (Perm.cons t (sink-perm x ts)) (Perm.swap x t ts))
  | inr e ↦ rw e (Perm.refl (x ∷ t ∷ ts))
]

sort_loop-perm : (before ts : List RefundTier) → Perm (sort_loop before ts) (before ++ ts)
sort_loop-perm before [] = rw append-nil (Perm.refl before)
sort_loop-perm before (t ∷ ts) =
    Perm.trans (sort_loop-perm (sink t before) ts)
      (Perm.trans (Perm.append_right ts (sink-perm t before)) (Perm.symm (perm_middle before ts)))

reverse_onto-perm :
    (before later : List RefundTier) → Perm (reverse_onto before later) (before ++ later)
reverse_onto-perm [] later = Perm.refl later
reverse_onto-perm (t ∷ ts) later =
    Perm.trans (reverse_onto-perm ts (t ∷ later)) (perm_middle ts later)

-- The sorting puts the tiers in ascending order of their days, and neither loses nor adds one.
pub sort_tiers-Ascending :
    (ts : List RefundTier) → Ascending (sort_tiers ts) × Perm (sort_tiers ts) ts
unfolding sort_tiers
sort_tiers-Ascending ts = (
  reverse_onto-Ascending (sort_loop [] ts) [] (sort_loop-Descending [] ts tt) tt tt,
  Perm.trans (reverse_onto-perm (sort_loop [] ts) []) (rw append-nil (sort_loop-perm [] ts)),
)

unsink-All {κ} :
    (P : RefundTier → Type κ) (x : RefundTier) (ts : List RefundTier)
    → All P (sink x ts)
    → P x × All P ts
unsink-All P x [] h = h
unsink-All P x (t ∷ ts) h = elim (Bool-cases (ltb x.days_from_purchase t.days_from_purchase)) [
  | inl e ↦
      let k : All P (t ∷ sink x ts) =
        subst (λ b. All P (if b then t ∷ sink x ts else x ∷ t ∷ ts)) e h in
      let rest = unsink-All P x ts k.1 in (rest.0, (k.0, rest.1))
  | inr e ↦ subst (λ b. All P (if b then t ∷ sink x ts else x ∷ t ∷ ts)) e h
]

unsort_loop-All {κ} :
    (P : RefundTier → Type κ) (before ts : List RefundTier)
    → All P (sort_loop before ts)
    → All P before × All P ts
unsort_loop-All P before [] h = (h, tt)
unsort_loop-All P before (t ∷ ts) h =
    let rest = unsort_loop-All P (sink t before) ts h in
    let front = unsink-All P t before rest.0 in (front.1, (front.0, rest.1))

unreverse_onto-All {κ} :
    (P : RefundTier → Type κ) (before later : List RefundTier)
    → All P (reverse_onto before later)
    → All P before × All P later
unreverse_onto-All P [] later h = (tt, h)
unreverse_onto-All P (t ∷ ts) later h =
    let rest = unreverse_onto-All P ts (t ∷ later) h in ((rest.1.0, rest.0), rest.1.1)

unsort_tiers-All {κ} :
    (P : RefundTier → Type κ) (ts : List RefundTier) → All P (sort_tiers ts) → All P ts
unfolding sort_tiers
unsort_tiers-All P ts h =
    (unsort_loop-All P [] ts (unreverse_onto-All P (sort_loop [] ts) [] h).0).1

-- What a search among tiers should answer: one of them that covers the day and is not wider than any
-- other that does, or nothing if none does.
abbrev pub Narrowest : ℕ → List RefundTier → Option RefundTier → Type 0
Narrowest days ts none = All (λ u. u.days_from_purchase < days) ts
Narrowest days ts (some t) =
    Mem t ts
    × (days ≤ t.days_from_purchase)
    × All (λ u. days ≤ u.days_from_purchase → t.days_from_purchase ≤ u.days_from_purchase) ts

Narrowest-cons :
    (days : ℕ) (t : RefundTier) (ts : List RefundTier) (o : Option RefundTier)
    → t.days_from_purchase < days
    → Narrowest days ts o
    → Narrowest days (t ∷ ts) o
Narrowest-cons days t ts none l n = (l, n)
Narrowest-cons days t ts (some u) l (m, c, w) =
    (mem-cons_of_mem t m, c, ((λ k. absurd (omega arith)), w))

tier_for-Narrowest :
    (days : ℕ) (ts : List RefundTier) → Ascending ts → Narrowest days ts (tier_for days ts)
tier_for-Narrowest days [] a = tt
tier_for-Narrowest days (t ∷ ts) a = elim (Bool-cases (leb days t.days_from_purchase)) [
  | inl e ↦ rw e (mem-cons_self, leb→le _ _ e, ((λ k. omega arith), All-mono ts (λ u h k. h) a.0))
  | inr e ↦
      rw e (
        Narrowest-cons days t ts (tier_for days ts) (ground arith) (tier_for-Narrowest days ts a.1))
]

unsort-Narrowest :
    (days : ℕ) (ts : List RefundTier) (o : Option RefundTier)
    → Narrowest days (sort_tiers ts) o
    → Narrowest days ts o
unsort-Narrowest days ts none n = unsort_tiers-All _ ts n
unsort-Narrowest days ts (some t) (m, c, w) =
    ((Perm.mem_iff (sort_tiers-Ascending ts).1).0 m, c, unsort_tiers-All _ ts w)

-- A policy that a merchant sets is stored as active, and on any day the tier that counts is one of
-- the tiers as they were given, in whatever order: one with the fewest days of those that cover the
-- day; none counts only if none covers it. No other merchant's policy changes.
pub set_refund_policy-Narrowest :
    (env : Env) (merchant : Address) (tiers : List RefundTier) (s t : RefundStorage)
    → set_refund_policy env merchant tiers s ≡ ok (tt, t)
    → (env.authorized merchant ≡ true)
      × ((policy : RefundPolicy) × (t.policies.policy
            ≡ put s.policies.policy merchant (some policy))
          × (policy.active ≡ true)
          × ((days : ℕ) → Narrowest days tiers (tier_for days policy.tiers)))
unfolding set_refund_policy
set_refund_policy-Narrowest env merchant tiers s t r = (
  ground arith,
  (
    record {
      merchant = merchant;
      tiers = sort_tiers tiers;
      active = true;
      created_at = env.timestamp;
      updated_at = env.timestamp;
      default_window_seconds = 2592000;
    },
    ground arith,
    refl,
    λ days.
        unsort-Narrowest days tiers (tier_for days (sort_tiers tiers))
          (tier_for-Narrowest days (sort_tiers tiers) (sort_tiers-Ascending tiers).0),
  ),
)
