-- ===== src/Pausing/Rules.antt =====
-- Pause and resumption of single functions and of all of them.
use facilpay_contracts.Prelude.{
  ◌≡◌, inl, inr, true, false, List, [], ◌∷◌, arith, if◌then◌else◌, Bool-cases, Option-cases,
  bytes_eq, bytes_eq_refl, bytes_eq_sound,
}
use facilpay_contracts.Host.{Address, Bytes, Env, ok}
use facilpay_contracts.Pausing.{
  Pausing, is_named, push_name, without, pause_all, pause_one, unpause_one, is_function_paused,
  is_paused_all,
}

is_named-push_name :
    (m n : Bytes) (ns : List Bytes)
    → is_named m (push_name ns n) ≡ (if is_named m ns then true else bytes_eq n m)
is_named-push_name m n [] = ground arith
is_named-push_name m n (k ∷ ns) = ground (arith, is_named-push_name m n ns)

is_named-without :
    (m n : Bytes) (ns : List Bytes)
    → is_named m (without n ns) ≡ (if bytes_eq n m then false else is_named m ns)
is_named-without m n [] = ground arith
is_named-without m n (k ∷ ns) = elim (Bool-cases (bytes_eq k n)) [
  | inl b ↦ ground (arith, is_named-without m n ns, bytes_eq_sound k n, b)
  | inr b ↦ ground (
    arith,
    is_named-without m n ns,
    bytes_eq_sound k m,
    bytes_eq_sound n m,
    bytes_eq_refl k,
    bytes_eq_refl n,
    b,
  )
]

module _ {E : Type 0} (env : Env) (admin : Address) (s t : Pausing) where
  -- The pause of all functions pauses each of them.
  pub pause_all-pauses :
      (why name : Bytes)
      → pause_all {E = E} env admin why s ≡ ok (tt, t)
      → is_function_paused name t ≡ true
  unfolding pause_all is_function_paused
  pause_all-pauses why name e = ground arith

  pub pause_one-pauses :
      (name why m : Bytes)
      → pause_one {E = E} env admin name why s ≡ ok (tt, t)
      → is_function_paused m t ≡ (if is_function_paused m s then true else bytes_eq name m)
  unfolding pause_one is_function_paused
  pause_one-pauses name why m e = elim (Option-cases s.state) [
    | inl n ↦ ground (arith, n)
    | inr h ↦
        ground (arith, h.1, is_named-push_name m name h.0.paused_functions, bytes_eq_sound name m)
  ]

  pub unpause_one-resumes :
      (name m : Bytes)
      → unpause_one {E = E} env admin name s ≡ ok (tt, t)
      → is_function_paused m t
        ≡ (if bytes_eq name m then is_paused_all s else is_function_paused m s)
  unfolding unpause_one is_function_paused
  unpause_one-resumes name m e = elim (Option-cases s.state) [
    | inl n ↦ ground (arith, n)
    | inr h ↦ ground (arith, h.1, is_named-without m name h.0.paused_functions)
  ]
