-- ===== src/Host/Call.antt =====
-- The environment, outcomes, and contract calls as a state monad with failure.
use Prim.Native.Char.{code}
use Prim.Native.String.{String}
use facilpay_contracts.Prelude.{ℕ, ◌≡◌, refl, Bool, true, false, Option, none, some, List, [], ◌∷◌}
use facilpay_contracts.Prelude.Int.{ℤ}

-- `Address` is only compared and passed on.
abbrev pub Address : Type 0
Address = ℕ

-- `Bytes`, `BytesN` and `String`
abbrev pub Bytes : Type 0
Bytes = List ℕ

-- The code points of a text: its bytes, if it is ASCII.
abbrev pub bytes_of : String → Bytes
bytes_of String.[] = []
bytes_of (String.◌∷◌ c s) = code c ∷ bytes_of s

-- A call of the `transfer` entry of a token contract.
pub record Transfer : Type 0 where
  pub token : Address
  pub from : Address
  pub to : Address
  pub amount : ℤ

-- `Env`. What the host, the token contracts and the SDK decide is a field: `authorized` says for
-- which addresses `require_auth` passes, `is_token` where `try_balance` answers, `accepts` whether a
-- token carries out a transfer after those made before it in this history, `to_xdr` the encoding of
-- an address.
pub record Env : Type 0 where
  pub timestamp : ℕ
  pub current_contract : Address
  pub authorized : Address → Bool
  pub is_token : Address → Bool
  pub accepts : List Transfer → Transfer → Bool
  pub to_xdr : Address → Bytes

pub data Outcome (E : Type 0) (A : Type 0) : Type 0 where
  ok : A → Outcome E A
  err : E → Outcome E A
  trap : Outcome E A

abbrev pub Action : Type 0 → Type 0 → Type 0 → Type 0
Action E S A = S → Outcome E (A × S)

infixl 5 ◌>>=◌ ◌>>◌
abbrev pub ◌>>=◌ : {E S A B : Type 0} → Action E S A → (A → Action E S B) → Action E S B
◌>>=◌ m f s = elim (m s) [ ok r ↦ f r.0 r.1 | err e ↦ err e | trap ↦ trap ]

abbrev pub ◌>>◌ : {E S A B : Type 0} → Action E S A → Action E S B → Action E S B
m >> k = m >>= λ _. k

module _ {E S A : Type 0} where
  abbrev pub pure : A → Action E S A
  pure a s = ok (a, s)

  abbrev pub fail : E → Action E S A
  fail e _ = err e

  abbrev pub panic : Action E S A
  panic _ = trap

  abbrev pub gets : (S → A) → Action E S A
  gets f s = ok (f s, s)

  -- `.ok_or(e)?`
  abbrev pub ok_or : Option A → E → Action E S A
  ok_or o e s = elim o [ none ↦ err e | some a ↦ ok (a, s) ]

  -- `.unwrap()` and `.expect(…)`
  abbrev pub unwrap : Option A → Action E S A
  unwrap o s = elim o [ none ↦ trap | some a ↦ ok (a, s) ]

module _ {E S : Type 0} where
  abbrev pub modify : (S → S) → Action E S Unit
  modify f s = ok (tt, f s)

  -- `if c { return Err(e); }`
  abbrev pub err_if : Bool → E → Action E S Unit
  err_if c e s = elim c [ true ↦ err e | false ↦ ok (tt, s) ]

  abbrev pub panic_if : Bool → Action E S Unit
  panic_if c s = elim c [ true ↦ trap | false ↦ ok (tt, s) ]

  abbrev pub when : Bool → Action E S Unit → Action E S Unit
  when c m s = elim c [ true ↦ m s | false ↦ ok (tt, s) ]

  abbrev pub require_auth : Env → Address → Action E S Unit
  require_auth env a s = elim (env.authorized a) [ true ↦ ok (tt, s) | false ↦ trap ]

-- A call that works on a part of the storage, as a call on the whole.
abbrev pub zoom : {E S T A : Type 0} → (S → T) → (S → T → S) → Action E T A → Action E S A
zoom get set m s = elim (m (get s)) [ ok r ↦ ok (r.0, set s r.1) | err e ↦ err e | trap ↦ trap ]

-- Inversion of a bind that succeeds, on the outcome of its first part.
pub bind-eq-ok :
    {E S A B : Type 0} (o : Outcome E (A × S)) (f : A → Action E S B) {r : B × S}
    → (elim o [ ok r ↦ f r.0 r.1 | err e ↦ err e | trap ↦ trap ]) ≡ ok r
    → (a : A) × (t : S) × (o ≡ ok (a, t)) × (f a t ≡ ok r)
bind-eq-ok (ok (a, t)) f h = (a, t, refl, h)
bind-eq-ok (err e) f h = cc
bind-eq-ok trap f h = cc

-- Inversion of a bind that succeeds.
pub >>=-eq-ok :
    {E S A B : Type 0} (m : Action E S A) (f : A → Action E S B) (s : S) {r : B × S}
    → (m >>= f) s ≡ ok r
    → (a : A) × (t : S) × (m s ≡ ok (a, t)) × (f a t ≡ ok r)
>>=-eq-ok m f s h = bind-eq-ok (m s) f h

-- Inversion of a call on a part of the storage that succeeds.
pub zoom-eq-ok :
    {E S T A : Type 0} (get : S → T) (set : S → T → S) (m : Action E T A) (s : S) {r : A × S}
    → zoom get set m s ≡ ok r
    → (x : T) × (m (get s) ≡ ok (r.0, x)) × (r.1 ≡ set s x)
zoom-eq-ok {E} {S} {T} {A} get set m s {r} h = go (m (get s)) h
  where
    go :
        (o : Outcome E (A × T))
        → (elim o [ ok x ↦ ok (x.0, set s x.1) | err e ↦ err e | trap ↦ trap ]) ≡ ok r
        → (x : T) × (o ≡ ok (r.0, x)) × (r.1 ≡ set s x)
    go (ok (a, x)) e = (x, cc, cc)
    go (err e') e = cc
    go trap e = cc

-- Did a call succeed?
abbrev pub is_ok : {E S A : Type 0} → Outcome E (A × S) → Bool
is_ok (ok _) = true
is_ok (err _) = false
is_ok trap = false

pub is_ok-eq-ok :
    {E S A : Type 0} (o : Outcome E (A × S)) → is_ok o ≡ true → (a : A) × (t : S) × (o ≡ ok (a, t))
is_ok-eq-ok (ok (a, t)) h = (a, t, refl)
is_ok-eq-ok (err e) h = cc
is_ok-eq-ok trap h = cc

-- The storage after a call: the host rolls a failed call back.
abbrev pub after : {E S A : Type 0} → S → Outcome E (A × S) → S
after s (ok r) = r.1
after s (err _) = s
after s trap = s

-- What holds before a call, and after it if it succeeds, holds after it in any case.
pub after_cases {κ} :
    {E S A : Type 0} (P : S → Type κ) (s : S) (o : Outcome E (A × S))
    → P s
    → ((a : A) (t : S) → o ≡ ok (a, t) → P t)
    → P (after s o)
after_cases P s (ok (a, t)) h k = k a t refl
after_cases P s (err e) h k = h
after_cases P s trap h k = h
