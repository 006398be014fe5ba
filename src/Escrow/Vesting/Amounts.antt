-- ===== src/Escrow/Vesting/Amounts.antt =====
-- What a schedule without milestones vests, over time.
use facilpay_contracts.Prelude.{
  ℕ, ◌+◌, ◌-◌, ◌*◌, ◌/◌, ◌≤◌, ◌<◌, min, ◌≡◌, refl, ap, ◌∙◌, Option, none, some, [], arith, ltb, leb,
  if◌then◌else◌,
}
use facilpay_contracts.Escrow.Types.{VestingSchedule, VestingAccelerationConfig}
use facilpay_contracts.Escrow.Vesting.{linear_vested, base_vested, accelerated, vested_amount}
use facilpay_contracts.Host.{saturating_i128}
use facilpay_contracts.Prelude.Int.{pos, ◌+ℤ◌, ◌-ℤ◌, ◌*ℤ◌, ◌/ℤ◌, ◌≤ℤ◌, ltb_ℤ}
use native.Mathlib.Nat.{mul-le-mul_right, div-mul-le_self, le-div_iff_mul-le, div-le_of_le-mul}

div_mono : (m n k : ℕ) → m ≤ n → 0 < k → m / k ≤ n / k
div_mono m n k h p =
    (le-div_iff_mul-le {k = k} {x = m / k} {y = n} p).1 (omega (arith, div-mul-le_self m k))

scaled_within :
    (e d n : ℕ) → e ≤ d → 0 < d → min (e * n) 170141183460469231731687303715884105727 / d ≤ n
scaled_within e d n h k = div-le_of_le-mul d (omega (arith, mul-le-mul_right {m = e} {n = d} n h))

scaled_grows :
    (e f d n : ℕ)
    → e ≤ f
    → 0 < d
    → min (e * n) 170141183460469231731687303715884105727 / d
      ≤ min (f * n) 170141183460469231731687303715884105727 / d
scaled_grows e f d n h k =
    div_mono (min (e * n) 170141183460469231731687303715884105727)
      (min (f * n) 170141183460469231731687303715884105727) d
      (omega (arith, mul-le-mul_right {m = e} {n = f} n h)) k

-- The operations on amounts that are not negative.
sub_pos :
    (n k : ℕ)
    → k ≤ n
    → n < 170141183460469231731687303715884105727
    → saturating_i128 (pos n -ℤ pos k) ≡ pos (n - k)
unfolding ◌-ℤ◌
sub_pos n k o b = ground arith

mul_pos :
    (x b : ℕ)
    → saturating_i128 (pos x *ℤ pos b) ≡ pos (min (x * b) 170141183460469231731687303715884105727)
unfolding ◌*ℤ◌
mul_pos x b = ground arith

div_pos : (x d : ℕ) → pos x /ℤ d ≡ pos (x / d)
unfolding ◌/ℤ◌
div_pos x d = ground arith

add_pos :
    (k j : ℕ)
    → saturating_i128 (pos k +ℤ pos j) ≡ pos (min (k + j) 170141183460469231731687303715884105727)
unfolding ◌+ℤ◌
add_pos k j = ground arith

capped :
    (n x : ℕ)
    → n < 170141183460469231731687303715884105727
    → (if ltb_ℤ (pos n) (pos (min x 170141183460469231731687303715884105727))
        then pos n
        else pos (min x 170141183460469231731687303715884105727))
      ≡ pos (min n x)
capped n x b = ground arith

-- The part that counts at a time: nothing before the cliff, all from the end on.
abbrev stage : ℕ → ℕ → ℕ → ℕ → ℕ → ℕ
stage cliff end n now part = if ltb now cliff then 0 else if leb end now then n else part

stage-grows :
    (cliff end n now later first second : ℕ)
    → now ≤ later
    → cliff < end
    → first ≤ second
    → (now < end → first ≤ n)
    → (later < end → second ≤ n)
    → (stage cliff end n now first ≤ stage cliff end n later second)
      × (stage cliff end n later second ≤ n)
stage-grows cliff end n now later first second o c g b b' = (ground arith, ground arith)

module _ (v : VestingSchedule) (n : ℕ) (h : v.total_amount ≡ pos n) (linear : v.milestones ≡ [])
    (ordered : v.cliff_timestamp < v.end_timestamp) where
  linear_vested-eq :
      (now : ℕ)
      → linear_vested now v
        ≡ pos (
            min ((now - v.cliff_timestamp) * n) 170141183460469231731687303715884105727
            / (v.end_timestamp - v.cliff_timestamp))
  unfolding linear_vested ◌*ℤ◌ ◌/ℤ◌
  linear_vested-eq now = ground (arith, h, ordered)

  base_vested-eq :
      (now part : ℕ)
      → linear_vested now v ≡ pos part
      → base_vested now v ≡ pos (stage v.cliff_timestamp v.end_timestamp n now part)
  unfolding base_vested
  base_vested-eq now part e = ground (arith, h, linear, e)

  -- What is vested by time lies between 0 and the total, and never shrinks.
  base_vested-grows :
      (now later : ℕ)
      → now ≤ later
      → (k l : ℕ) × (base_vested now v ≡ pos k) × (base_vested later v ≡ pos l) × (k ≤ l) × (l ≤ n)
  unfolding base_vested
  base_vested-grows now later o =
      let e : ℕ = now - v.cliff_timestamp in
      let f : ℕ = later - v.cliff_timestamp in
      let d : ℕ = v.end_timestamp - v.cliff_timestamp in
      let first : ℕ = min (e * n) 170141183460469231731687303715884105727 / d in
      let second : ℕ = min (f * n) 170141183460469231731687303715884105727 / d in
      let grows : first ≤ second = scaled_grows e f d n (omega arith) (omega arith) in
      let at_now : linear_vested now v ≡ pos first = linear_vested-eq now in
      let at_later : linear_vested later v ≡ pos second = linear_vested-eq later in
      let counts : (stage v.cliff_timestamp v.end_timestamp n now first
            ≤ stage v.cliff_timestamp v.end_timestamp n later second)
          × (stage v.cliff_timestamp v.end_timestamp n later second ≤ n) =
        stage-grows v.cliff_timestamp v.end_timestamp n now later first second o ordered grows
          (λ l. scaled_within e d n (omega arith) (omega arith))
          (λ l. scaled_within f d n (omega arith) (omega arith)) in
      (
        stage v.cliff_timestamp v.end_timestamp n now first,
        stage v.cliff_timestamp v.end_timestamp n later second,
        base_vested-eq now first at_now,
        base_vested-eq later second at_later,
        counts.0,
        counts.1,
      )

  accelerated-eq :
      (now k : ℕ) (a : Option VestingAccelerationConfig)
      → n < 170141183460469231731687303715884105727
      → base_vested now v ≡ pos k
      → k ≤ n
      → (j : ℕ) × (accelerated now v a ≡ pos j)
  unfolding accelerated
  accelerated-eq now k none b e o = (0, refl)
  accelerated-eq now k (some a) b e o =
      let left : saturating_i128 (v.total_amount -ℤ base_vested now v) ≡ pos (n - k) =
        rw (e, h) (sub_pos n k o b) in
      (
        min ((n - k) * a.total_accelerated_bps) 170141183460469231731687303715884105727 / 10000,
        ap (λ x. saturating_i128 (x *ℤ pos a.total_accelerated_bps) /ℤ 10000) left
            ∙ ap (λ x. x /ℤ 10000) (mul_pos (n - k) a.total_accelerated_bps)
            ∙ div_pos
                (min ((n - k) * a.total_accelerated_bps) 170141183460469231731687303715884105727)
                10000,
      )

  vested_amount-eq :
      (now k j : ℕ) (a : Option VestingAccelerationConfig)
      → n < 170141183460469231731687303715884105727
      → base_vested now v ≡ pos k
      → accelerated now v a ≡ pos j
      → vested_amount now v a ≡ pos (min n (k + j))
  unfolding vested_amount
  vested_amount-eq now k j a b e q =
      let total : saturating_i128 (base_vested now v +ℤ accelerated now v a)
          ≡ pos (min (k + j) 170141183460469231731687303715884105727) =
        rw (e, q) (add_pos k j) in
      ap (λ x. if ltb_ℤ v.total_amount x then v.total_amount else x) total
      ∙ ap
          (λ y.
            if ltb_ℤ y (pos (min (k + j) 170141183460469231731687303715884105727))
            then y
            else pos (min (k + j) 170141183460469231731687303715884105727))
          h
      ∙ capped n (k + j) b

  before_cliff : (now : ℕ) → now < v.cliff_timestamp → base_vested now v ≡ pos 0
  unfolding base_vested
  before_cliff now c = ground arith

  from_end : (now : ℕ) → v.end_timestamp ≤ now → base_vested now v ≡ pos n
  unfolding base_vested
  from_end now c = ground (arith, h, ordered)

  -- A schedule without milestones, with or without acceleration, whose total is not negative and less
  -- than the largest i128, and whose cliff comes before its end: before the cliff nothing is vested by
  -- time, at no time less than nothing or more than the total is vested, what is
  -- vested by time never shrinks, and from the end on the total is vested.
  pub vested_amount-bounds :
      (now later : ℕ) (a : Option VestingAccelerationConfig)
      → n < 170141183460469231731687303715884105727
      → now ≤ later
      → ((now < v.cliff_timestamp) → base_vested now v ≡ pos 0)
        × (pos 0 ≤ℤ vested_amount now v a)
        × (vested_amount now v a ≤ℤ pos n)
        × (base_vested now v ≤ℤ base_vested later v)
        × ((v.end_timestamp ≤ now) → vested_amount now v a ≡ pos n)
  vested_amount-bounds now later a b o =
      let (k, l, at_now, at_later, grows, within) = base_vested-grows now later o in
      let (j, added) = accelerated-eq now k a b at_now (omega arith) in
      let vested : vested_amount now v a ≡ pos (min n (k + j)) =
        vested_amount-eq now k j a b at_now added in
      (
        λ c. before_cliff now c,
        ground (arith, vested),
        ground (arith, vested),
        ground (arith, at_now, at_later, grows),
        λ c. ground (arith, vested, from_end now c, at_now),
      )
