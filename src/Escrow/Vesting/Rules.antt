-- ===== src/Escrow/Vesting/Rules.antt =====
-- Releases of a schedule.
use facilpay_contracts.Prelude.{ℕ, ◌<◌, ◌≡◌, refl, false, some, List, [], ◌∷◌, map, arith, put}
use facilpay_contracts.Escrow.Storage.{Storage}
use facilpay_contracts.Escrow.Types.{VestingMilestone, VestingSchedule}
use facilpay_contracts.Escrow.Vesting.{get_vested_amount, mark_released, release_vested_amount}
use facilpay_contracts.Host.{Address, Env, ok, saturating_i128}
use facilpay_contracts.Prelude.Int.{ℤ, pos, ◌+ℤ◌, ◌-ℤ◌}

resaturated :
    (n r : ℕ)
    → n < 170141183460469231731687303715884105727
    → r < 170141183460469231731687303715884105727
    → saturating_i128 (pos r +ℤ saturating_i128 (pos n -ℤ pos r)) ≡ pos n
unfolding ◌+ℤ◌ ◌-ℤ◌
resaturated n r b c = ground arith

release_vested_amount-writes :
    (env : Env) (caller : Address) (id : ℕ) (x y : ℤ) (v : VestingSchedule) (s t : Storage)
    → s.vesting.schedules id ≡ some v
    → saturating_i128
        (v.released_amount +ℤ saturating_i128 (get_vested_amount env id s -ℤ v.released_amount))
      ≡ y
    → release_vested_amount env caller id s ≡ ok (x, t)
    → t ≡ record s {
      vesting = record (s.vesting) {
        schedules = put s.vesting.schedules id (
            some (record v {
              released_amount = y;
              milestones = mark_released env.timestamp y v.milestones;
            }));
      };
    }
unfolding release_vested_amount
release_vested_amount-writes env caller id x y v s t h q e = ground (arith, h, q)

-- A milestone without its mark of release.
abbrev pub unmarked : VestingMilestone → VestingMilestone
unmarked m = record m { released = false }

map-mark_released :
    (now : ℕ) (amount : ℤ) (ms : List VestingMilestone)
    → map unmarked (mark_released now amount ms) ≡ map unmarked ms
map-mark_released now amount [] = refl
map-mark_released now amount (m ∷ ms) = ground (arith, map-mark_released now amount ms)

-- A release of what is vested, where the vested amount and the released one are not negative and less
-- than the largest i128, moves no token, whoever calls. Of the whole storage it changes the schedule
-- only: the released amount becomes the vested one, and the milestones keep everything except perhaps
-- their marks of release.
pub release_vested_amount_pays_nothing :
    (env : Env) (caller : Address) (id n r : ℕ) (x : ℤ) (v : VestingSchedule) (s t : Storage)
    → s.vesting.schedules id ≡ some v
    → v.released_amount ≡ pos r
    → get_vested_amount env id s ≡ pos n
    → n < 170141183460469231731687303715884105727
    → r < 170141183460469231731687303715884105727
    → release_vested_amount env caller id s ≡ ok (x, t)
    → (t.transfers ≡ s.transfers)
      × (t.book ≡ s.book)
      × ((w : VestingSchedule) × (t ≡ record s {
        vesting = record (s.vesting) { schedules = put s.vesting.schedules id (some w) };
      })
          × (w ≡ record v { released_amount = pos n; milestones = w.milestones })
          × (map unmarked w.milestones ≡ map unmarked v.milestones))
release_vested_amount_pays_nothing env caller id n r x v s t h hr hn bn br e =
    let stored =
      release_vested_amount-writes env caller id x (pos n) v s t h
        (rw (hr, hn) (resaturated n r bn br)) e in
    (
      ground (arith, stored),
      ground (arith, stored),
      (
        record v {
          released_amount = pos n;
          milestones = mark_released env.timestamp (pos n) v.milestones;
        },
        stored,
        refl,
        map-mark_released env.timestamp (pos n) v.milestones,
      ),
    )
