-- ===== src/Escrow/Examples/Vestings.antt =====
-- Tests of a schedule that vests in proportion to time, and of one with milestones.
use facilpay_contracts.Prelude.{◌≤◌, ◌<◌, ◌≡◌, refl, false, none, some, [], ◌∷◌, map, arith, put}
use facilpay_contracts.Escrow.Examples.{now, locked_escrow, holding}
use facilpay_contracts.Escrow.Storage.{Storage}
use facilpay_contracts.Escrow.Types.{VestingMilestone, VestingSchedule}
use facilpay_contracts.Escrow.Vesting.{
  base_vested, accelerated, vested_amount, get_vested_amount, release_vested_amount,
  release_milestone,
}
use facilpay_contracts.Escrow.Vesting.Amounts.{vested_amount-bounds}
use facilpay_contracts.Escrow.Vesting.Rules.{unmarked, release_vested_amount_pays_nothing}
use facilpay_contracts.Host.{after}
use facilpay_contracts.Prelude.Int.{pos, ◌+ℤ◌, ◌-ℤ◌, ◌≤ℤ◌}

abbrev schedule : VestingSchedule
schedule = record {
  escrow_id = 1;
  total_amount = pos 1000;
  released_amount = pos 0;
  start_timestamp = 800000;
  cliff_timestamp = 900000;
  end_timestamp = 2000000;
  milestones = [];
}

abbrev milestone : VestingMilestone
milestone = record {
  milestone_id = 1;
  unlock_timestamp = 950000;
  amount = pos 400;
  released = false;
  description = [];
  approved_by = some 1;
  approved_at = some 960000;
}

abbrev staged : VestingSchedule
staged = record schedule { milestones = milestone ∷ [] }

abbrev vesting_in : VestingSchedule → Storage
vesting_in v = record (holding locked_escrow) {
  vesting = record { schedules = put (λ _. none) 1 (some v); accelerations = λ _. none };
}

vested_amount-bounds_example :
    ((1000000 < schedule.cliff_timestamp) → base_vested 1000000 schedule ≡ pos 0)
    × (pos 0 ≤ℤ vested_amount 1000000 schedule none)
    × (vested_amount 1000000 schedule none ≤ℤ pos 1000)
    × (base_vested 1000000 schedule ≤ℤ base_vested 1500000 schedule)
    × ((schedule.end_timestamp ≤ 1000000) → vested_amount 1000000 schedule none ≡ pos 1000)
vested_amount-bounds_example =
    vested_amount-bounds schedule 1000 refl refl (omega arith) 1000000 1500000 none (omega arith)
      (omega arith)

abbrev milestone_storage : Storage
milestone_storage = after (vesting_in staged) (release_milestone now 1 1 (vesting_in staged))

abbrev vested_storage : Storage
vested_storage = after (vesting_in staged) (release_vested_amount now 66 1 (vesting_in staged))

release_vested_amount_pays_nothing_example :
    (vested_storage.transfers ≡ (vesting_in staged).transfers)
    × (vested_storage.book ≡ (vesting_in staged).book)
    × ((w : VestingSchedule) × (vested_storage ≡ record (vesting_in staged) {
      vesting = record ((vesting_in staged).vesting) {
        schedules = put (vesting_in staged).vesting.schedules 1 (some w);
      };
    })
        × (w ≡ record staged { released_amount = pos 400; milestones = w.milestones })
        × (map unmarked w.milestones ≡ map unmarked staged.milestones))
unfolding release_vested_amount get_vested_amount vested_amount accelerated ◌+ℤ◌ base_vested ◌-ℤ◌
release_vested_amount_pays_nothing_example =
    release_vested_amount_pays_nothing now 66 1 400 0 (pos 400) staged (vesting_in staged)
      vested_storage refl refl refl (omega arith) (omega arith) refl
