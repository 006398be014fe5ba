-- ===== src/Escrow/Vesting.antt =====
-- Vesting of contracts/escrow/src/lib.rs: an escrow whose amount is released along a schedule, by
-- time or by milestones.
pub mod Amounts
pub mod Rules
use facilpay_contracts.Prelude.{
  ℕ, ◌+◌, ◌-◌, Bool, true, false, not, ◌&&◌, ◌||◌, Option, none, some, List, [], ◌∷◌, ◌++◌, ltb,
  leb, ◌==◌, if◌then◌else◌, is_some, length, put,
}
use facilpay_contracts.Escrow.Create.{enter}
use facilpay_contracts.Escrow.Errors.{
  invalid_status, not_found, invalid_vesting_schedule, cliff_period_not_passed,
  milestone_already_released, acceleration_limit_exceeded, escrow, action,
}
use facilpay_contracts.Escrow.Payout.{transfer_if_token_contract, fee_config_of}
use facilpay_contracts.Escrow.Release.{escrow_or_err}
use facilpay_contracts.Escrow.Storage.{Storage, Call, on_vesting, on_book, on_transfers}
use facilpay_contracts.Escrow.Timelock.{admin_only}
use facilpay_contracts.Escrow.Types.{
  customer, locked, released, Escrow, VestingMilestone, VestingSchedule, VestingAccelerationConfig,
}
use facilpay_contracts.Host.{
  Address, Env, ◌>>=◌, ◌>>◌, pure, gets, ok_or, modify, err_if, require_auth, u64, saturating_u32,
  saturating_i128,
}
use facilpay_contracts.Prelude.Int.{ℤ, pos, ◌+ℤ◌, ◌-ℤ◌, ◌*ℤ◌, ◌/ℤ◌, ltb_ℤ, leb_ℤ, eqb_ℤ}

-- The loop over the milestones of a new schedule: their sum, and whether each lies in the schedule.
abbrev pub milestone_sum : ℤ → List VestingMilestone → ℤ
milestone_sum total [] = total
milestone_sum total (m ∷ ms) = milestone_sum (saturating_i128 (total +ℤ m.amount)) ms

abbrev pub all_inside : ℕ → ℕ → List VestingMilestone → Bool
all_inside cliff end [] = true
all_inside cliff end (m ∷ ms) =
    if ltb m.unlock_timestamp cliff || ltb end m.unlock_timestamp
    then false
    else all_inside cliff end ms

-- A milestone without a number gets its place, from 1 on.
abbrev pub with_ids : ℕ → List VestingMilestone → List VestingMilestone
with_ids i [] = []
with_ids i (m ∷ ms) =
    (if m.milestone_id == 0 then record m { milestone_id = i + 1 } else m) ∷ with_ids (i + 1) ms

unfoldable pub create_vesting_escrow :
    Env → Address → Address → ℤ → Address → ℕ → ℕ → List VestingMilestone → Call ℕ
unfolding enter ◌+ℤ◌
create_vesting_escrow env customer_address merchant_address amount token cliff_timestamp
      end_timestamp milestones =
    do
      require_auth env customer_address
      err_if (ltb cliff_timestamp env.timestamp) (escrow invalid_vesting_schedule)
      err_if (leb end_timestamp cliff_timestamp) (escrow invalid_vesting_schedule)
      err_if
          (ltb 0 (length milestones)
            && (not (all_inside cliff_timestamp end_timestamp milestones)
                || not (eqb_ℤ (milestone_sum (pos 0) milestones) amount)))
          (escrow invalid_vesting_schedule)
      s ← gets (λ s. s)
      escrow_id ← u64 (s.book.counter + 1)
      let fee_config = fee_config_of env s
      let e : Escrow = record {
        id = escrow_id;
        customer = customer_address;
        merchant = merchant_address;
        amount = amount;
        token = token;
        status = locked;
        created_at = env.timestamp;
        release_timestamp = end_timestamp;
        dispute_started_at = 0;
        last_activity_at = env.timestamp;
        escalation_level = 0;
        min_hold_period = 0;
        fee_bps = if fee_config.enabled then fee_config.fee_bps else pos 0;
        expiry_timestamp = 0;
        auto_refund_on_expiry = false;
        escalated_at = none;
        escalation_timeout = 604800;
        auto_resolve_in_favor_of = customer;
        evidence_deadline = none;
      }
      on_vesting (
          modify (λ v. record v {
            schedules = put v.schedules escrow_id (
                some (record {
                  escrow_id = escrow_id;
                  total_amount = amount;
                  released_amount = pos 0;
                  start_timestamp = env.timestamp;
                  cliff_timestamp = cliff_timestamp;
                  end_timestamp = end_timestamp;
                  milestones = with_ids 0 milestones;
                }));
          }))
      on_book (enter escrow_id e none)
      pure escrow_id

-- The sum of the milestones that are unlocked.
abbrev pub unlocked_sum : ℕ → ℤ → List VestingMilestone → ℤ
unlocked_sum now total [] = total
unlocked_sum now total (m ∷ ms) =
    unlocked_sum now
      (if leb m.unlock_timestamp now then saturating_i128 (total +ℤ m.amount) else total) ms

-- The amount that is vested in proportion to the time since the cliff.
unfoldable pub linear_vested : ℕ → VestingSchedule → ℤ
unfolding ◌*ℤ◌ ◌/ℤ◌
linear_vested now v =
    let total_duration = v.end_timestamp - v.cliff_timestamp in
    if total_duration == 0
    then pos 0
    else saturating_i128 (pos (now - v.cliff_timestamp) *ℤ v.total_amount) /ℤ total_duration

-- `get_base_vested_amount`, of a schedule
unfoldable pub base_vested : ℕ → VestingSchedule → ℤ
unfolding linear_vested ◌+ℤ◌
base_vested now v =
    if ltb now v.cliff_timestamp
    then pos 0
    else if leb v.end_timestamp now
    then v.total_amount
    else elim v.milestones [ [] ↦ linear_vested now v | m ∷ ms ↦ unlocked_sum now (pos 0) (m ∷ ms) ]

-- `calculate_accelerated_amount`, of a schedule
unfoldable pub accelerated : ℕ → VestingSchedule → Option VestingAccelerationConfig → ℤ
accelerated now v none = pos 0
accelerated now v (some a) =
    saturating_i128
      (saturating_i128 (v.total_amount -ℤ base_vested now v) *ℤ pos a.total_accelerated_bps)
    /ℤ 10000

-- `get_vested_amount`, of a schedule
unfoldable pub vested_amount : ℕ → VestingSchedule → Option VestingAccelerationConfig → ℤ
vested_amount now v a =
    let total_vested = saturating_i128 (base_vested now v +ℤ accelerated now v a) in
    if ltb_ℤ v.total_amount total_vested then v.total_amount else total_vested

unfoldable pub get_vested_amount : Env → ℕ → Storage → ℤ
get_vested_amount env id s = elim (s.vesting.schedules id) [
  | none ↦ pos 0
  | some v ↦ vested_amount env.timestamp v (s.vesting.accelerations id)
]

unfoldable pub get_releasable_amount : Env → ℕ → Storage → ℤ
unfolding get_vested_amount ◌-ℤ◌
get_releasable_amount env id s = elim (s.vesting.schedules id) [
  | none ↦ pos 0
  | some v ↦ saturating_i128 (get_vested_amount env id s -ℤ v.released_amount)
]

abbrev pub schedule_or_err : ℕ → Call VestingSchedule
schedule_or_err id = do s ← gets (λ s. s); ok_or (s.vesting.schedules id) (escrow not_found)

abbrev pub set_schedule : ℕ → VestingSchedule → Call Unit
set_schedule id v = on_vesting (modify (λ x. record x { schedules = put x.schedules id (some v) }))

unfoldable pub set_vesting_acceleration_config : Env → Address → ℕ → ℕ → ℕ → Call Unit
set_vesting_acceleration_config env admin schedule_id milestone_bps max_acceleration_bps = do
  admin_only env admin
  err_if (ltb milestone_bps 1 || ltb 10000 milestone_bps) (escrow invalid_vesting_schedule)
  err_if (ltb max_acceleration_bps milestone_bps) (escrow invalid_vesting_schedule)
  v ← schedule_or_err schedule_id
  on_vesting (
      modify (λ x. record x {
        accelerations = put x.accelerations schedule_id (
            some (record {
              schedule_id = schedule_id;
              milestone_bps = milestone_bps;
              max_acceleration_bps = max_acceleration_bps;
              total_accelerated_bps = 0;
            }));
      }))

unfoldable pub mark_milestone_complete : Env → Address → ℕ → Call Unit
mark_milestone_complete env admin schedule_id = do
  admin_only env admin
  s ← gets (λ s. s)
  a ← ok_or (s.vesting.accelerations schedule_id) (escrow not_found)
  err_if (leb a.max_acceleration_bps a.total_accelerated_bps) (escrow milestone_already_released)
  let next_total = saturating_u32 (a.total_accelerated_bps + a.milestone_bps)
  err_if (ltb a.max_acceleration_bps next_total) (action acceleration_limit_exceeded)
  on_vesting (
      modify (λ x. record x {
        accelerations =
            put x.accelerations schedule_id
              (some (record a { total_accelerated_bps = next_total }));
      }))

-- The milestones that a release by time counts as released.
abbrev pub mark_released : ℕ → ℤ → List VestingMilestone → List VestingMilestone
mark_released now released_amount [] = []
mark_released now released_amount (m ∷ ms) =
    (if not m.released && leb m.unlock_timestamp now && leb_ℤ m.amount released_amount
      then record m { released = true }
      else m)
    ∷ mark_released now released_amount ms

-- Any address that signs; no token is moved.
unfoldable pub release_vested_amount : Env → Address → ℕ → Call ℤ
release_vested_amount env admin id = do
  require_auth env admin
  escrow_or_err id
  v ← schedule_or_err id
  err_if (ltb env.timestamp v.cliff_timestamp) (escrow cliff_period_not_passed)
  vested ← gets (get_vested_amount env id)
  let releasable = saturating_i128 (vested -ℤ v.released_amount)
  err_if (eqb_ℤ releasable (pos 0)) (escrow invalid_status)
  let released_amount = saturating_i128 (v.released_amount +ℤ releasable)
  set_schedule id (record v {
    released_amount = released_amount;
    milestones = mark_released env.timestamp released_amount v.milestones;
  })
  pure releasable

-- The first milestone of a number, and the list with another in its place.
abbrev pub find_milestone : ℕ → List VestingMilestone → Option VestingMilestone
find_milestone id [] = none
find_milestone id (m ∷ ms) = if m.milestone_id == id then some m else find_milestone id ms

abbrev pub set_milestone : ℕ → VestingMilestone → List VestingMilestone → List VestingMilestone
set_milestone id m' [] = []
set_milestone id m' (m ∷ ms) = if m.milestone_id == id then m' ∷ ms else m ∷ set_milestone id m' ms

unfoldable pub approve_milestone : Env → Address → ℕ → ℕ → Call Unit
approve_milestone env admin id milestone_id = do
  admin_only env admin
  v ← schedule_or_err id
  m ← ok_or (find_milestone milestone_id v.milestones) (escrow invalid_status)
  err_if m.released (escrow milestone_already_released)
  set_schedule id (record v {
    milestones =
        set_milestone milestone_id
          (record m { approved_by = some admin; approved_at = some env.timestamp }) v.milestones;
  })

unfoldable pub release_milestone : Env → ℕ → ℕ → Call ℤ
unfolding transfer_if_token_contract ◌+ℤ◌
release_milestone env id milestone_id = do
  v ← schedule_or_err id
  e ← escrow_or_err id
  m ← ok_or (find_milestone milestone_id v.milestones) (escrow invalid_status)
  err_if m.released (escrow milestone_already_released)
  err_if (not (is_some m.approved_by)) (escrow invalid_status)
  let new_total = saturating_i128 (v.released_amount +ℤ m.amount)
  err_if (ltb_ℤ v.total_amount new_total) (escrow invalid_status)
  set_schedule id (record v {
    milestones = set_milestone milestone_id (record m { released = true }) v.milestones;
    released_amount = new_total;
  })
  on_transfers (transfer_if_token_contract env e.token e.merchant m.amount)
  pure m.amount

unfoldable pub add_milestone : Env → Address → ℕ → VestingMilestone → Call Unit
unfolding ◌+ℤ◌
add_milestone env admin id milestone = do
  admin_only env admin
  v ← schedule_or_err id
  err_if
      (ltb_ℤ v.total_amount
        (saturating_i128 (milestone_sum (pos 0) v.milestones +ℤ milestone.amount)))
      (escrow invalid_status)
  err_if (ltb milestone.unlock_timestamp v.cliff_timestamp) (escrow invalid_vesting_schedule)
  err_if (ltb v.end_timestamp milestone.unlock_timestamp) (escrow invalid_vesting_schedule)
  let m =
      if milestone.milestone_id == 0
      then record milestone { milestone_id = length v.milestones + 1 }
      else milestone
  set_schedule id (record v { milestones = v.milestones ++ (m ∷ []) })
