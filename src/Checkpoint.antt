-- ===== src/Checkpoint.antt =====
-- The reward of a batch: split into fee and rest, booked, and fanned out into payslips
-- (internal/pool/checkpoint.go). Metrics, log lines and recorded events are left out.
pub mod Split
pub mod Shares
pub mod Slips
pub mod Booking
pub mod Retry
pub mod Attribution
mod Tests
use go_pool.Prelude.{
  ℕ, ◌+◌, ◌-◌, ◌*◌, ◌/◌, ◌%◌, ◌==◌, List, [], ◌∷◌, Option, none, some, Bool, true, false, ◌&&◌,
  ◌||◌, if◌then◌else◌, length, add64, sub64, mul64, sub32,
}
use go_pool.Policy.{Policy, batch_at, epoch_at}
use go_pool.Store.{Staker, Reward, PayslipStatus}
use go_pool.Store.Monad.{Error, M, ◌>>=◌, ◌>>◌, pure, done, or_raise}
use go_pool.Store.Payslips.{insert_payslip}
use go_pool.Store.Epochs.{reward_exists, insert_reward, get_stakers_for_epoch}

-- `splitReward`, behind `basisPoints := uint64(feePercentage * 10000)`: the amount that is left and
-- the fee.
unfoldable pub split_reward : ℕ → ℕ → ℕ × ℕ
split_reward reward basis_points =
    let fee = mul64 reward basis_points / 10000 in (sub64 reward fee, fee)

-- An inherent of the checkpoint block, as the RPC client reports it.
pub record Inherent : Type 0 where
  pub is_reward : Bool
  pub validator_address : ℕ
  pub value : ℕ

-- The sum of the block's reward inherents for this validator, a uint64.
unfoldable pub reward_of : ℕ → ℕ → List Inherent → ℕ
reward_of addr acc [] = acc
reward_of addr acc (i ∷ is) =
    reward_of addr (if i.is_reward && i.validator_address == addr then add64 acc i.value else acc)
      is

-- `totalStake`: an int64 sum, read as a uint64.
unfoldable pub total_stake : ℕ → List Staker → ℕ
total_stake acc [] = acc
total_stake acc (s ∷ ss) = total_stake (add64 acc s.stake) ss

-- A staker's part of the reward, in uint64 arithmetic.
unfoldable pub share_of : ℕ → ℕ → ℕ → ℕ
share_of after_fee stake total = mul64 after_fee stake / total

-- The loop over the stakers: a payslip for each share that is not 0.
unfoldable pub pay_stakers : ℕ → ℕ → ℕ → List Staker → M (Unit {0})
pay_stakers batch after_fee total [] = done
pay_stakers batch after_fee total (s ∷ ss) =
    let rest = pay_stakers batch after_fee total ss in
    let share = share_of after_fee s.stake total in
    if share == 0 then rest else insert_payslip batch s.address share PayslipStatus.pending >> rest

-- What the handler reads: the policy, the pool's address, the fee, and the answer of
-- `GetInherentsByBlockNumber` at the height.
pub record Env : Type 0 where
  pub policy : Policy
  pub address : ℕ
  pub fee_basis_points : ℕ
  pub inherents : Option (List Inherent)

-- The payslips of a booked reward.
unfoldable pub fan_out : ℕ → ℕ → ℕ → List Staker → M (Unit {0})
fan_out batch reward after_fee stakers =
    let total = total_stake 0 stakers in
    if reward == 0 || length stakers == 0 || total == 0
    then done
    else pay_stakers batch after_fee total stakers

-- The epoch that the closed batch belongs to.
abbrev pub reward_epoch : Env → ℕ → ℕ
reward_epoch env height = epoch_at env.policy (sub32 height env.policy.blocks_per_batch)

-- The row that is booked for a batch.
abbrev pub booked : Env → ℕ → ℕ → List Inherent → List Staker → Reward
booked env height batch ins ss =
    let parts = split_reward (reward_of env.address 0 ins) env.fee_basis_points in
    record {
      batch_number = batch;
      epoch_number = reward_epoch env height;
      amount = parts.0;
      pool_fee = parts.1;
      num_stakers = length ss;
    }

unfoldable pub book : Env → ℕ → ℕ → List Inherent → List Staker → M (Unit {0})
unfolding fan_out
book env height batch ins ss =
    let row = booked env height batch ins ss in
    insert_reward row >> fan_out batch (reward_of env.address 0 ins) row.amount ss

-- `handleCheckpoint` behind the test that the reward is new.
unfoldable pub collect : Env → ℕ → ℕ → M (Unit {0})
unfolding book
collect env height batch = do
  ins ← or_raise env.inherents Error.rpc
  ss ← get_stakers_for_epoch (reward_epoch env height)
  book env height batch ins ss

-- `Manager.handleCheckpoint`.
unfoldable pub handle_checkpoint : Env → ℕ → M (Unit {0})
unfolding collect
handle_checkpoint env height =
    let current = batch_at env.policy height in
    if current == 0
    then done
    else reward_exists (current - 1) >>= λ exists.
        if exists then done else collect env height (current - 1)
