-- ===== src/Checkpoint/Tests.antt =====
-- Runs of the checkpoint handler (internal/pool/checkpoint.go) on a small chain.
use go_pool.Prelude.{
  ◌+◌, ◌-◌, ◌*◌, ◌≤◌, ◌<◌, ◌≡◌, ◌⊎◌, refl, some, none, true, false, arith, List, [], ◌∷◌, sum_of,
}
use go_pool.Policy.{Policy, IsPolicy, epoch_at, batch_at, classify, div_ceil}
use go_pool.Store.{EpochStatus, Staker, Reward, Tables}
use go_pool.Store.Statements.{calm}
use go_pool.Store.Monad.{World, ok, err, Error}
use go_pool.Store.Payslips.{insert_payslip, reward_exists_in}
use go_pool.Store.Epochs.{reward_exists, insert_reward, get_stakers_for_epoch, epoch_exists_in}
use go_pool.Checkpoint.{
  split_reward, share_of, reward_of, total_stake, pay_stakers, Inherent, Env, reward_epoch, collect,
  handle_checkpoint,
}
use go_pool.Checkpoint.Split.{split_reward-conserves}
use go_pool.Checkpoint.Shares.{shares, stakes, Overflows, shares_bounds}
use go_pool.Checkpoint.Slips.{slips_due, AddsUp}
use go_pool.Checkpoint.Booking.{stakers_in, row, handle_checkpoint-pays}
use go_pool.Checkpoint.Retry.{
  handle_checkpoint-once, failed_payslip_never_retried, failing, with_reward,
}
use go_pool.Checkpoint.Attribution.{handle_checkpoint-of_batch}

abbrev small : Policy
small = record {
  genesis_block_number = 10;
  blocks_per_epoch = 12;
  blocks_per_batch = 4;
  block_separation_time = 1000;
}

small-IsPolicy : IsPolicy small
small-IsPolicy = record {
  batches = 3;
  epoch_is_batches = refl;
  batches_pos = omega arith;
  batch_pos = omega arith;
}

-- A block that pays this validator 1000 luna and another one 7; the pool takes five per cent.
abbrev inherents : List Inherent
inherents =
    record { is_reward = true; validator_address = 1; value = 1000 }
    ∷ record { is_reward = true; validator_address = 2; value = 7 }
    ∷ []

abbrev env : Env
env = record { policy = small; address = 1; fee_basis_points = 500; inherents = some inherents }

abbrev alice : Staker
alice = record { epoch_number = 1; address = 11; stake = 100 }

abbrev bob : Staker
bob = record { epoch_number = 1; address = 12; stake = 200 }

abbrev tables : Tables
tables = record {
  cursor = none;
  epochs =
      record { number = 1; num_stakers = 2; balance = 300; status = EpochStatus.in_progress } ∷ [];
  stakers = alice ∷ bob ∷ [];
  rewards = [];
  payslips = [];
  transactions = [];
  audit_logs = [];
  preferences = [];
  actions = [];
  api_events = [];
}

abbrev world : World
world = record {
  tables = tables;
  io = [];
  fee_floor_alerted = [];
  balance_hold_alerted = [];
  alerts = [];
  broadcast = [];
  actions_sent = [];
}

-- At height 18 the second batch ends, and the first one is booked.
handle_checkpoint_runs :
    sum_of (λ p. p.amount) (handle_checkpoint env 18 world).1.tables.payslips ≡ 949
unfolding handle_checkpoint reward_exists collect get_stakers_for_epoch insert_reward pay_stakers
    insert_payslip epoch_at batch_at div_ceil reward_of total_stake share_of split_reward
handle_checkpoint_runs = refl

split_reward-conserves_example :
    let (rest, fee) = split_reward 1000 500 in
    (rest + fee ≡ 1000) × (fee * 10000 ≤ 1000 * 500) × (1000 * 500 < fee * 10000 + 10000)
split_reward-conserves_example =
    split_reward-conserves 1000 500 (omega arith) (omega arith) (omega arith)

shares_bounds_example :
    (shares 950 (stakes (alice ∷ bob ∷ [])) (alice ∷ bob ∷ []) ≤ 950)
    × (950 < shares 950 (stakes (alice ∷ bob ∷ [])) (alice ∷ bob ∷ []) + 2)
shares_bounds_example = shares_bounds 950 (alice ∷ bob ∷ []) (omega arith) (omega arith)

-- The hypotheses of the handler's theorems at this input.
is_new : reward_exists_in (batch_at small 18 - 1) tables ≡ false
unfolding batch_at div_ceil
is_new = refl

is_known : epoch_exists_in (reward_epoch env 18) tables ≡ true
unfolding epoch_at div_ceil
is_known = refl

abbrev the_row : Reward
the_row = row env 18 tables inherents

handle_checkpoint-pays_example :
    let ss = stakers_in env 18 tables in
    let reward = reward_of env.address 0 inherents in
    let slips = slips_due (batch_at small 18 - 1) reward the_row.amount ss in
    (handle_checkpoint env 18 (calm world tables)
      ≡ (ok tt, calm world (record tables { rewards = the_row ∷ []; payslips = slips })))
    × ((reward ≡ 0)
        ⊎ (stakes ss ≡ 0)
        ⊎ Overflows the_row.amount ss
        ⊎ AddsUp the_row.amount ss slips)
unfolding batch_at div_ceil
handle_checkpoint-pays_example =
    handle_checkpoint-pays env 18 world tables inherents refl is_new is_known (omega arith)

handle_checkpoint-once_example :
    let t = (handle_checkpoint env 18 world).1.tables in
    (reward_exists_in (batch_at small 18 - 1) t ≡ true)
    × ((handle_checkpoint env 18 (record world { tables = t; io = true ∷ [] })).1.tables ≡ t)
unfolding handle_checkpoint reward_exists collect get_stakers_for_epoch insert_reward pay_stakers
    insert_payslip epoch_at batch_at div_ceil reward_of total_stake share_of split_reward
handle_checkpoint-once_example =
    handle_checkpoint-once env env 18 world (true ∷ []) refl (omega arith) refl

failed_payslip_never_retried_example :
    let (r, w') = handle_checkpoint env 18 (failing world tables) in
    let again = handle_checkpoint env 18 (record w' { io = [] }) in
    (r ≡ err Error.sql)
    × (w'.tables ≡ with_reward env 18 tables inherents (alice ∷ bob ∷ []))
    × (w'.tables.payslips ≡ [])
    × (again.1.tables.payslips ≡ [])
unfolding epoch_at batch_at div_ceil reward_of total_stake share_of split_reward
failed_payslip_never_retried_example =
    failed_payslip_never_retried env 18 world tables inherents alice (bob ∷ []) refl (omega arith)
      is_new is_known refl (omega arith) (omega arith) (omega arith) env [] refl

handle_checkpoint-of_batch_example :
    (r : Reward) × ((handle_checkpoint env 18 (calm world tables)).1.tables.rewards ≡ r ∷ [])
    × (r.batch_number ≡ batch_at small 13)
    × (r.epoch_number ≡ epoch_at small 13)
unfolding classify batch_at epoch_at div_ceil
handle_checkpoint-of_batch_example =
    handle_checkpoint-of_batch env 18 13 world tables inherents small-IsPolicy (omega arith)
      (λ e. cc) (omega arith) (omega arith) (omega arith) (omega arith) refl refl refl
