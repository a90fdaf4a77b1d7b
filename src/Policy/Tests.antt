-- ===== src/Policy/Tests.antt =====
-- Runs of the clock of heights (internal/pool/pool.go) on a small policy.
use go_pool.Prelude.{◌+◌, ◌<◌, ◌≡◌, ◌↔◌, refl, some, arith}
use go_pool.Policy.{
  Policy, block_micro, block_election, block_checkpoint, classify, epoch_at, batch_at, div_ceil,
  epoch_clock_at, IsPolicy,
}
use go_pool.Policy.Epochs.{IsIn, batch_at_iff}
use go_pool.Policy.Clock.{clock-leads_to_election}

-- Genesis at 10, three batches of four blocks to an epoch.
abbrev small : Policy
small = record {
  genesis_block_number = 10;
  blocks_per_epoch = 12;
  blocks_per_batch = 4;
  block_separation_time = 1000;
}

small-IsPolicy : IsPolicy small
small-IsPolicy = record {
  batches = 3;
  epoch_is_batches = refl;
  batches_pos = omega arith;
  batch_pos = omega arith;
}

epoch_at_runs : (epoch_at small 10 ≡ 0) × (epoch_at small 22 ≡ 1) × (epoch_at small 23 ≡ 2)
unfolding epoch_at div_ceil
epoch_at_runs = (refl, refl, refl)

classify_runs :
    (classify small 22 ≡ block_election)
    × (classify small 18 ≡ block_checkpoint)
    × (classify small 19 ≡ block_micro)
unfolding classify
classify_runs = (refl, refl, refl)

batch_at_iff_example : (batch_at small 18 ≡ 2) ↔ IsIn 10 4 2 18
batch_at_iff_example = batch_at_iff small 18 2 small-IsPolicy (omega arith)

clock-leads_to_election_example :
    let c = epoch_clock_at (some small) 15 in
    (c.blocks_into_epoch + c.remaining_blocks ≡ 12)
    × (0 < c.blocks_into_epoch)
    × (classify small (15 + c.remaining_blocks) ≡ block_election)
    × (epoch_at small (15 + c.remaining_blocks) ≡ epoch_at small 15)
clock-leads_to_election_example =
    clock-leads_to_election small 15 small-IsPolicy (omega arith) (omega arith)
