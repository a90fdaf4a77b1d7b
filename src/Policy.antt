-- ===== src/Policy.antt =====
-- The chain's policy, the kinds of heights and the epoch clock (internal/pool/pool.go). Heights
-- are uint32, so `+ - *` wrap. Go panics on a zero divisor: the theorems assume `IsPolicy`, which
-- excludes it.
pub mod Ceil
pub mod Epochs
pub mod Clock
mod Tests
use go_pool.Prelude.{
  ℕ, zero, suc, ◌+◌, ◌-◌, ◌*◌, ◌/◌, ◌%◌, ◌≤◌, ◌<◌, ◌≡◌, ◌==◌, if◌then◌else◌, ltb, leb, Option, none,
  some, add32, sub32, mul32, mul64,
}

-- The fields of `rpc.Policy` that the pool reads.
pub record Policy : Type 0 where
  pub genesis_block_number : ℕ
  pub blocks_per_epoch : ℕ
  pub blocks_per_batch : ℕ
  pub block_separation_time : ℕ

pub data BlockKind : Type 0 where
  block_micro block_checkpoint block_election : BlockKind

-- `Manager.classify`.
unfoldable pub classify : Policy → ℕ → BlockKind
classify p height =
    let offset = sub32 height p.genesis_block_number in
    if offset % p.blocks_per_epoch == 0
    then block_election
    else if offset % p.blocks_per_batch == 0
    then block_checkpoint
    else block_micro

unfoldable pub div_ceil : ℕ → ℕ → ℕ
div_ceil n d = sub32 (add32 n d) 1 / d

unfoldable pub epoch_at : Policy → ℕ → ℕ
epoch_at p height =
    if leb height p.genesis_block_number
    then 0
    else div_ceil (sub32 height p.genesis_block_number) p.blocks_per_epoch

unfoldable pub batch_at : Policy → ℕ → ℕ
batch_at p height =
    if leb height p.genesis_block_number
    then 0
    else div_ceil (sub32 height p.genesis_block_number) p.blocks_per_batch

unfoldable pub epoch_end_height : Policy → ℕ → ℕ
epoch_end_height p epoch =
    if epoch == 0
    then p.genesis_block_number
    else add32 p.genesis_block_number (mul32 epoch p.blocks_per_epoch)

pub record EpochClock : Type 0 where
  pub epoch : ℕ
  pub head : ℕ
  pub blocks_into_epoch : ℕ
  pub blocks_per_epoch : ℕ
  pub block_separation_ms : ℕ
  pub remaining_blocks : ℕ
  pub remaining_ms : ℕ

-- The clock that says nothing but the head: the policy is nil or has no epoch length.
abbrev pub bare_clock : ℕ → EpochClock
bare_clock height = record {
  epoch = 0;
  head = height;
  blocks_into_epoch = 0;
  blocks_per_epoch = 0;
  block_separation_ms = 0;
  remaining_blocks = 0;
  remaining_ms = 0;
}

remaining_until : ℕ → ℕ → ℕ
remaining_until end height = if ltb height end then sub32 end height else 0

clock_of : Policy → ℕ → EpochClock
unfolding remaining_until
clock_of p height =
    let epoch = epoch_at p height in
    let remaining = remaining_until (epoch_end_height p epoch) height in
    record {
      epoch = epoch;
      head = height;
      blocks_into_epoch = if ltb 0 epoch then sub32 p.blocks_per_epoch remaining else 0;
      blocks_per_epoch = p.blocks_per_epoch;
      block_separation_ms = p.block_separation_time;
      remaining_blocks = remaining;
      remaining_ms = mul64 remaining p.block_separation_time;
    }

-- `EpochClockAt`; a nil policy is `none`.
unfoldable pub epoch_clock_at : Option Policy → ℕ → EpochClock
unfolding clock_of
epoch_clock_at none height = bare_clock height
epoch_clock_at (some p) height =
    if p.blocks_per_epoch == 0 then bare_clock height else clock_of p height

-- What the chain's constants satisfy: an epoch is a whole number of batches, none of them empty.
pub record IsPolicy (p : Policy) : Type 0 where
  pub batches : ℕ
  pub epoch_is_batches : p.blocks_per_epoch ≡ batches * p.blocks_per_batch
  pub batches_pos : 0 < batches
  pub batch_pos : 0 < p.blocks_per_batch

-- Heights at which the uint32 arithmetic of an epoch's end does not wrap.
pub record InRange (p : Policy) (height : ℕ) : Type 0 where
  pub after_genesis : p.genesis_block_number ≤ height
  pub no_wrap : height + p.blocks_per_epoch + p.blocks_per_batch < 4294967296
