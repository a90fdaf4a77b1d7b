-- ===== src/Policy/Clock.antt =====
-- The epoch clock (`EpochClockAt` in internal/pool/pool.go) points at the next election block.
use go_pool.Prelude.{ℕ, ◌+◌, ◌*◌, ◌<◌, ◌≡◌, some, arith}
use go_pool.Policy.{Policy, block_election, classify, epoch_at, epoch_clock_at, IsPolicy, InRange}
use go_pool.Policy.Epochs.{
  epoch-pos, epoch_at-IsIn, epoch_at_iff, epoch_end_height-eq, classify-election_iff,
}

module _ (p : Policy) (h : ℕ) (i : IsPolicy p) (after : p.genesis_block_number < h)
    (r : InRange p (h + p.blocks_per_epoch)) where
  here-InRange : InRange p h
  here-InRange = omega arith

  clock_counts :
      let c = epoch_clock_at (some p) h in
      (h + c.remaining_blocks ≡ p.genesis_block_number + epoch_at p h * p.blocks_per_epoch)
      × (c.blocks_into_epoch + c.remaining_blocks ≡ p.blocks_per_epoch)
      × (0 < c.blocks_into_epoch)
  unfolding epoch_clock_at
  clock_counts =
      let e = epoch_end_height-eq p h i here-InRange in
      let b = epoch_at-IsIn p h i here-InRange in let pos = epoch-pos i in ground arith

  -- The block that the remaining count leads to.
  abbrev there : ℕ
  there = h + (epoch_clock_at (some p) h).remaining_blocks

  there-InRange : InRange p there
  there-InRange = let c = clock_counts in omega arith

  there-epoch : epoch_at p there ≡ epoch_at p h
  there-epoch =
      (epoch_at_iff p there (epoch_at p h) i there-InRange).1
        (let c = clock_counts in let pos = epoch-pos i in (omega arith, omega arith))

  -- Behind genesis, for a well-formed policy and away from the uint32 limit: the blocks into the
  -- epoch and the remaining blocks make up a whole epoch, at least one block of it has passed, and
  -- the remaining blocks lead to an election block of the same epoch.
  pub clock-leads_to_election :
      let c = epoch_clock_at (some p) h in
      (c.blocks_into_epoch + c.remaining_blocks ≡ p.blocks_per_epoch)
      × (0 < c.blocks_into_epoch)
      × (classify p (h + c.remaining_blocks) ≡ block_election)
      × (epoch_at p (h + c.remaining_blocks) ≡ epoch_at p h)
  clock-leads_to_election =
      let end = epoch_end_height-eq p there i there-InRange in
      (
        clock_counts.1,
        clock_counts.2,
        (classify-election_iff p there i there-InRange).1 (rw (end, there-epoch) clock_counts.0),
        there-epoch,
      )
