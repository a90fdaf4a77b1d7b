-- ===== src/Checkpoint/Attribution.antt =====
-- Under which batch and epoch `handleCheckpoint` (internal/pool/checkpoint.go) books a reward.
use mathlib.Core.Path.{subst}
use native.Mathlib.Nat.{lt_of_mul-lt-mul_right, mul-le-mul_right}
use go_pool.Prelude.{
  ℕ, zero, suc, ◌+◌, ◌-◌, ◌*◌, ◌≤◌, ◌<◌, ◌≡◌, ◌≢◌, sym, ap, arith, List, [], ◌∷◌, ◌++◌, some, true,
  false, sub32,
}
use go_pool.Policy.{Policy, block_micro, classify, epoch_at, batch_at, IsPolicy, InRange}
use go_pool.Policy.Epochs.{
  IsIn, IsIn-unique, epoch-pos, epoch_at-IsIn, batch_at-IsIn, classify-micro_iff, batch_at-pred,
  batch_at_iff, mul-pred,
}
use go_pool.Store.{Reward, Tables}
use go_pool.Store.Monad.{World}
use go_pool.Store.Statements.{calm}
use go_pool.Store.Payslips.{reward_exists_in}
use go_pool.Store.Epochs.{epoch_exists_in}
use go_pool.Checkpoint.{Inherent, Env, reward_epoch, handle_checkpoint}
use go_pool.Checkpoint.Booking.{row, handle_checkpoint-pays}

-- Batches do not straddle epochs: an end of an epoch that lies below the end of a batch lies at or
-- below its start.
no_straddle : (n d e b : ℕ) → e * (n * d) < suc b * d → e * (n * d) ≤ b * d
no_straddle n d e b h =
    let lt : (e * n) * d < suc b * d = omega arith in
    let lt' : e * n < suc b = lt_of_mul-lt-mul_right d lt in
    let le : e * n * d ≤ b * d = mul-le-mul_right d (omega arith) in omega arith

-- A height of a batch lies in the epoch that the batch's last height lies in.
batch_within_epoch :
    (g n d e b x : ℕ)
    → 0 < n * d
    → g ≤ x
    → IsIn g d b x
    → IsIn g (n * d) e (g + b * d)
    → IsIn g (n * d) e x
batch_within_epoch g n d zero b x pos after (p, q) (r, s) = (omega arith, omega arith)
batch_within_epoch g n d (suc e) zero x pos after (p, q) (r, s) = absurd (omega arith)
batch_within_epoch g n d (suc e) (suc b) x pos after (p, q) (r, s) =
    let apart = no_straddle n d e b (omega arith) in (omega arith, omega arith)

-- Every height of the batch before the one that ends lies in the epoch of `reward_epoch`.
reward_epoch-of_batch :
    (env : Env) (h x : ℕ)
    → IsPolicy env.policy
    → InRange env.policy h
    → InRange env.policy x
    → classify env.policy h ≢ block_micro
    → 0 < batch_at env.policy h
    → batch_at env.policy x ≡ batch_at env.policy h - 1
    → epoch_at env.policy x ≡ reward_epoch env h
reward_epoch-of_batch env h x i r rx kind pos same =
    let p = env.policy in
    let y = sub32 h p.blocks_per_batch in
    let end = (classify-micro_iff p h i r).0 kind in
    let (ry, by) = batch_at-pred p h i r end pos in
    let at_y = epoch_at-IsIn p y i ry in
    let in_x = batch_at-IsIn p x i rx in
    let b = batch_at p x in
    let e = epoch_at p y in
    let n = i.batches in
    let d = p.blocks_per_batch in
    let g = p.genesis_block_number in
    let less = mul-pred (batch_at p h) d pos in
    let y-eq : y ≡ g + b * d = rw same (omega arith) in
    let at_end : IsIn g (n * d) e (g + b * d) = rw (← i.epoch_is_batches) (rw (← y-eq) at_y) in
    let pos_nd : 0 < n * d = rw (← i.epoch_is_batches) (epoch-pos i) in
    let in_e = batch_within_epoch g n d e b x pos_nd rx.after_genesis in_x at_end in
    IsIn-unique g p.blocks_per_epoch (epoch_at p x) e x (epoch-pos i) (epoch_at-IsIn p x i rx)
      (subst (λ m. IsIn g m e x) (sym i.epoch_is_batches) in_e)

-- The heights of the batch before the one that ends.
batch_before :
    (p : Policy) (h x : ℕ)
    → IsPolicy p
    → InRange p h
    → h ≡ p.genesis_block_number + batch_at p h * p.blocks_per_batch
    → 0 < batch_at p h
    → p.genesis_block_number ≤ x
    → x + p.blocks_per_batch ≤ h
    → h < x + p.blocks_per_batch + p.blocks_per_batch
    → InRange p x × (batch_at p x ≡ batch_at p h - 1)
batch_before p h x i r end pos after below above =
    let less = mul-pred (batch_at p h) p.blocks_per_batch pos in
    let rx : InRange p x = record { after_genesis = after; no_wrap = omega (arith, r.no_wrap) } in
    (rx, (batch_at_iff p x (batch_at p h - 1) i rx).1 (omega arith, omega arith))

-- At the end of a batch k > 0, for a well-formed policy and away from the uint32 limit, let x be a
-- height of the batch before: from genesis on, at least one batch and less than two batches' lengths
-- below the handled height. Let that batch have no reward yet and its epoch be known, and let the
-- RPC client answer and the database take every statement. The handler then books one reward, and
-- under the batch and the epoch in which x lies.
pub handle_checkpoint-of_batch :
    (env : Env) (h x : ℕ) (w : World) (t : Tables) (ins : List Inherent)
    → IsPolicy env.policy
    → InRange env.policy h
    → classify env.policy h ≢ block_micro
    → 0 < batch_at env.policy h
    → env.policy.genesis_block_number ≤ x
    → x + env.policy.blocks_per_batch ≤ h
    → h < x + env.policy.blocks_per_batch + env.policy.blocks_per_batch
    → env.inherents ≡ some ins
    → reward_exists_in (batch_at env.policy x) t ≡ false
    → epoch_exists_in (epoch_at env.policy x) t ≡ true
    → (r : Reward) × ((handle_checkpoint env h (calm w t)).1.tables.rewards ≡ t.rewards ++ r ∷ [])
      × (r.batch_number ≡ batch_at env.policy x)
      × (r.epoch_number ≡ epoch_at env.policy x)
handle_checkpoint-of_batch env h x w t ins i r kind pos after below above answered new known =
    let end = (classify-micro_iff env.policy h i r).0 kind in
    let (rx, before) = batch_before env.policy h x i r end pos after below above in
    let epoch = reward_epoch-of_batch env h x i r rx kind pos before in
    let (run, _) =
      handle_checkpoint-pays env h w t ins answered (rw before at new) (rw epoch at known) pos in
    (row env h t ins, ap (λ y. y.1.tables.rewards) run, sym before, sym epoch)
