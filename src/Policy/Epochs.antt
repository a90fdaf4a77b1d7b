-- ===== src/Policy/Epochs.antt =====
-- Which epoch and batch a height belongs to (`epochAt`, `batchAt`, `classify` in
-- internal/pool/pool.go), against the intervals that epochs and batches are.
use native.Mathlib.Nat.{div-add-mod', add-mul-mod_self_left, zero-mod}
use go_pool.Prelude.{
  ℕ, zero, suc, ◌+◌, ◌-◌, ◌*◌, ◌/◌, ◌%◌, ◌≤◌, ◌<◌, ◌≡◌, ◌↔◌, ◌≢◌, ◌∙◌, arith, sub32, if◌then◌else◌,
  leb, leb→le, Bool-cases, inl, inr,
}
use go_pool.Policy.{
  Policy, block_micro, block_election, classify, epoch_at, batch_at, div_ceil, epoch_end_height,
  IsPolicy, InRange,
}
use go_pool.Policy.Ceil.{div_ceil_bracket}

pub epoch-pos : {p : Policy} → IsPolicy p → 0 < p.blocks_per_epoch
epoch-pos i = grind (arith, i.batches_pos, i.batch_pos, i.epoch_is_batches)

-- The interval of the multiples of `d` behind genesis that a height falls into.
abbrev pub IsIn : ℕ → ℕ → ℕ → ℕ → Type 0
IsIn genesis d k height = (height ≤ genesis + k * d) × (genesis + k * d < height + d)

offset-eq : (g h : ℕ) → g ≤ h → h < 4294967296 → sub32 h g ≡ h - g
offset-eq g h a b = omega arith

-- What `epochAt` and `batchAt` have in common.
abbrev interval_at : ℕ → ℕ → ℕ → ℕ
interval_at g d h = if leb h g then 0 else div_ceil (sub32 h g) d

interval_at-IsIn : (g d h : ℕ) → 0 < d → g ≤ h → h + d < 4294967296 → IsIn g d (interval_at g d h) h
interval_at-IsIn g d h pos after small = elim (Bool-cases (leb h g)) [
  | inl start ↦ rw start (omega (arith, leb→le h g start))
  | inr later ↦
      rw (later, offset-eq g h after (omega arith))
        (omega (arith, div_ceil_bracket (h - g) d pos (omega arith)))
]

pub epoch_at-IsIn :
    (p : Policy) (h : ℕ)
    → IsPolicy p
    → InRange p h
    → IsIn p.genesis_block_number p.blocks_per_epoch (epoch_at p h) h
unfolding epoch_at
epoch_at-IsIn p h i r =
    interval_at-IsIn p.genesis_block_number p.blocks_per_epoch h (epoch-pos i) r.after_genesis
      (omega arith)

pub batch_at-IsIn :
    (p : Policy) (h : ℕ)
    → IsPolicy p
    → InRange p h
    → IsIn p.genesis_block_number p.blocks_per_batch (batch_at p h) h
unfolding batch_at
batch_at-IsIn p h i r =
    interval_at-IsIn p.genesis_block_number p.blocks_per_batch h i.batch_pos r.after_genesis
      (omega arith)

-- The intervals do not overlap.
pub IsIn-unique : (g d j k h : ℕ) → 0 < d → IsIn g d j h → IsIn g d k h → j ≡ k
IsIn-unique g d j k h pos a b = grind arith

-- Every height from genesis on lies in the interval that `epochAt` names, and in no other.
pub epoch_at_iff :
    (p : Policy) (h k : ℕ)
    → IsPolicy p
    → InRange p h
    → (epoch_at p h ≡ k) ↔ IsIn p.genesis_block_number p.blocks_per_epoch k h
epoch_at_iff p h k i r = (
  λ e. rw e at (epoch_at-IsIn p h i r),
  λ b. IsIn-unique _ _ _ k h (epoch-pos i) (epoch_at-IsIn p h i r) b,
)

pub batch_at_iff :
    (p : Policy) (h k : ℕ)
    → IsPolicy p
    → InRange p h
    → (batch_at p h ≡ k) ↔ IsIn p.genesis_block_number p.blocks_per_batch k h
batch_at_iff p h k i r = (
  λ e. rw e at (batch_at-IsIn p h i r),
  λ b. IsIn-unique _ _ _ k h i.batch_pos (batch_at-IsIn p h i r) b,
)

pub epoch_end_height-eq :
    (p : Policy) (h : ℕ)
    → IsPolicy p
    → InRange p h
    → epoch_end_height p (epoch_at p h) ≡ p.genesis_block_number + epoch_at p h * p.blocks_per_epoch
unfolding epoch_end_height
epoch_end_height-eq p h i r = let b = epoch_at-IsIn p h i r in ground arith

mul-mod_self : (k d m : ℕ) → m ≡ k * d → m % d ≡ 0
mul-mod_self k d m e =
    let e' : m ≡ 0 + d * k = omega arith in rw e' (add-mul-mod_self_left 0 d k ∙ zero-mod d)

-- A height ends its interval exactly if its offset is a multiple of the interval's length.
boundary :
    (g d k h : ℕ)
    → 0 < d
    → g ≤ h
    → h < 4294967296
    → IsIn g d k h
    → (sub32 h g % d ≡ 0) ↔ (h ≡ g + k * d)
boundary g d k h pos after small at =
    let split = div-add-mod' (h - g) d in
    rw (offset-eq g h after small) (
      λ e.
          let same = IsIn-unique g d k ((h - g) / d) h pos at (omega arith, omega arith) in
          rw same (omega arith),
      λ e. mul-mod_self k d (h - g) (omega arith),
    )

-- A height is classified as an election block exactly if it is the last height of its epoch.
pub classify-election_iff :
    (p : Policy) (h : ℕ)
    → IsPolicy p
    → InRange p h
    → (classify p h ≡ block_election) ↔ (h ≡ epoch_end_height p (epoch_at p h))
unfolding classify
classify-election_iff p h i r =
    let b = boundary _ _ _ h (epoch-pos i) r.after_genesis (omega arith) (epoch_at-IsIn p h i r) in
    rw (epoch_end_height-eq p h i r) (λ e. b.0 (ground arith), λ e. let z = b.1 e in ground arith)

mod-zero_of_multiple : (m n d : ℕ) → 0 < d → m % (n * d) ≡ 0 → m % d ≡ 0
mod-zero_of_multiple m n d pos e =
    let split = div-add-mod' m (n * d) in mul-mod_self (m / (n * d) * n) d m (omega arith)

-- A height is no micro block exactly if it is the last height of its batch.
pub classify-micro_iff :
    (p : Policy) (h : ℕ)
    → IsPolicy p
    → InRange p h
    → (classify p h ≢ block_micro)
      ↔ (h ≡ p.genesis_block_number + batch_at p h * p.blocks_per_batch)
unfolding classify
classify-micro_iff p h i r =
    let o = sub32 h p.genesis_block_number in
    let b = boundary _ _ _ h i.batch_pos r.after_genesis (omega arith) (batch_at-IsIn p h i r) in
    let up : o % p.blocks_per_epoch ≡ 0 → o % p.blocks_per_batch ≡ 0 = λ e.
      mod-zero_of_multiple o i.batches p.blocks_per_batch i.batch_pos
        (rw i.epoch_is_batches at e) in
    (λ n. b.0 (ground (arith, up)), λ e. let z = b.1 e in ground arith)

pub mul-pred : (k d : ℕ) → 0 < k → (k - 1) * d + d ≡ k * d
mul-pred zero d h = elim h [ ]
mul-pred (suc k) d h = let e : suc k - 1 ≡ k = omega arith in rw e (omega arith)

-- One batch before the end of batch k lies in batch k - 1.
pub batch_at-pred :
    (p : Policy) (h : ℕ)
    → IsPolicy p
    → InRange p h
    → h ≡ p.genesis_block_number + batch_at p h * p.blocks_per_batch
    → 0 < batch_at p h
    → (InRange p (sub32 h p.blocks_per_batch))
      × (batch_at p (sub32 h p.blocks_per_batch) ≡ batch_at p h - 1)
batch_at-pred p h i r end pos =
    let step = mul-pred (batch_at p h) p.blocks_per_batch pos in
    let less : sub32 h p.blocks_per_batch ≡ h - p.blocks_per_batch = omega arith in
    let r' : InRange p (h - p.blocks_per_batch) = omega arith in
    rw less (r', (batch_at_iff p (h - p.blocks_per_batch) (batch_at p h - 1) i r').1 (omega arith))
