-- ===== src/Checkpoint/Slips.antt =====
-- The payslips that are due for a batch (the end of `handleCheckpoint` in internal/pool/checkpoint.go),
-- and what they add up to.
use go_pool.Prelude.{
  ℕ, ◌+◌, ◌≤◌, ◌<◌, ◌≡◌, ◌⊎◌, ◌%◌, ltb, ◌==◌, refl, inl, inr, arith, List, [], ◌∷◌, none, true,
  false, ◌||◌, if◌then◌else◌, length, sum_of, Bool-cases,
}
use go_pool.Store.{Staker, Payslip, PayslipStatus}
use go_pool.Checkpoint.{share_of}
use go_pool.Checkpoint.Shares.{
  stakes, shares, Fits, Overflows, overflow-cases, some_staker, shares_bounds,
}

abbrev pub slip : ℕ → ℕ → ℕ → Payslip
slip batch a amount = record {
  batch_number = batch;
  address = a;
  amount = amount;
  status = PayslipStatus.pending;
  tx_hash = none;
}

-- The payslips that the stakers of a batch are to get.
abbrev pub slips_of : ℕ → ℕ → ℕ → List Staker → List Payslip
slips_of batch after_fee total [] = []
slips_of batch after_fee total (s ∷ ss) =
    let rest = slips_of batch after_fee total ss in
    let share = share_of after_fee s.stake total in
    if share == 0 then rest else slip batch s.address share ∷ rest

slips_of-sum :
    (b a t : ℕ) (ss : List Staker) → sum_of (λ p. p.amount) (slips_of b a t ss) ≡ shares a t ss
slips_of-sum b a t [] = refl
slips_of-sum b a t (s ∷ ss) = ground (arith, slips_of-sum b a t ss)

-- The payslips of a batch: none without a reward or without a stake.
abbrev pub slips_due : ℕ → ℕ → ℕ → List Staker → List Payslip
slips_due batch reward after_fee ss =
    let total = stakes ss % 18446744073709551616 in
    if reward == 0 || total == 0 then [] else slips_of batch after_fee total ss

pub nothing_paid :
    (reward total n : ℕ)
    → (reward == 0 || total == 0) ≡ true
    → (reward == 0 || n == 0 || total == 0) ≡ true
nothing_paid reward total n h = ground arith

pub something_paid :
    (reward : ℕ) (ss : List Staker)
    → (reward == 0 || stakes ss % 18446744073709551616 == 0) ≡ false
    → (reward == 0 || length ss == 0 || stakes ss % 18446744073709551616 == 0) ≡ false
something_paid reward ss h = let n = some_staker ss (ground arith) in ground arith

-- The payslips share the amount among the stakers, up to the rounding of each share.
abbrev pub AddsUp : ℕ → List Staker → List Payslip → Type 0
AddsUp amount ss slips =
    (sum_of (λ p. p.amount) slips ≤ amount) × (amount < sum_of (λ p. p.amount) slips + length ss)

slips_due-AddsUp :
    (b reward a : ℕ) (ss : List Staker)
    → 0 < reward
    → 0 < stakes ss
    → stakes ss < 18446744073709551616
    → Fits a ss
    → AddsUp a ss (slips_due b reward a ss)
slips_due-AddsUp b reward a ss reward_pos stake_pos small fits =
    let same : stakes ss % 18446744073709551616 ≡ stakes ss = omega arith in
    let pays : (reward == 0 || stakes ss == 0) ≡ false = ground arith in
    let bounds = shares_bounds a ss stake_pos fits in
    rw same (rw pays (rw slips_of-sum bounds.0, rw slips_of-sum bounds.1))

pub AddsUp-cases :
    (b reward a : ℕ) (ss : List Staker)
    → (reward ≡ 0) ⊎ (stakes ss ≡ 0) ⊎ Overflows a ss ⊎ AddsUp a ss (slips_due b reward a ss)
AddsUp-cases b reward a ss = elim (Bool-cases (ltb 0 reward)) [
  | inr no_reward ↦ inl (ground arith)
  | inl some_reward ↦ elim (Bool-cases (ltb 0 (stakes ss))) [
    | inr no_stake ↦ inr (inl (ground arith))
    | inl some_stake ↦ elim (overflow-cases a ss) [
      | inl over ↦ inr (inr (inl over))
      | inr (small, fits) ↦
          inr (inr (inr (slips_due-AddsUp b reward a ss (ground arith) (ground arith) small fits)))
    ]
  ]
]
