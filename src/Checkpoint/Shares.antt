-- ===== src/Checkpoint/Shares.antt =====
-- The shares that `handleCheckpoint` (internal/pool/checkpoint.go) computes, against exact division.
use native.Mathlib.Nat.{div-mul-le_self, lt-div-mul-add, div-lt_iff_lt-mul}
use go_pool.Prelude.{
  ℕ, ◌+◌, ◌*◌, ◌/◌, ◌%◌, ◌≤◌, ◌<◌, ◌≡◌, ◌⊎◌, ◌∙◌, inl, inr, true, false, any_of, leb, ltb,
  Bool-cases, ap, arith, List, [], ◌∷◌, length, sum_of, All, add64,
}
use go_pool.Store.{Staker}
use go_pool.Checkpoint.{share_of, total_stake}

abbrev pub stakes : List Staker → ℕ
stakes ss = sum_of (λ s. s.stake) ss

abbrev pub shares : ℕ → ℕ → List Staker → ℕ
shares after_fee total ss = sum_of (λ s. share_of after_fee s.stake total) ss

-- No product of the loop passes 2 ^ 64.
abbrev pub Fits : ℕ → List Staker → Type 0
Fits after_fee ss = All (λ s. after_fee * s.stake < 18446744073709551616) ss

-- A uint64 sum or product of the loop passes 2 ^ 64.
abbrev pub Overflows : ℕ → List Staker → Type 0
Overflows after_fee ss =
    (18446744073709551616 ≤ stakes ss)
    ⊎ (any_of (λ s. leb 18446744073709551616 (after_fee * s.stake)) ss ≡ true)

no_product-Fits :
    (a : ℕ) (ss : List Staker)
    → any_of (λ s. leb 18446744073709551616 (a * s.stake)) ss ≡ false
    → Fits a ss
no_product-Fits a [] none_large = tt
no_product-Fits a (s ∷ ss) none_large = (ground arith, no_product-Fits a ss (ground arith))

pub overflow-cases :
    (a : ℕ) (ss : List Staker) → Overflows a ss ⊎ ((stakes ss < 18446744073709551616) × Fits a ss)
overflow-cases a ss = elim (Bool-cases (ltb (stakes ss) 18446744073709551616)) [
  | inr large ↦ inl (inl (ground arith))
  | inl small ↦ elim (Bool-cases (any_of (λ s. leb 18446744073709551616 (a * s.stake)) ss)) [
    | inl product ↦ inl (inr product)
    | inr products ↦ inr (ground arith, no_product-Fits a ss products)
  ]
]

-- The sum that the handler computes, in uint64 arithmetic.
pub total_stake-mod :
    (acc : ℕ) (ss : List Staker)
    → acc < 18446744073709551616
    → total_stake acc ss ≡ (acc + stakes ss) % 18446744073709551616
unfolding total_stake
total_stake-mod acc [] small = omega arith
total_stake-mod acc (s ∷ ss) small =
    total_stake-mod (add64 acc s.stake) ss (omega arith) ∙ omega arith

share_of-exact : (a s t : ℕ) → a * s < 18446744073709551616 → share_of a s t ≡ a * s / t
unfolding share_of
share_of-exact a s t h = ap (λ (m : ℕ). m / t) (omega arith)

shares-upper : (a t : ℕ) (ss : List Staker) → 0 < t → Fits a ss → shares a t ss * t ≤ a * stakes ss
shares-upper a t [] pos h = omega arith
shares-upper a t (s ∷ ss) pos h =
    rw (share_of-exact a s.stake t h.0)
      (omega (arith, div-mul-le_self (a * s.stake) t, shares-upper a t ss pos h.1))

shares-lower :
    (a t : ℕ) (ss : List Staker)
    → 0 < t
    → Fits a ss
    → a * stakes ss + length ss ≤ shares a t ss * t + length ss * t
shares-lower a t [] pos h = omega arith
shares-lower a t (s ∷ ss) pos h =
    rw (share_of-exact a s.stake t h.0)
      (omega (arith, lt-div-mul-add {a = a * s.stake} pos, shares-lower a t ss pos h.1))

le_of_mul : (a b t : ℕ) → 0 < t → a * t ≤ b * t → a ≤ b
le_of_mul a b t pos h = grind arith

lt_of_mul : (a b t : ℕ) → a * t < b * t → a < b
lt_of_mul a b t h = grind arith

pub some_staker : (ss : List Staker) → 0 < stakes ss → 0 < length ss
some_staker [] h = h
some_staker (s ∷ ss) h = omega arith

-- The shares do not exceed the amount, and fall short of it by less than one luna for each staker.
pub shares_bounds :
    (a : ℕ) (ss : List Staker)
    → 0 < stakes ss
    → Fits a ss
    → (shares a (stakes ss) ss ≤ a) × (a < shares a (stakes ss) ss + length ss)
shares_bounds a ss pos h =
    let t = stakes ss in
    let n = length ss in
    let s = shares a t ss in
    let up = shares-upper a t ss pos h in
    let low = shares-lower a t ss pos h in
    (
      le_of_mul s a t pos (omega arith),
      lt_of_mul a (s + n) t (let one = some_staker ss pos in omega arith),
    )

-- A product of 2 ^ 64 or more wraps, and the staker gets less than the exact share.
share_of-wraps :
    (a s t : ℕ)
    → 0 < t
    → t ≤ 18446744073709551616
    → 18446744073709551616 ≤ a * s
    → share_of a s t < a * s / t
unfolding share_of
share_of-wraps a s t pos small big =
    let m = a * s in
    let low : m % 18446744073709551616 + 18446744073709551616 ≤ m = omega arith in
    (div-lt_iff_lt-mul pos).1 (omega (arith, lt-div-mul-add {a = m} pos))
