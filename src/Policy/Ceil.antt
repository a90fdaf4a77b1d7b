-- ===== src/Policy/Ceil.antt =====
-- Ceiling division on uint32 (`divCeil` in internal/pool/pool.go), against its two bounds.
use native.Mathlib.Nat.{div-mul-le_self, lt-div-mul-add, le-div_iff_mul-le, div-lt_iff_lt-mul}
use go_pool.Prelude.{ℕ, suc, ◌+◌, ◌-◌, ◌*◌, ◌/◌, ◌≤◌, ◌<◌, ◌≡◌, ap, arith}
use go_pool.Policy.{div_ceil}

pub div_ceil-eq : (n d : ℕ) → 0 < d → n + d < 4294967296 → div_ceil n d ≡ (n + d - 1) / d
unfolding div_ceil
div_ceil-eq n d h k = ap (λ (m : ℕ). m / d) (omega arith)

pub div_ceil_bracket :
    (n d : ℕ) → 0 < d → n + d < 4294967296 → (n ≤ div_ceil n d * d) × (div_ceil n d * d < n + d)
div_ceil_bracket n d h k =
    rw (div_ceil-eq n d h k) (
      omega (arith, lt-div-mul-add {a = n + d - 1} h),
      omega (arith, div-mul-le_self (n + d - 1) d),
    )

-- The bracket determines the quotient.
pub ceil_unique :
    (n d q : ℕ) → 0 < d → n + d < 4294967296 → n ≤ q * d → q * d < n + d → div_ceil n d ≡ q
ceil_unique n d q h k a b =
    let low : q ≤ (n + d - 1) / d = (le-div_iff_mul-le h).1 (omega arith) in
    let high : (n + d - 1) / d < suc q = (div-lt_iff_lt-mul h).1 (omega arith) in
    rw (div_ceil-eq n d h k) (omega arith)
