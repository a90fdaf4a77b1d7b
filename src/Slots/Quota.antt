-- ===== src/Slots/Quota.antt =====
-- Nobody gets less than the whole part of the quota (slotShare, internal/pool/slots.go).
use native.Mathlib.Nat.{div-mul-le_self, mul-le-mul_right, le_of_mul-le-mul_right}
use go_pool.Prelude.{ℕ, ◌*◌, ◌/◌, ◌≤◌, ◌<◌, ◌≡◌, ◌∙◌, refl, arith, List, [], ◌∷◌, map, mul64}
use go_pool.Slots.{Entry, divide}
use go_pool.Slots.Sums.{stakes}

-- Entry by entry: the address is the same, and there are at least as many slots.
abbrev pub Grown : List Entry → List Entry → Type 0
Grown [] [] = Unit
Grown [] (f ∷ fs) = ⊥
Grown (e ∷ es) [] = ⊥
Grown (e ∷ es) (f ∷ fs) = (f.addr ≡ e.addr) × (e.assigned ≤ f.assigned) × Grown es fs

pub Grown-refl : (es : List Entry) → Grown es es
Grown-refl [] = tt
Grown-refl (e ∷ es) = (refl, omega arith, Grown-refl es)

pub Grown-trans : (es fs gs : List Entry) → Grown es fs → Grown fs gs → Grown es gs
Grown-trans [] [] gs h k = k
Grown-trans [] (f ∷ fs) gs h k = elim h [ ]
Grown-trans (e ∷ es) [] gs h k = elim h [ ]
Grown-trans (e ∷ es) (f ∷ fs) [] h k = elim k [ ]
Grown-trans (e ∷ es) (f ∷ fs) (g ∷ gs) (a, le, h) (b, le', k) =
    (b ∙ a, omega arith, Grown-trans es fs gs h k)

-- Entry by entry: the address is the same, and there are at least as many slots as the whole part of
-- the stake's share of all of them.
abbrev pub HasQuota : ℕ → ℕ → List Entry → List Entry → Type 0
HasQuota slots total [] [] = Unit
HasQuota slots total [] (f ∷ fs) = ⊥
HasQuota slots total (e ∷ es) [] = ⊥
HasQuota slots total (e ∷ es) (f ∷ fs) =
    (f.addr ≡ e.addr) × (e.stake * slots / total ≤ f.assigned) × HasQuota slots total es fs

divide-quota :
    (slots total : ℕ) (e : Entry)
    → 0 < total
    → slots < 4294967296
    → e.stake ≤ total
    → total * slots < 18446744073709551616
    → (divide slots total e).assigned ≡ e.stake * slots / total
unfolding divide
divide-quota slots total e pos small le fits =
    let p = e.stake * slots in
    let p_le : p ≤ total * slots = mul-le-mul_right slots le in
    let same : mul64 e.stake slots ≡ p = omega arith in
    let q_le : p / total ≤ slots =
      le_of_mul-le-mul_right {n = slots} {k = total} (omega (arith, div-mul-le_self p total)) pos in
    rw same (omega arith)

pub divided-HasQuota :
    (slots total : ℕ) (es fs : List Entry)
    → 0 < total
    → slots < 4294967296
    → stakes es ≤ total
    → total * slots < 18446744073709551616
    → Grown (map (divide slots total) es) fs
    → HasQuota slots total es fs
unfolding divide
divided-HasQuota slots total [] [] pos small le fits h = tt
divided-HasQuota slots total [] (f ∷ fs) pos small le fits h = elim h [ ]
divided-HasQuota slots total (e ∷ es) [] pos small le fits h = elim h [ ]
divided-HasQuota slots total (e ∷ es) (f ∷ fs) pos small le fits (a, more, h) =
    let quota = divide-quota slots total e pos small (omega arith) fits in
    (a, rw quota at more, divided-HasQuota slots total es fs pos small (omega arith) fits h)
