-- ===== src/Slots/Sums.antt =====
-- The sums of stakes, slots and remainders (slotShare, internal/pool/slots.go).
use native.Mathlib.Nat.{
  div-add-mod, div-mul-le_self, mul-le-mul_right, mod-lt, le_of_mul-le-mul_right,
}
use go_pool.Prelude.{
  ℕ, ◌+◌, ◌*◌, ◌/◌, ◌%◌, ◌≤◌, ◌<◌, ◌≡◌, sym, arith, List, [], ◌∷◌, map, length, sum_of, All, add32,
  add64, mul64,
}
use go_pool.Slots.{Entry, total_of_entries, divide, used_slots}

abbrev pub stakes : List Entry → ℕ
stakes es = sum_of (λ e. e.stake) es

abbrev pub slots_of : List Entry → ℕ
slots_of es = sum_of (λ e. e.assigned) es

abbrev pub left : List Entry → ℕ
left es = sum_of (λ e. e.remainder) es

abbrev pub Below : ℕ → List Entry → Type 0
Below n es = All (λ e. e.index < n) es

pub divide-exact :
    (slots total : ℕ) (e : Entry)
    → 0 < total
    → slots < 4294967296
    → e.stake ≤ total
    → total * slots < 18446744073709551616
    → (e.stake * slots ≡ total * (divide slots total e).assigned + (divide slots total e).remainder)
      × ((divide slots total e).remainder < total)
unfolding divide
divide-exact slots total e pos small le fits =
    let p = e.stake * slots in
    let p_le : p ≤ total * slots = mul-le-mul_right slots le in
    let same : mul64 e.stake slots ≡ p = omega arith in
    let q_le : p / total ≤ slots =
      le_of_mul-le-mul_right {n = slots} {k = total} (omega (arith, div-mul-le_self p total)) pos in
    let q_same : p / total % 4294967296 ≡ p / total = omega arith in
    rw same (rw q_same (sym (div-add-mod p total), mod-lt p pos))

pub total_of_entries-eq :
    (acc : ℕ) (es : List Entry)
    → acc + stakes es < 18446744073709551616
    → total_of_entries acc es ≡ acc + stakes es
unfolding total_of_entries
total_of_entries-eq acc [] h = omega arith
total_of_entries-eq acc (e ∷ es) h =
    let same : add64 acc e.stake ≡ acc + e.stake = omega arith in
    rw same (omega (arith, total_of_entries-eq (acc + e.stake) es (omega arith)))

pub used_slots-eq :
    (acc : ℕ) (es : List Entry)
    → acc + slots_of es < 4294967296
    → used_slots acc es ≡ acc + slots_of es
unfolding used_slots
used_slots-eq acc [] h = omega arith
used_slots-eq acc (e ∷ es) h =
    let same : add32 acc e.assigned ≡ acc + e.assigned = omega arith in
    rw same (omega (arith, used_slots-eq (acc + e.assigned) es (omega arith)))

pub divided-sum :
    (slots total : ℕ) (es : List Entry)
    → 0 < total
    → slots < 4294967296
    → stakes es ≤ total
    → total * slots < 18446744073709551616
    → let fs = map (divide slots total) es in
      (stakes es * slots ≡ total * slots_of fs + left fs)
      × (left fs + length es ≤ length es * total)
divided-sum slots total [] pos small le fits = (omega arith, omega arith)
divided-sum slots total (e ∷ es) pos small le fits =
    let (eq, lt) = divide-exact slots total e pos small (omega arith) fits in
    let (eqs, lts) = divided-sum slots total es pos small (omega arith) fits in
    (omega (arith, eq, eqs), omega (arith, lt, lts))
