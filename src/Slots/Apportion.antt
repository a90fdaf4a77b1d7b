-- ===== src/Slots/Apportion.antt =====
-- All slots are handed out, and no index is out of range (slotShare, internal/pool/slots.go).
use native.Mathlib.Nat.{le_of_mul-le-mul_left, mul-add, sub-add_cancel, zero-add}
use go_pool.Prelude.{
  ℕ, zero, suc, ◌+◌, ◌-◌, ◌*◌, ◌≤◌, ◌<◌, ◌≡◌, ◌∙◌, ap, sym, refl, arith, List, [], ◌∷◌, map, Option,
  none, some, Bool, true, false, ◌==◌, if◌then◌else◌, length, any_of, All, sub32,
}
use go_pool.Slots.{
  ActiveValidator, normalize_addr, same_text, Entry, entries_of, total_of_entries, divide,
  used_slots, sort_entries, assign_leftover, apportion, slots_at, slot_share,
}
use go_pool.Slots.Sums.{
  stakes, slots_of, left, Below, total_of_entries-eq, used_slots-eq, divided-sum,
}
use go_pool.Slots.Quota.{HasQuota, divided-HasQuota}
use go_pool.Slots.Leftover.{sort_entries-All, sort_entries-length, assign_leftover-ok}

divided-Below :
    (slots total n : ℕ) (es : List Entry) → Below n es → Below n (map (divide slots total) es)
unfolding divide
divided-Below slots total n [] below = tt
divided-Below slots total n (e ∷ es) (b, bs) = (b, divided-Below slots total n es bs)

map-length : (f : Entry → Entry) (es : List Entry) → length (map f es) ≡ length es
map-length f [] = refl
map-length f (e ∷ es) = omega (arith, map-length f es)

indices-length : (es : List Entry) → length (map (λ e. e.index) es) ≡ length es
indices-length [] = refl
indices-length (e ∷ es) = omega (arith, indices-length es)

indices-Below : (n : ℕ) (es : List Entry) → Below n es → All (λ i. i < n) (map (λ e. e.index) es)
indices-Below n [] below = tt
indices-Below n (e ∷ es) (b, bs) = (b, indices-Below n es bs)

-- What is left to hand out fits the number of entries.
leftover-le :
    (slots total used rest n : ℕ)
    → 0 < total
    → total * slots ≡ total * used + rest
    → rest + n ≤ n * total
    → (used ≤ slots) × (slots - used ≤ n)
leftover-le slots total used rest n pos eq le =
    let used_le : used ≤ slots = le_of_mul-le-mul_left {n = slots} {k = total} (omega arith) pos in
    let e : total * (slots - used) + total * used ≡ total * slots =
      sym (mul-add total (slots - used) used) ∙ ap (λ x. total * x) (sub-add_cancel used_le) in
    (used_le, le_of_mul-le-mul_left {n = n} {k = total} (omega arith) pos)

-- The entries' slots sum up to all of them.
pub apportion-all :
    (slots : ℕ) (es : List Entry)
    → slots < 4294967296
    → 0 < stakes es
    → stakes es * slots < 18446744073709551616
    → Below (length es) es
    → (fs : List Entry) × (apportion slots (stakes es) es ≡ some fs)
      × (slots_of fs ≡ slots)
      × HasQuota slots (stakes es) es fs
unfolding apportion
apportion-all slots es small pos fits below =
    let t = stakes es in
    let fs = map (divide slots t) es in
    let n = map-length (divide slots t) es in
    let (eq, lt) = divided-sum slots t es pos small (omega arith) fits in
    let (le, room) = leftover-le slots t (slots_of fs) (left fs) (length es) pos eq lt in
    let used : used_slots 0 fs ≡ slots_of fs =
      used_slots-eq 0 fs (omega arith) ∙ zero-add (slots_of fs) in
    let rest : sub32 slots (slots_of fs) ≡ slots - slots_of fs = omega arith in
    let sorted = sort_entries fs in
    let order = map (λ e. e.index) sorted in
    let enough = indices-length sorted ∙ sort_entries-length fs ∙ n in
    let inside = indices-Below (length es) sorted (
      sort_entries-All (λ e. e.index < length es) fs
        (divided-Below slots t (length es) es below)) in
    let (gs, found, sum, _, grown) =
      assign_leftover-ok (slots - slots_of fs) order fs (omega (arith, enough, room)) (rw n inside)
        (omega (arith, le)) in
    let count = ap (λ u. sub32 slots u) used ∙ rest in
    (
      gs,
      ap (λ m. assign_leftover m order fs) count ∙ found,
      omega (arith, sum, le),
      divided-HasQuota slots t es gs pos small (omega arith) fits grown,
    )

entries_of-Below :
    (i n : ℕ) (vs : List ActiveValidator)
    → i + length (entries_of i vs) ≤ n
    → Below n (entries_of i vs)
unfolding entries_of
entries_of-Below i n [] le = tt
entries_of-Below i n (v ∷ vs) le =
    go (same_text (normalize_addr v.address) []) le (entries_of-Below i n vs)
      (entries_of-Below (suc i) n vs)
  where
    entry : Entry
    entry = record {
      index = i;
      addr = normalize_addr v.address;
      stake = v.balance;
      assigned = 0;
      remainder = 0;
    }

    go :
        (b : Bool)
        → i + length (if b then entries_of i vs else entry ∷ entries_of (suc i) vs) ≤ n
        → (i + length (entries_of i vs) ≤ n → Below n (entries_of i vs))
        → (suc i + length (entries_of (suc i) vs) ≤ n → Below n (entries_of (suc i) vs))
        → Below n (if b then entries_of i vs else entry ∷ entries_of (suc i) vs)
    go true le skipped rest = skipped le
    go false le skipped rest = (omega arith, rest (omega arith))

left_pos : (a b : ℕ) → 0 < a * b → 0 < a
left_pos zero b h = omega arith
left_pos (suc a) b h = omega arith

factor_below : (a b n : ℕ) → 0 < b → a * b < n → a < n
factor_below a zero n pos h = absurd (omega arith)
factor_below a (suc b) n pos h = omega arith

-- The result of the apportionment, at the address.
abbrev read_at : List ℕ → Option (List Entry) → Option (Bool × ℕ)
read_at want none = none
read_at want (some fs) = some (slots_at want fs)

slot_share-computes :
    (addr : List ℕ) (vs : List ActiveValidator) (slots : ℕ)
    → let es = entries_of 0 vs in
      same_text (normalize_addr addr) [] ≡ false
      → any_of (λ e. same_text e.addr (normalize_addr addr)) es ≡ true
      → 0 < stakes es
      → 0 < slots
      → stakes es < 18446744073709551616
      → slot_share addr vs slots ≡ read_at (normalize_addr addr) (apportion slots (stakes es) es)
unfolding slot_share entries_of
slot_share-computes addr [] slots named present some_stake some_slot fits = cc
slot_share-computes addr (v ∷ vs) slots named present some_stake some_slot fits =
    let es = entries_of 0 (v ∷ vs) in
    let total : total_of_entries 0 es ≡ stakes es =
      total_of_entries-eq 0 es (omega arith) ∙ zero-add (stakes es) in
    let no_slot : (slots == 0) ≡ false = ground arith in
    let no_stake : (stakes es == 0) ≡ false = ground arith in
    let no_one : (length (v ∷ vs) == 0) ≡ false = ground arith in
    rw named (rw no_slot (rw no_one (rw present (rw total (rw no_stake refl)))))

-- Let the address be one of the active set's, and let the product of the set's total balance and
-- the number of slots be positive and fit a uint64, and the number of slots a uint32. Then the
-- apportionment of the set ends without an index out of range. Its list has the entries of the set in
-- their order, each with at least the whole part of its quota, and all slots are handed out: they sum
-- up to exactly the number of slots. What is returned is read at the address in this list.
pub slot_share-apportions :
    (addr : List ℕ) (vs : List ActiveValidator) (slots : ℕ)
    → same_text (normalize_addr addr) [] ≡ false
    → any_of (λ e. same_text e.addr (normalize_addr addr)) (entries_of 0 vs) ≡ true
    → 0 < stakes (entries_of 0 vs) * slots
    → stakes (entries_of 0 vs) * slots < 18446744073709551616
    → slots < 4294967296
    → let es = entries_of 0 vs in
      (fs : List Entry) × (apportion slots (stakes es) es ≡ some fs)
      × HasQuota slots (stakes es) es fs
      × (slots_of fs ≡ slots)
      × (slot_share addr vs slots ≡ some (slots_at (normalize_addr addr) fs))
slot_share-apportions addr vs slots named present pos fits small =
    let es = entries_of 0 vs in
    let some_stake : 0 < stakes es = left_pos (stakes es) slots pos in
    let some_slot : 0 < slots = left_pos slots (stakes es) (omega (arith, pos)) in
    let below = entries_of-Below 0 (length es) vs (omega arith) in
    let (fs, found, sum, quota) = apportion-all slots es small some_stake fits below in
    let fits' = factor_below (stakes es) slots 18446744073709551616 some_slot fits in
    let run = slot_share-computes addr vs slots named present some_stake some_slot fits' in
    (fs, found, quota, sum, run ∙ ap (read_at (normalize_addr addr)) found)
