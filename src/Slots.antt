-- ===== src/Slots.antt =====
-- The slots of the validator in the active set (internal/pool/slots.go). An address is the list of
-- its bytes, which are ASCII; a balance is below 2 ^ 64 and a number of slots below 2 ^ 32.
pub mod Sums
pub mod Quota
pub mod Leftover
pub mod Apportion
mod Tests
use go_pool.Prelude.{
  ℕ, zero, suc, ◌+◌, ◌-◌, ◌*◌, ◌/◌, ◌%◌, List, [], ◌∷◌, map, Option, none, some, Bool, true, false,
  not, ◌&&◌, ◌||◌, ◌==◌, ltb, leb, if◌then◌else◌, length, any_of, keep, add32, sub32, add64, mul64,
}

-- The fields of `rpc.Validator` that are read.
pub record ActiveValidator : Type 0 where
  pub address : List ℕ
  pub balance : ℕ

abbrev to_upper : ℕ → ℕ
to_upper c = if leb 97 c && leb c 122 then c - 32 else c

-- `normalizeAddr`: no spaces, in capitals.
unfoldable pub normalize_addr : List ℕ → List ℕ
normalize_addr s = map to_upper (keep (λ c. not (c == 32)) s)

-- `==` and `<` on texts.
abbrev pub same_text : List ℕ → List ℕ → Bool
same_text [] [] = true
same_text (a ∷ s) (b ∷ t) = let rest = same_text s t in if a == b then rest else false
same_text _ _ = false

abbrev pub text_less : List ℕ → List ℕ → Bool
text_less _ [] = false
text_less [] (b ∷ t) = true
text_less (a ∷ s) (b ∷ t) = let rest = text_less s t in if a == b then rest else ltb a b

-- An element of `entries`, with its index.
pub record Entry : Type 0 where
  pub index : ℕ
  pub addr : List ℕ
  pub stake : ℕ
  pub assigned : ℕ
  pub remainder : ℕ

-- The loop that collects the entries, from this index on; an empty address is passed over.
unfoldable pub entries_of : ℕ → List ActiveValidator → List Entry
entries_of i [] = []
entries_of i (v ∷ vs) =
    let n = normalize_addr v.address in
    let skipped = entries_of i vs in
    let rest = entries_of (suc i) vs in
    if same_text n []
    then skipped
    else record { index = i; addr = n; stake = v.balance; assigned = 0; remainder = 0 } ∷ rest

-- The sum of the stakes, in uint64 arithmetic.
unfoldable pub total_of_entries : ℕ → List Entry → ℕ
total_of_entries acc [] = acc
total_of_entries acc (e ∷ es) = total_of_entries (add64 acc e.stake) es

-- The whole part and the remainder of an entry.
unfoldable pub divide : ℕ → ℕ → Entry → Entry
divide slots total e =
    let prod = mul64 e.stake slots in
    record e { assigned = prod / total % 4294967296; remainder = prod % total }

unfoldable pub used_slots : ℕ → List Entry → ℕ
used_slots acc [] = acc
used_slots acc (e ∷ es) = used_slots (add32 acc e.assigned) es

-- The order of the remainders, and of the addresses where they are equal.
unfoldable pub comes_before : Entry → Entry → Bool
comes_before a b =
    if a.remainder == b.remainder then text_less a.addr b.addr else ltb b.remainder a.remainder

-- `sort.SliceStable`.
unfoldable pub insert_entry : Entry → List Entry → List Entry
insert_entry e [] = e ∷ []
insert_entry e (f ∷ fs) =
    let rest = insert_entry e fs in if comes_before f e then f ∷ rest else e ∷ f ∷ fs

unfoldable pub sort_entries : List Entry → List Entry
sort_entries [] = []
sort_entries (e ∷ es) = insert_entry e (sort_entries es)

-- `entries[i].assigned++`; `none` is an index out of range.
unfoldable pub bump_at : ℕ → List Entry → Option (List Entry)
bump_at i [] = none
bump_at zero (e ∷ es) = some (record e { assigned = add32 e.assigned 1 } ∷ es)
bump_at (suc i) (e ∷ es) = elim (bump_at i es) [ none ↦ none | some fs ↦ some (e ∷ fs) ]

-- The loop over the leftover slots; `order[i]` may be out of range too.
unfoldable pub assign_leftover : ℕ → List ℕ → List Entry → Option (List Entry)
assign_leftover zero order es = some es
assign_leftover (suc n) [] es = none
assign_leftover (suc n) (i ∷ order) es = elim (bump_at i es) [
  | none ↦ none
  | some fs ↦ assign_leftover n order fs
]

-- The entries with their slots.
unfoldable pub apportion : ℕ → ℕ → List Entry → Option (List Entry)
apportion slots total es =
    let fs = map (divide slots total) es in
    assign_leftover (sub32 slots (used_slots 0 fs)) (map (λ e. e.index) (sort_entries fs)) fs

-- The last loop.
unfoldable pub slots_at : List ℕ → List Entry → Bool × ℕ
slots_at want [] = (false, 0)
slots_at want (e ∷ es) =
    let rest = slots_at want es in
    if same_text e.addr want then (ltb 0 e.assigned, e.assigned) else rest

-- `slotShare`; `none` is a panic.
unfoldable pub slot_share : List ℕ → List ActiveValidator → ℕ → Option (Bool × ℕ)
slot_share addr validators slots =
    let want = normalize_addr addr in
    let es = entries_of 0 validators in
    let total = total_of_entries 0 es in
    if same_text want [] || slots == 0 || length validators == 0
    then some (false, 0)
    else if not (any_of (λ e. same_text e.addr want) es) || total == 0
    then some (false, 0)
    else elim (apportion slots total es) [ none ↦ none | some fs ↦ some (slots_at want fs) ]
