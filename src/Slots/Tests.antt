-- ===== src/Slots/Tests.antt =====
-- An active set (internal/pool/slots.go) of three validators and ten slots.
use go_pool.Prelude.{◌*◌, ◌<◌, ◌≡◌, refl, arith, List, [], ◌∷◌, some, true, false, any_of}
use go_pool.Slots.{
  ActiveValidator, normalize_addr, same_text, Entry, entries_of, total_of_entries, divide,
  used_slots, comes_before, insert_entry, sort_entries, bump_at, assign_leftover, apportion,
  slots_at, slot_share,
}
use go_pool.Slots.Sums.{slots_of, stakes}
use go_pool.Slots.Quota.{HasQuota}
use go_pool.Slots.Apportion.{slot_share-apportions}

abbrev active : List ActiveValidator
active =
    record { address = 110 ∷ 113 ∷ []; balance = 50 }
    ∷ record { address = 78 ∷ 32 ∷ 82 ∷ []; balance = 33 }
    ∷ record { address = 78 ∷ 83 ∷ []; balance = 21 }
    ∷ []

-- The whole parts are 4, 3 and 2 slots; the one that is left goes to the largest remainder.
slot_share_runs : slot_share (78 ∷ 81 ∷ []) active 10 ≡ some (true, 5)
unfolding slot_share entries_of normalize_addr total_of_entries apportion divide used_slots
    sort_entries insert_entry comes_before assign_leftover bump_at slots_at
slot_share_runs = refl

named : same_text (normalize_addr (78 ∷ 81 ∷ [])) [] ≡ false
unfolding normalize_addr
named = refl

present :
    any_of (λ e. same_text e.addr (normalize_addr (78 ∷ 81 ∷ []))) (entries_of 0 active) ≡ true
unfolding normalize_addr entries_of
present = refl

staked : 0 < stakes (entries_of 0 active) * 10
unfolding normalize_addr entries_of
staked = omega arith

fits : stakes (entries_of 0 active) * 10 < 18446744073709551616
unfolding normalize_addr entries_of
fits = omega arith

slot_share-apportions_example :
    let es = entries_of 0 active in
    (fs : List Entry) × (apportion 10 (stakes es) es ≡ some fs)
    × HasQuota 10 (stakes es) es fs
    × (slots_of fs ≡ 10)
    × (slot_share (78 ∷ 81 ∷ []) active 10 ≡ some (slots_at (normalize_addr (78 ∷ 81 ∷ [])) fs))
slot_share-apportions_example =
    slot_share-apportions (78 ∷ 81 ∷ []) active 10 named present staked fits (omega arith)
