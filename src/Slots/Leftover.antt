-- ===== src/Slots/Leftover.antt =====
-- The order of the remainders, and the slots that are left (slotShare, internal/pool/slots.go).
use go_pool.Prelude.{
  ℕ, zero, suc, ◌+◌, ◌≤◌, ◌<◌, ◌≡◌, ◌∙◌, ap, refl, inl, inr, arith, List, [], ◌∷◌, Option, none,
  some, length, All, add32, Bool-cases,
}
use go_pool.Slots.{Entry, comes_before, insert_entry, sort_entries, bump_at, assign_leftover}
use go_pool.Slots.Sums.{slots_of}
use go_pool.Slots.Quota.{Grown, Grown-refl, Grown-trans}

insert_entry-All {ℓ} :
    (P : Entry → Type ℓ) (e : Entry) (es : List Entry) → P e → All P es → All P (insert_entry e es)
unfolding insert_entry
insert_entry-All P e [] p ps = (p, tt)
insert_entry-All P e (f ∷ fs) p (q, qs) = elim (Bool-cases (comes_before f e)) [
  | inl before ↦ rw before (q, insert_entry-All P e fs p qs)
  | inr behind ↦ rw behind (p, (q, qs))
]

insert_entry-length : (e : Entry) (es : List Entry) → length (insert_entry e es) ≡ suc (length es)
unfolding insert_entry
insert_entry-length e [] = refl
insert_entry-length e (f ∷ fs) = ground (arith, insert_entry-length e fs)

pub sort_entries-All {ℓ} :
    (P : Entry → Type ℓ) (es : List Entry) → All P es → All P (sort_entries es)
unfolding sort_entries
sort_entries-All P [] ps = tt
sort_entries-All P (e ∷ es) (p, ps) =
    insert_entry-All P e (sort_entries es) p (sort_entries-All P es ps)

pub sort_entries-length : (es : List Entry) → length (sort_entries es) ≡ length es
unfolding sort_entries
sort_entries-length [] = refl
sort_entries-length (e ∷ es) =
    omega (arith, insert_entry-length e (sort_entries es), sort_entries-length es)

bump_at-ok :
    (i : ℕ) (es : List Entry)
    → i < length es
    → suc (slots_of es) < 4294967296
    → (fs : List Entry) × (bump_at i es ≡ some fs)
      × (slots_of fs ≡ suc (slots_of es))
      × (length fs ≡ length es)
      × Grown es fs
unfolding bump_at
bump_at-ok i [] lt small = absurd (omega arith)
bump_at-ok zero (e ∷ es) lt small = (
  record e { assigned = add32 e.assigned 1 } ∷ es,
  refl,
  omega arith,
  refl,
  (refl, omega arith, Grown-refl es),
)
bump_at-ok (suc i) (e ∷ es) lt small =
    let (fs, eq, s, n, g) = bump_at-ok i es (omega arith) (omega arith) in
    (
      e ∷ fs,
      ap (λ (o : Option (List Entry)). elim o [ none ↦ none | some gs ↦ some (e ∷ gs) ]) eq,
      omega (arith, s),
      omega (arith, n),
      (refl, omega arith, g),
    )

pub assign_leftover-ok :
    (n : ℕ) (order : List ℕ) (es : List Entry)
    → n ≤ length order
    → All (λ i. i < length es) order
    → slots_of es + n < 4294967296
    → (fs : List Entry) × (assign_leftover n order es ≡ some fs)
      × (slots_of fs ≡ slots_of es + n)
      × (length fs ≡ length es)
      × Grown es fs
unfolding assign_leftover
assign_leftover-ok zero order es le below small = (es, refl, omega arith, refl, Grown-refl es)
assign_leftover-ok (suc n) [] es le below small = absurd (omega arith)
assign_leftover-ok (suc n) (i ∷ order) es le (lt, below) small =
    let (fs, eq, s, m, g) = bump_at-ok i es lt (omega arith) in
    let (gs, eq', s', m', g') =
      assign_leftover-ok n order fs (omega arith) (rw m below) (omega (arith, s)) in
    (
      gs,
      ap
            (λ (o : Option (List Entry)). elim o [
              | none ↦ none
              | some hs ↦ assign_leftover n order hs
            ])
            eq
          ∙ eq',
      omega (arith, s, s'),
      omega (arith, m, m'),
      Grown-trans es fs gs g g',
    )
