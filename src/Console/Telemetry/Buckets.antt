-- ===== src/Console/Telemetry/Buckets.antt =====
-- What `bucketize` keeps of points in the order of their times.
use native.Mathlib.Nat.{div-add-mod', le-div_iff_mul-le, mul-le-mul_right, div-mul-le_self}
use go_pool.Prelude.{
  ℕ, suc, ◌*◌, ◌/◌, ◌≤◌, ◌<◌, ◌≡◌, refl, ap, ◌∙◌, arith, inl, inr, List, [], ◌∷◌, Option, none,
  some, false, ◌==◌, if◌then◌else◌, All, Bool-cases,
}
use go_pool.Console.Telemetry.{TelemetryPoint, bucket_start, bucketize_from, bucketize}

start_times : (b t : ℕ) → bucket_start b t ≡ t / b * b
start_times b t = omega (arith, div-add-mod' t b)

start_mono : (b t u : ℕ) → 0 < b → t ≤ u → bucket_start b t ≤ bucket_start b u
start_mono b t u pos le =
    let div : t / b ≤ u / b = (le-div_iff_mul-le pos).1 (omega (arith, div-mul-le_self t b)) in
    let times : t / b * b ≤ u / b * b = mul-le-mul_right b div in
    omega (arith, start_times b t, start_times b u)

-- Each time is at least the one before, the first at least n.
abbrev pub Sorted : ℕ → List TelemetryPoint → Type 0
Sorted n [] = Unit
Sorted n (p ∷ ps) = (n ≤ p.t) × Sorted p.t ps

-- Each time is larger than the one before, the first at least n.
abbrev pub RisingTimes : ℕ → List TelemetryPoint → Type 0
RisingTimes n [] = Unit
RisingTimes n (p ∷ ps) = (n ≤ p.t) × RisingTimes (suc p.t) ps

abbrev point_in : ℕ → TelemetryPoint → TelemetryPoint
point_in b p = record { t = bucket_start b p.t; value = p.value }

abbrev at_first : Option ℕ → Option ℕ → Option ℕ
at_first (some v) other = some v
at_first none other = other

-- The value of the last point in the bucket that starts at s.
abbrev last_in : ℕ → ℕ → List TelemetryPoint → Option ℕ
last_in b s [] = none
last_in b s (p ∷ ps) =
    at_first (last_in b s ps) (if bucket_start b p.t == s then some p.value else none)

from-RisingTimes :
    (b n : ℕ) (p : TelemetryPoint) (ps : List TelemetryPoint)
    → 0 < b
    → n ≤ bucket_start b p.t
    → Sorted p.t ps
    → RisingTimes n (bucketize_from b (point_in b p) ps)
unfolding bucketize_from
from-RisingTimes b n p [] pos low sorted = (low, tt)
from-RisingTimes b n p (q ∷ ps) pos low (le, sorted) =
    let mono = start_mono b p.t q.t pos le in
    elim (Bool-cases (bucket_start b p.t == bucket_start b q.t)) [
      | inl same ↦ rw same (from-RisingTimes b n q ps pos (omega arith) sorted)
      | inr other ↦
          rw other
            (low, from-RisingTimes b (suc (bucket_start b p.t)) q ps pos (ground arith) sorted)
    ]

-- No later point is in an earlier bucket.
last_in-none :
    (b s n : ℕ) (ps : List TelemetryPoint)
    → 0 < b
    → s < bucket_start b n
    → Sorted n ps
    → last_in b s ps ≡ none
last_in-none b s n [] pos early sorted = refl
last_in-none b s n (p ∷ ps) pos early (le, sorted) =
    let mono = start_mono b n p.t pos le in
    let rest = last_in-none b s p.t ps pos (omega arith) sorted in
    let other : (bucket_start b p.t == s) ≡ false = ground arith in rw rest (rw other refl)

abbrev pub IsLastOf : ℕ → List TelemetryPoint → TelemetryPoint → Type 0
IsLastOf b ps q = last_in b q.t ps ≡ some q.value

earlier :
    (b : ℕ) (p : TelemetryPoint) (ps qs : List TelemetryPoint)
    → All (IsLastOf b ps) qs
    → All (IsLastOf b (p ∷ ps)) qs
earlier b p ps [] h = tt
earlier b p ps (q ∷ qs) (h, hs) = (
  ap (λ o. at_first o (if bucket_start b p.t == q.t then some p.value else none)) h,
  earlier b p ps qs hs,
)

from_last :
    (b : ℕ) (p : TelemetryPoint) (ps : List TelemetryPoint)
    → 0 < b
    → Sorted p.t ps
    → All (IsLastOf b (p ∷ ps)) (bucketize_from b (point_in b p) ps)
unfolding bucketize_from
from_last b p [] pos sorted = (ground arith, tt)
from_last b p (q ∷ ps) pos (le, sorted) =
    let mono = start_mono b p.t q.t pos le in
    let rest = earlier b p (q ∷ ps) _ (from_last b q ps pos sorted) in
    elim (Bool-cases (bucket_start b p.t == bucket_start b q.t)) [
      | inl same ↦ rw same rest
      | inr other ↦
          let early : bucket_start b p.t < bucket_start b q.t = ground arith in
          let no_more : last_in b (bucket_start b p.t) (q ∷ ps) ≡ none =
            last_in-none b (bucket_start b p.t) q.t (q ∷ ps) pos early (omega arith, sorted) in
          rw other (
            ap
                  (λ o.
                    at_first o
                      (if bucket_start b p.t == bucket_start b p.t then some p.value else none))
                  no_more
                ∙ ground arith,
            rest,
          )
    ]

pub bucketize-RisingTimes :
    (b : ℕ) (ps : List TelemetryPoint) → 0 < b → Sorted 0 ps → RisingTimes 0 (bucketize b ps)
unfolding bucketize
bucketize-RisingTimes b [] pos sorted = tt
bucketize-RisingTimes b (p ∷ ps) pos (le, sorted) =
    from-RisingTimes b 0 p ps pos (omega arith) sorted

pub bucketize-last :
    (b : ℕ) (ps : List TelemetryPoint) → 0 < b → Sorted 0 ps → All (IsLastOf b ps) (bucketize b ps)
unfolding bucketize
bucketize-last b [] pos sorted = tt
bucketize-last b (p ∷ ps) pos (le, sorted) = from_last b p ps pos sorted
