-- ===== src/Console/Telemetry/Thinned.antt =====
-- The 500 points that are kept of more, and the telemetry as a whole.
use native.Mathlib.Nat.{mul-le-mul_right}
use mathlib.Core.Path.{subst}
use go_pool.Prelude.{
  ℕ, zero, suc, ◌+◌, ◌-◌, ◌*◌, ◌/◌, ◌≤◌, ◌<◌, ◌≡◌, refl, ap, arith, inl, inr, List, [], ◌∷◌, Option,
  none, some, Bool, false, ◌&&◌, leb, ltb, length, keep, All, Bool-cases,
}
use go_pool.Console.Telemetry.{
  TelemetryPoint, HealthSnapshot, Metric, get_elem?, put_point, thin_from, thin, bucketize,
  read_points, list_health_snapshots_between, handle_operator_telemetry, points_of, max_range,
  reply_with,
}
use go_pool.Console.Telemetry.Buckets.{
  Sorted, RisingTimes, IsLastOf, bucketize-RisingTimes, bucketize-last,
}

get-inside {ℓ} :
    {A : Type ℓ} (xs : List A) (i : ℕ) → i < length xs → (x : A) × (get_elem? xs i ≡ some x)
get-inside [] i h = absurd (omega arith)
get-inside (x ∷ xs) zero h = (x, refl)
get-inside (x ∷ xs) (suc i) h = get-inside xs i (omega arith)

get-All {ℓ κ} :
    {A : Type ℓ} (P : A → Type κ) (xs : List A) (i : ℕ) (x : A)
    → All P xs
    → get_elem? xs i ≡ some x
    → P x
get-All P [] i x all h = cc
get-All P (y ∷ xs) zero x all h = let same : y ≡ x = cc (h) in subst P same all.0
get-All P (y ∷ xs) (suc i) x all h = get-All P xs i x all.1 h

RisingTimes-get :
    (m i : ℕ) (ps : List TelemetryPoint) (p : TelemetryPoint)
    → RisingTimes m ps
    → get_elem? ps i ≡ some p
    → m ≤ p.t
RisingTimes-get m i [] p rising h = cc
RisingTimes-get m zero (q ∷ ps) p rising h =
    let same : q.t ≡ p.t = ap (λ o. elim o [ some r ↦ r.t | none ↦ 0 ]) h in omega (arith, rising.0)
RisingTimes-get m (suc i) (q ∷ ps) p rising h =
    omega (arith, rising.0, RisingTimes-get (suc q.t) i ps p rising.1 h)

RisingTimes-lt :
    (m i j : ℕ) (ps : List TelemetryPoint) (p q : TelemetryPoint)
    → RisingTimes m ps
    → i < j
    → get_elem? ps i ≡ some p
    → get_elem? ps j ≡ some q
    → p.t < q.t
RisingTimes-lt m i j [] p q rising lt hi hj = cc
RisingTimes-lt m i zero (r ∷ ps) p q rising lt hi hj = absurd (omega arith)
RisingTimes-lt m zero (suc j) (r ∷ ps) p q rising lt hi hj =
    let same : r.t ≡ p.t = ap (λ o. elim o [ some x ↦ x.t | none ↦ 0 ]) hi in
    omega (arith, RisingTimes-get (suc r.t) j ps q rising.1 hj)
RisingTimes-lt m (suc i) (suc j) (r ∷ ps) p q rising lt hi hj =
    RisingTimes-lt (suc r.t) i j ps p q rising.1 (omega arith) hi hj

index-inside : (i n : ℕ) → i < 500 → 500 < n → i * n / 500 < n
index-inside i n lt large =
    let le : i * n ≤ 499 * n = mul-le-mul_right n (omega arith) in ground arith

index-rises : (i n : ℕ) → 500 < n → i * n / 500 < suc i * n / 500
index-rises i n large = let more : suc i * n ≡ i * n + n = ground arith in ground arith

-- The rounds that are left give as many points, in order, and none that was not there.
abbrev Picked {κ} : (TelemetryPoint → Type κ) → ℕ → ℕ → Option (List TelemetryPoint) → Type κ
Picked P k low o =
    (out : List TelemetryPoint) × (o ≡ some out)
    × (length out ≡ k)
    × RisingTimes low out
    × All P out

thin_from-Picked {κ} :
    (P : TelemetryPoint → Type κ) (points : List TelemetryPoint) (k i low : ℕ)
    → 500 < length points
    → i + k ≡ 500
    → RisingTimes 0 points
    → All P points
    → ((p : TelemetryPoint) → get_elem? points (i * length points / 500) ≡ some p → low ≤ p.t)
    → Picked P k low (thin_from points k i)
unfolding thin_from
thin_from-Picked P points zero i low large rounds rising all above = ([], refl, refl, tt, tt)
thin_from-Picked P points (suc k) i low large rounds rising all above =
    let n = length points in
    let (p, here) = get-inside points (i * n / 500) (index-inside i n (omega arith) large) in
    let next : (q : TelemetryPoint) → get_elem? points (suc i * n / 500) ≡ some q → suc p.t ≤ q.t =
      λ q there.
        RisingTimes-lt 0 (i * n / 500) (suc i * n / 500) points p q rising (index-rises i n large)
          here there in
    let (out, found, count, rises, those) =
      thin_from-Picked P points k (suc i) (suc p.t) large (omega arith) rising all next in
    (
      p ∷ out,
      (λ j. put_point (here j) (found j)),
      ap suc count,
      (above p here, rises),
      (get-All P points (i * n / 500) p all here, those),
    )

thin-Picked {κ} :
    (P : TelemetryPoint → Type κ) (points : List TelemetryPoint)
    → RisingTimes 0 points
    → All P points
    → (out : List TelemetryPoint) × (thin points ≡ some out)
      × (length out ≤ 500)
      × RisingTimes 0 out
      × All P out
unfolding thin
thin-Picked P points rising all = elim (Bool-cases (ltb 500 (length points))) [
  | inl large ↦
      let (out, found, count, rises, those) =
        thin_from-Picked P points 500 0 0 (ground arith) refl rising all (λ p h. omega arith) in
      (out, rw large found, omega (arith, count), rises, those)
  | inr small ↦ (points, rw small refl, ground arith, rising, all)
]

Sorted-lower : (m n : ℕ) (ps : List TelemetryPoint) → m ≤ n → Sorted n ps → Sorted m ps
Sorted-lower m n [] le sorted = tt
Sorted-lower m n (p ∷ ps) le sorted = (omega (arith, sorted.0), sorted.1)

keep-Sorted :
    (metric : Metric) (f : HealthSnapshot → Bool) (n : ℕ) (rows : List HealthSnapshot)
    → Sorted n (read_points metric rows)
    → Sorted n (read_points metric (keep f rows))
keep-Sorted metric f n [] sorted = tt
keep-Sorted metric f n (r ∷ rows) (le, sorted) =
    let rest = keep-Sorted metric f r.recorded_at rows sorted in
    elim (Bool-cases (f r)) [
      | inl kept ↦ rw kept (le, rest)
      | inr cut ↦ rw cut (Sorted-lower n r.recorded_at (read_points metric (keep f rows)) le rest)
    ]

le-ltb : (a b : ℕ) → b ≤ a → ltb a b ≡ false
le-ltb a b h = ground arith

-- For a bucket that is not empty and a range of at most 31 days over rows in the order of their times,
-- the telemetry of a metric is answered, with at most 500 points. Their times rise strictly, and each
-- point shows the value of the last row in the range that lies in its bucket.
handle_operator_telemetry-points :
    (metric : Metric) (bucket from to : ℕ) (rows : List HealthSnapshot)
    → 0 < bucket
    → to - from ≤ max_range
    → Sorted 0 (read_points metric rows)
    → let shown = read_points metric (list_health_snapshots_between from to rows) in
      (out : List TelemetryPoint) × (handle_operator_telemetry metric
          (some bucket)
          from
          to
          (some rows)
        ≡ points_of out)
      × (length out ≤ 500)
      × RisingTimes 0 out
      × All (IsLastOf bucket shown) out
unfolding handle_operator_telemetry list_health_snapshots_between
handle_operator_telemetry-points metric bucket from to rows pos range sorted =
    let shown = read_points metric (list_health_snapshots_between from to rows) in
    let in_order : Sorted 0 shown =
      keep-Sorted metric (λ r. leb from r.recorded_at && ltb r.recorded_at to) 0 rows sorted in
    let (out, found, few, rises, those) =
      thin-Picked (IsLastOf bucket shown) (bucketize bucket shown)
        (bucketize-RisingTimes bucket shown pos in_order)
        (bucketize-last bucket shown pos in_order) in
    let allowed : ltb max_range (to - from) ≡ false = le-ltb max_range (to - from) range in
    (out, rw allowed (ap reply_with found), few, rises, those)
