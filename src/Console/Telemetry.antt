-- ===== src/Console/Telemetry.antt =====
-- The telemetry of the console (`handleOperatorTelemetry`, `metricValue` and `bucketize` of
-- internal/api/operator_overview_handlers.go). Times are numbers of nanoseconds since the zero time, and a value is a
-- number: the code's floats show whole numbers.
pub mod Buckets
pub mod Thinned
use go_pool.Prelude.{
  ℕ, zero, suc, ◌+◌, ◌-◌, ◌*◌, ◌/◌, ◌%◌, List, [], ◌∷◌, ◌++◌, map, Option, none, some, Bool, true,
  false, ◌&&◌, ◌==◌, ltb, leb, if◌then◌else◌, length, keep,
}

-- A row of `health_snapshots`.
pub record HealthSnapshot : Type 0 where
  pub recorded_at : ℕ
  pub chain_head : ℕ
  pub processed_height : ℕ
  pub live_stake : ℕ
  pub staker_count : ℕ
  pub pending_payout_luna : ℕ
  pub wallet_balance : ℕ

-- The metrics that are allowed.
pub data Metric : Type 0 where
  wallet_balance live_stake staker_count pending_payout_luna chain_lag : Metric

pub record TelemetryPoint : Type 0 where
  pub t : ℕ
  pub value : ℕ

unfoldable pub metric_value : Metric → HealthSnapshot → ℕ
metric_value chain_lag row =
    if leb row.processed_height row.chain_head then row.chain_head - row.processed_height else 0
metric_value wallet_balance row = row.wallet_balance
metric_value live_stake row = row.live_stake
metric_value staker_count row = row.staker_count
metric_value pending_payout_luna row = row.pending_payout_luna

-- `Truncate`: the start of the bucket that a time is in.
abbrev pub bucket_start : ℕ → ℕ → ℕ
bucket_start bucket t = t - t % bucket

-- The loop of `bucketize`, from the last point that is out, if there is one: a point in the same
-- bucket takes its place, and another one follows it.
unfoldable pub bucketize_from : ℕ → TelemetryPoint → List TelemetryPoint → List TelemetryPoint
bucketize_from bucket last [] = last ∷ []
bucketize_from bucket last (p ∷ ps) =
    let q : TelemetryPoint = record { t = bucket_start bucket p.t; value = p.value } in
    let rest = bucketize_from bucket q ps in if last.t == q.t then rest else last ∷ rest

unfoldable pub bucketize : ℕ → List TelemetryPoint → List TelemetryPoint
unfolding bucketize_from
bucketize bucket [] = []
bucketize bucket (p ∷ ps) =
    bucketize_from bucket (record { t = bucket_start bucket p.t; value = p.value }) ps

-- `points[i]`; out of range is a value here, where the code would panic.
abbrev pub get_elem? {ℓ} : {A : Type ℓ} → List A → ℕ → Option A
get_elem? [] i = none
get_elem? (x ∷ xs) zero = some x
get_elem? (x ∷ xs) (suc i) = get_elem? xs i

-- The loop that keeps 500 points: from the index i on, for k more rounds; `none` is a panic.
abbrev put_point {ℓ} : {A : Type ℓ} → Option A → Option (List A) → Option (List A)
put_point (some x) (some xs) = some (x ∷ xs)
put_point _ _ = none

unfoldable pub thin_from {ℓ} : {A : Type ℓ} → List A → ℕ → ℕ → Option (List A)
thin_from points zero i = some []
thin_from points (suc k) i =
    put_point (get_elem? points (i * length points / 500)) (thin_from points k (suc i))

unfoldable pub thin {ℓ} : {A : Type ℓ} → List A → Option (List A)
unfolding thin_from
thin points =
    let out = thin_from points 500 0 in if ltb 500 (length points) then out else some points

-- `ListHealthSnapshotsBetween`, for rows in the order of their times.
unfoldable pub list_health_snapshots_between : ℕ → ℕ → List HealthSnapshot → List HealthSnapshot
list_health_snapshots_between from to rows =
    keep (λ r. leb from r.recorded_at && ltb r.recorded_at to) rows

-- 31 days.
abbrev pub max_range : ℕ
max_range = 31 * 24 * 3600 * 1000000000

pub data TelemetryReply : Type 0 where
  range_too_large db_error panicked : TelemetryReply
  points_of : List TelemetryPoint → TelemetryReply

abbrev pub reply_with : Option (List TelemetryPoint) → TelemetryReply
reply_with none = panicked
reply_with (some ps) = points_of ps

abbrev pub read_points : Metric → List HealthSnapshot → List TelemetryPoint
read_points metric rows =
    map (λ r. record { t = r.recorded_at; value = metric_value metric r }) rows

abbrev bucketed : Option ℕ → List TelemetryPoint → List TelemetryPoint
bucketed none ps = ps
bucketed (some bucket) ps = bucketize bucket ps

abbrev shown_of : Metric → Option ℕ → ℕ → ℕ → Option (List HealthSnapshot) → TelemetryReply
shown_of metric bucket from to none = db_error
shown_of metric bucket from to (some rows) =
    reply_with
      (thin (bucketed bucket (read_points metric (list_health_snapshots_between from to rows))))

-- `handleOperatorTelemetry` for parameters that can be read, the bucket's duration being positive; the
-- rows are `none` where the query fails.
unfoldable pub handle_operator_telemetry :
    Metric → Option ℕ → ℕ → ℕ → Option (List HealthSnapshot) → TelemetryReply
unfolding bucketize thin list_health_snapshots_between metric_value
handle_operator_telemetry metric bucket from to rows =
    let shown = shown_of metric bucket from to rows in
    if ltb max_range (to - from) then range_too_large else shown
