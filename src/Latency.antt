-- ===== src/Latency.antt =====
-- src/measurement/bounded-latency-recorder.ts: the histogram of latencies. A latency that is finite
-- and not negative is a whole number of the unit that the configuration counts in. The code's
-- logarithm and power are parameters: `bucket_of`, the bucket before it is clamped to the last one,
-- and `midpoint`, what `#quantile` and `#average` take for a bucket before they clamp it.
mod Tests
pub mod Invariant
pub mod Merge
pub mod Quantile
use benchkit.Prelude.{
  ◌⊎◌, inl, inr, ◌||◌, ℕ, zero, suc, ◌+◌, ◌-◌, ◌*◌, ◌/◌, ◌==◌, ltb, leb, min, max, if◌then◌else◌,
  Bool, true, false, not, ◌&&◌, Option, none, some, List, [], ◌∷◌, length, get_or, set, replicate,
  max_safe_integer,
}

-- `relative_accuracy` is in the parts that the configuration is written in.
pub record Config : Type 0 where
  pub lowest_discernible : ℕ
  pub highest_trackable : ℕ
  pub relative_accuracy : ℕ

pub record Recorder : Type 0 where
  pub config : Config
  pub counts : List ℕ
  pub zero_count : ℕ
  pub count : ℕ
  pub non_finite : ℕ
  pub below_range : ℕ
  pub above_range : ℕ

pub record Snapshot : Type 0 where
  pub version : ℕ
  pub config : Config
  pub counts : List ℕ
  pub zero_count : ℕ
  pub count : ℕ
  pub non_finite : ℕ
  pub below_range : ℕ
  pub above_range : ℕ

-- The accuracy is the configuration; its algorithm is a constant, and a percentage is in parts.
pub record Summary : Type 0 where
  pub count : ℕ
  pub dropped : ℕ
  pub out_of_range : ℕ
  pub non_finite : ℕ
  pub below_range : ℕ
  pub above_range : ℕ
  pub average_ms : Option (ℕ × ℕ)
  pub p50_ms : Option ℕ
  pub p95_ms : Option ℕ
  pub p97_5_ms : Option ℕ
  pub p99_ms : Option ℕ
  pub accuracy : Config

-- an argument of `record`
pub data Latency : Type 0 where
  not_a_number negative : Latency
  finite : ℕ → Latency

pub data Setting : Type 0 where
  lowest_setting highest_setting accuracy_setting : Setting

-- the errors that `validateSnapshot` throws
pub data SnapshotError : Type 0 where
  not_version_1 : SnapshotError
  config_mismatch : Setting → SnapshotError
  bucket_count_mismatch unsafe_counter count_mismatch : SnapshotError

pub data Merged : Type 0 where
  refused : SnapshotError → Merged
  merged : Recorder → Merged

abbrev pub sum : List ℕ → ℕ
sum [] = 0
sum (n ∷ ns) = n + sum ns

-- The bucket count is the constructor's, which is at least 1.
unfoldable pub empty : Config → ℕ → Recorder
empty config bucket_count = record {
  config = config;
  counts = replicate bucket_count 0;
  zero_count = 0;
  count = 0;
  non_finite = 0;
  below_range = 0;
  above_range = 0;
}

unfoldable pub reset : Recorder → Recorder
reset r = record r {
  counts = replicate (length r.counts) 0;
  zero_count = 0;
  count = 0;
  non_finite = 0;
  below_range = 0;
  above_range = 0;
}

-- `counts[index] = (counts[index] ?? 0) + 1`
abbrev pub increment : List ℕ → ℕ → List ℕ
increment counts index = set counts index (get_or counts index 0 + 1)

-- the loop of `merge`
abbrev pub add_counts : List ℕ → List ℕ → List ℕ
add_counts [] values = []
add_counts (n ∷ ns) [] = n ∷ add_counts ns []
add_counts (n ∷ ns) (v ∷ vs) = (n + v) ∷ add_counts ns vs

unfoldable pub snapshot : Recorder → Snapshot
snapshot r = record {
  version = 1;
  config = r.config;
  counts = r.counts;
  zero_count = r.zero_count;
  count = r.count;
  non_finite = r.non_finite;
  below_range = r.below_range;
  above_range = r.above_range;
}

abbrev pub all_safe : List ℕ → Bool
all_safe [] = true
all_safe (n ∷ ns) = leb n max_safe_integer && all_safe ns

abbrev pub counters : Snapshot → List ℕ
counters s = s.zero_count ∷ s.count ∷ s.non_finite ∷ s.below_range ∷ s.above_range ∷ s.counts

-- The types hold what the code tests of the shape of the snapshot.
unfoldable pub validate_snapshot : Snapshot → Config → ℕ → Option SnapshotError
validate_snapshot s config bucket_count =
    if not (s.version == 1)
    then some not_version_1
    else if not (s.config.lowest_discernible == config.lowest_discernible)
    then some (config_mismatch lowest_setting)
    else if not (s.config.highest_trackable == config.highest_trackable)
    then some (config_mismatch highest_setting)
    else if not (s.config.relative_accuracy == config.relative_accuracy)
    then some (config_mismatch accuracy_setting)
    else if not (length s.counts == bucket_count)
    then some bucket_count_mismatch
    else if not (all_safe (counters s))
    then some unsafe_counter
    else if not (s.zero_count + sum s.counts == s.count)
    then some count_mismatch
    else none

-- `merge` behind its validation
abbrev pub absorb : Recorder → Snapshot → Recorder
absorb r s = record r {
  counts = add_counts r.counts s.counts;
  zero_count = r.zero_count + s.zero_count;
  count = r.count + s.count;
  non_finite = r.non_finite + s.non_finite;
  below_range = r.below_range + s.below_range;
  above_range = r.above_range + s.above_range;
}

abbrev pub merge_unless : Option SnapshotError → Recorder → Snapshot → Merged
merge_unless (some e) r s = refused e
merge_unless none r s = merged (absorb r s)

unfoldable pub merge : Recorder → Snapshot → Merged
merge r s = merge_unless (validate_snapshot s r.config (length r.counts)) r s

-- the errors that the constructor throws
pub data ConfigError : Type 0 where
  bad_lowest bad_highest bad_accuracy too_many_buckets : ConfigError

abbrev pub max_buckets : ℕ
max_buckets = 1000000

-- `validateConfig` of options with every setting given; `whole` is the number of parts in 1.
unfoldable pub validate_config : ℕ → Config → Option ConfigError
validate_config whole config =
    if config.lowest_discernible == 0
    then some bad_lowest
    else if ltb config.highest_trackable config.lowest_discernible
    then some bad_highest
    else if config.relative_accuracy == 0 || leb whole config.relative_accuracy
    then some bad_accuracy
    else none

-- the constructor; `bucket_count` is its quotient of logarithms
unfoldable pub construct : ℕ → (Config → ℕ) → Config → ConfigError ⊎ Recorder
construct whole bucket_count config = elim (validate_config whole config) [
  | some e ↦ inl e
  | none ↦
      if ltb max_buckets (bucket_count config)
      then inl too_many_buckets
      else inr (empty config (bucket_count config))
]

module _ (bucket_of : ℕ → ℕ) where
  abbrev pub bucket : Recorder → ℕ → ℕ
  bucket r ms = min (length r.counts - 1) (bucket_of ms)

  -- `record`
  unfoldable pub record_latency : Latency → Recorder → Recorder
  record_latency not_a_number r = record r { non_finite = r.non_finite + 1 }
  record_latency negative r = record r { below_range = r.below_range + 1 }
  record_latency (finite ms) r =
      if ms == 0
      then record r { zero_count = r.zero_count + 1; count = r.count + 1 }
      else if ltb ms r.config.lowest_discernible
      then record r { below_range = r.below_range + 1 }
      else if ltb r.config.highest_trackable ms
      then record r { above_range = r.above_range + 1 }
      else record r { counts = increment r.counts (bucket r ms); count = r.count + 1 }

  abbrev pub record_all : List Latency → Recorder → Recorder
  record_all [] r = r
  record_all (x ∷ xs) r = record_all xs (record_latency x r)

-- `Math.max(1, Math.ceil(count * fraction))`, of the fraction `part / whole`
abbrev pub rank_of : ℕ → ℕ → ℕ → ℕ
rank_of count part whole = max 1 ((count * part + (whole - 1)) / whole)

module _ (midpoint : ℕ → ℕ) where
  -- the loop of `#quantile` from the bucket `index`, over the counts that are left
  abbrev pub quantile_from : Config → ℕ → ℕ → ℕ → List ℕ → ℕ
  quantile_from config rank cumulative index [] = config.highest_trackable
  quantile_from config rank cumulative index (n ∷ ns) =
      let rest = quantile_from config rank (cumulative + n) (index + 1) ns in
      if leb rank (cumulative + n) then min config.highest_trackable (midpoint index) else rest

  unfoldable pub quantile : ℕ → ℕ → Recorder → Option ℕ
  quantile part whole r =
      let rank = rank_of r.count part whole in
      if r.count == 0
      then none
      else if leb rank r.zero_count
      then some 0
      else some (quantile_from r.config rank r.zero_count 0 r.counts)

  -- the sum of `#average`, from the bucket `index`; an empty bucket adds nothing
  abbrev pub total_from : Config → ℕ → List ℕ → ℕ
  total_from config index [] = 0
  total_from config index (n ∷ ns) =
      let rest = total_from config (index + 1) ns in
      if n == 0 then rest else min config.highest_trackable (midpoint index) * n + rest

  -- `#average`: the total and the number that it is divided by
  unfoldable pub average : Recorder → Option (ℕ × ℕ)
  average r = if r.count == 0 then none else some (total_from r.config 0 r.counts, r.count)

  unfoldable pub summary : Recorder → Summary
  summary r = record {
    count = r.count;
    dropped = r.non_finite + r.below_range + r.above_range;
    out_of_range = r.below_range + r.above_range;
    non_finite = r.non_finite;
    below_range = r.below_range;
    above_range = r.above_range;
    average_ms = average r;
    p50_ms = quantile 1 2 r;
    p95_ms = quantile 19 20 r;
    p97_5_ms = quantile 39 40 r;
    p99_ms = quantile 99 100 r;
    accuracy = r.config;
  }

pub data Summarized : Type 0 where
  bad_config : ConfigError → Summarized
  bad_snapshot : SnapshotError → Summarized
  summarized : Summary → Summarized

abbrev pub summarize_merged : (ℕ → ℕ) → Merged → Summarized
summarize_merged midpoint (refused e) = bad_snapshot e
summarize_merged midpoint (merged r) = summarized (summary midpoint r)

-- `summarizeBoundedLatencySnapshot`
unfoldable pub summarize_snapshot : (ℕ → ℕ) → ℕ → (Config → ℕ) → Snapshot → Summarized
summarize_snapshot midpoint whole bucket_count s = elim (construct whole bucket_count s.config) [
  | inl e ↦ bad_config e
  | inr r ↦ summarize_merged midpoint (merge r s)
]

-- the default configuration, in microseconds and percent
abbrev pub default_config : Config
default_config = record {
  lowest_discernible = 1;
  highest_trackable = 60000000;
  relative_accuracy = 1;
}
