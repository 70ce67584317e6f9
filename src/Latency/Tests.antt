-- ===== src/Latency/Tests.antt =====
-- src/measurement/bounded-latency-recorder.ts: the theorems at concrete latencies.
use benchkit.Prelude.{
  ℕ, ◌+◌, ◌*◌, ◌/◌, ◌≤◌, ◌≡◌, ◌⊎◌, refl, some, List, [], ◌∷◌, min, arith, ◌<◌, suc, take, length,
}
use benchkit.Latency.{
  Config, Recorder, Latency, not_a_number, negative, finite, merged, empty, snapshot, merge,
  record_latency, record_all, validate_config, construct, summary, summarized, summarize_snapshot,
  quantile, sum,
}
use benchkit.Latency.Invariant.{IsValid, empty-IsValid, record_all-IsValid}
use benchkit.Latency.Merge.{merge-record_all, merge-snapshot, summarize-snapshot}
use benchkit.Latency.Quantile.{
  Reaches, FallsShort, quantile-HoldsRank, IsOrdered, summary-IsOrdered,
}

abbrev tens : ℕ → ℕ
tens n = n / 10

abbrev middle : ℕ → ℕ
middle i = i * 10 + 5

abbrev config : Config
config = record { lowest_discernible = 1; highest_trackable = 90; relative_accuracy = 1 }

abbrev ten_buckets : Config → ℕ
ten_buckets c = 10

abbrev some_latencies : List Latency
some_latencies =
    finite 12 ∷ finite 0 ∷ not_a_number ∷ finite 91 ∷ negative ∷ finite 88 ∷ finite 14 ∷ []

abbrev recorder : Recorder
recorder = record_all tens some_latencies (empty config 10)

recorder-IsValid : IsValid 10 recorder
recorder-IsValid =
    record_all-IsValid tens 10 some_latencies (empty config 10)
      (empty-IsValid config 10 (omega arith))

quantile-recorder : quantile middle 1 2 recorder ≡ some 15
unfolding quantile record_latency empty
quantile-recorder = refl

merge-record_all_example :
    merge (empty config 10) (snapshot recorder)
    ≡ merged (record_all tens some_latencies (empty config 10))
unfolding snapshot record_latency empty
merge-record_all_example =
    merge-record_all tens 10 some_latencies (empty config 10) (omega arith) refl refl

merge-snapshot_example : merge (empty recorder.config 10) (snapshot recorder) ≡ merged recorder
unfolding snapshot record_latency empty
merge-snapshot_example = merge-snapshot 10 recorder recorder-IsValid refl

summarize-snapshot_example :
    summarize_snapshot middle 100 ten_buckets (snapshot recorder)
    ≡ summarized (summary middle recorder)
unfolding snapshot record_latency empty construct validate_config
summarize-snapshot_example =
    summarize-snapshot tens middle 100 ten_buckets config (empty config 10) some_latencies
      (omega arith) refl refl

quantile-HoldsRank_example :
    (Reaches 1 2 recorder.count recorder.zero_count × (quantile middle 1 2 recorder ≡ some 0))
    ⊎ ((i : ℕ) × (i < length recorder.counts)
        × FallsShort 1 2 recorder.count (recorder.zero_count + sum (take i recorder.counts))
        × Reaches 1 2 recorder.count (recorder.zero_count + sum (take (suc i) recorder.counts))
        × (quantile middle 1 2 recorder ≡ some (min recorder.config.highest_trackable (middle i))))
unfolding record_latency empty
quantile-HoldsRank_example =
    quantile-HoldsRank middle 10 recorder 1 2 recorder-IsValid (omega arith) (omega arith)
      (omega arith)

middle_le : (i j : ℕ) → i ≤ j → middle i ≤ middle j
middle_le i j h = omega (arith, h)

summary-IsOrdered_example :
    let s = summary middle recorder in
    IsOrdered s.p50_ms s.p95_ms × IsOrdered s.p95_ms s.p97_5_ms × IsOrdered s.p97_5_ms s.p99_ms
summary-IsOrdered_example = summary-IsOrdered middle middle_le recorder
