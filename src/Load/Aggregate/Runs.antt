-- ===== src/Load/Aggregate/Runs.antt =====
-- src/load/shared/aggregate-load-phase.ts: the totals are those of all that the workers recorded.
use benchkit.Prelude.{
  ℕ, ◌+◌, ◌≤◌, ◌≡◌, refl, sym, ap, subst, ◌∙◌, true, List, [], ◌∷◌, ◌++◌, map, length,
  length-replicate, arith, inr, All,
}
use benchkit.Latency.{
  Recorder, Latency, merged, default_config, empty, snapshot, merge, record_all, all_safe, counters,
  summary,
}
use benchkit.Latency.Merge.{merge-record_all, record_all-SameShape}
use benchkit.Memory.{MemoryUsage}
use benchkit.Load.Measurement.{WorkerResult}
use benchkit.Load.Measurement.Perform.{
  Recording, latencies, Counter, total, sent_count, completed_count, sent_bytes, received_bytes,
  connection_errors, timeouts, protocol_errors, aborts, calls, events, wait, dropped, lag_total,
  scheduled,
}
use benchkit.Load.Measurement.Phases.{reported, IsResultOf}
use benchkit.Load.Aggregate.{
  Totals, no_totals, add_worker, add_workers, LoadPhaseResult, AggregatedLoadPhase,
  aggregate_load_phase, report,
}

-- the total that a counter becomes
abbrev pub total_of : Counter → Totals → ℕ
total_of sent_count t = t.sent
total_of completed_count t = t.completed
total_of sent_bytes t = t.bytes_sent
total_of received_bytes t = t.bytes_received
total_of connection_errors t = t.errors.connection
total_of timeouts t = t.errors.timeout
total_of protocol_errors t = t.errors.protocol
total_of aborts t = t.errors.aborted
total_of calls t = t.send_calls
total_of events t = t.backpressure_events
total_of wait t = t.backpressure_wait
total_of dropped t = t.rate_dropped
total_of lag_total t = t.schedule_lag_total
total_of scheduled t = t.scheduled_operations

-- A worker's run: what it recorded between two readings of its memory, and its result.
pub record Run : Type 0 where
  pub recordings : List Recording
  pub first : MemoryUsage
  pub last : MemoryUsage
  pub result : WorkerResult

abbrev pub all_recordings : List Run → List Recording
all_recordings [] = []
all_recordings (r ∷ rs) = r.recordings ++ all_recordings rs

-- The result is that of the recordings, and its histogram can be merged.
pub record IsRun (bucket_of : ℕ → ℕ) (n : ℕ) (r : Run) : Type 0 where
  pub reports : IsResultOf bucket_of n r.first r.last r.recordings r.result
  pub safe : all_safe (counters r.result.latency_snapshot) ≡ true

total-append : (k : Counter) (xs ys : List Recording) → total k (xs ++ ys) ≡ total k xs + total k ys
total-append k [] ys = omega arith
total-append k (x ∷ xs) ys = omega (arith, total-append k xs ys)

latencies-append : (xs ys : List Recording) → latencies (xs ++ ys) ≡ latencies xs ++ latencies ys
latencies-append [] ys = refl
latencies-append (x ∷ xs) ys = ground (arith, latencies-append xs ys)

record_all-append :
    (bucket_of : ℕ → ℕ) (xs ys : List Latency) (r : Recorder)
    → record_all bucket_of (xs ++ ys) r ≡ record_all bucket_of ys (record_all bucket_of xs r)
record_all-append bucket_of [] ys r = refl
record_all-append bucket_of (x ∷ xs) ys r = record_all-append bucket_of xs ys _

total_of-add_worker :
    (k : Counter) (w : WorkerResult) (latency : Recorder) (t : Totals)
    → total_of k (add_worker w latency t) ≡ total_of k t + reported k w
total_of-add_worker k w latency t = ground arith

no_totals-zero : (k : Counter) (latency : Recorder) → total_of k (no_totals latency) ≡ 0
no_totals-zero k latency = ground arith

-- What the loop makes of the results of runs, from totals with a histogram of `n` buckets.
record AddsUp (bucket_of : ℕ → ℕ) (runs : List Run) (before after : Totals) : Type 0 where
  counts : (k : Counter) → total_of k after ≡ total_of k before + total k (all_recordings runs)
  latency : after.latency ≡ record_all bucket_of (latencies (all_recordings runs)) before.latency

-- A histogram of the default configuration.
abbrev IsDefault : ℕ → Recorder → Type 0
IsDefault n r = (default_config ≡ r.config) × (length r.counts ≡ n)

record_all-IsDefault :
    (bucket_of : ℕ → ℕ) (n : ℕ) (xs : List Latency) (r : Recorder)
    → IsDefault n r
    → IsDefault n (record_all bucket_of xs r)
record_all-IsDefault bucket_of n xs r h =
    let (cfg, len) = record_all-SameShape bucket_of xs r in (h.0 ∙ cfg, sym len ∙ h.1)

empty-IsDefault : (n : ℕ) → IsDefault n (empty default_config n)
unfolding empty
empty-IsDefault n = (refl, length-replicate n 0)

merge-run :
    (bucket_of : ℕ → ℕ) (n : ℕ) (r : Run) (latency : Recorder)
    → 1 ≤ n
    → IsDefault n latency
    → IsRun bucket_of n r
    → merge latency r.result.latency_snapshot
      ≡ merged (record_all bucket_of (latencies r.recordings) latency)
merge-run bucket_of n r latency pos shape h =
    let e =
      h.reports.latencies
      ∙ ap (λ c. snapshot (record_all bucket_of (latencies r.recordings) (empty c n))) shape.0 in
    ap (merge latency) e
    ∙ merge-record_all bucket_of n (latencies r.recordings) latency pos shape.1
        (subst (λ s. all_safe (counters s) ≡ true) e h.safe)

add_workers-merged :
    (w : WorkerResult) (ws : List WorkerResult) (t : Totals) {latency : Recorder}
    → merge t.latency w.latency_snapshot ≡ merged latency
    → add_workers (w ∷ ws) t ≡ add_workers ws (add_worker w latency t)
unfolding add_workers
add_workers-merged w ws t e = ground (arith, e)

add_workers-AddsUp :
    (bucket_of : ℕ → ℕ) (n : ℕ) (runs : List Run) (t : Totals)
    → 1 ≤ n
    → IsDefault n t.latency
    → All (IsRun bucket_of n) runs
    → (t' : Totals) × (add_workers (map (λ r. r.result) runs) t ≡ inr t')
      × AddsUp bucket_of runs t t'
unfolding add_workers
add_workers-AddsUp bucket_of n [] t pos shape h =
    (t, refl, record { counts = λ k. omega arith; latency = refl })
add_workers-AddsUp bucket_of n (r ∷ rs) t pos shape h =
    let latency = record_all bucket_of (latencies r.recordings) t.latency in
    let next = add_worker r.result latency t in
    let (t', e, a) =
      add_workers-AddsUp bucket_of n rs next pos
        (record_all-IsDefault bucket_of n (latencies r.recordings) t.latency shape) h.1 in
    (
      t',
      add_workers-merged r.result (map (λ q. q.result) rs) t
            (merge-run bucket_of n r t.latency pos shape h.0)
          ∙ e,
      record {
        counts = λ k. omega (
          arith,
          a.counts k,
          total_of-add_worker k r.result latency t,
          h.0.reports.counts k,
          total-append k r.recordings (all_recordings rs),
        );
        latency =
            a.latency
            ∙ (sym (
                  record_all-append bucket_of (latencies r.recordings)
                    (latencies (all_recordings rs)) t.latency)
                ∙ ap (λ ys. record_all bucket_of ys t.latency)
                    (sym (latencies-append r.recordings (all_recordings rs))));
      },
    )

-- An aggregate adds up a list of recordings: each count is the sum of theirs, the errors are summed,
-- and the histogram is that of one recorder with all their latencies.
pub record Aggregates (bucket_of midpoint : ℕ → ℕ) (n : ℕ) (xs : List Recording)
    (a : AggregatedLoadPhase) : Type 0 where
  pub counts : (k : Counter) → total_of k a.totals ≡ total k xs
  pub error_total :
      a.error_total
      ≡ total connection_errors xs + total timeouts xs + total protocol_errors xs + total aborts xs
  pub latency_snapshot :
      a.latency_snapshot ≡ snapshot (record_all bucket_of (latencies xs) (empty default_config n))
  pub latency :
      a.latency ≡ summary midpoint (record_all bucket_of (latencies xs) (empty default_config n))

report-Aggregates :
    (bucket_of midpoint : ℕ → ℕ) (n : ℕ) (phase : LoadPhaseResult) (runs : List Run) (t : Totals)
    → AddsUp bucket_of runs (no_totals (empty default_config n)) t
    → Aggregates bucket_of midpoint n (all_recordings runs) (report midpoint phase t)
report-Aggregates bucket_of midpoint n phase runs t h = record {
  counts = λ k. omega (arith, h.counts k, no_totals-zero k (empty default_config n));
  error_total = omega (
    arith,
    h.counts connection_errors,
    h.counts timeouts,
    h.counts protocol_errors,
    h.counts aborts,
  );
  latency_snapshot = ap snapshot h.latency;
  latency = ap (summary midpoint) h.latency;
}

-- The aggregate of a phase, whose workers' results report what each recorded with safe counters,
-- is given, and adds up all that the workers recorded: its histogram is that of one recorder.
pub aggregate_load_phase-Aggregates :
    (bucket_of midpoint : ℕ → ℕ) (n : ℕ) (phase : LoadPhaseResult) (runs : List Run)
    → 1 ≤ n
    → phase.workers ≡ map (λ r. r.result) runs
    → All (IsRun bucket_of n) runs
    → (a : AggregatedLoadPhase) × (aggregate_load_phase midpoint n phase ≡ inr a)
      × Aggregates bucket_of midpoint n (all_recordings runs) a
unfolding aggregate_load_phase
aggregate_load_phase-Aggregates bucket_of midpoint n phase runs pos workers h =
    let start = no_totals (empty default_config n) in
    let (t, e, a) = add_workers-AddsUp bucket_of n runs start pos (empty-IsDefault n) h in
    (
      report midpoint phase t,
      ground (arith, e, ap (λ ws. add_workers ws start) workers),
      report-Aggregates bucket_of midpoint n phase runs t a,
    )
