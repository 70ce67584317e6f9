-- ===== src/Load/Aggregate.antt =====
-- src/load/shared/aggregate-load-phase.ts: the report of a phase, from the results of its workers.
-- A quotient is the pair of its two numbers. The dates and the parent's memory, which are passed on
-- as they are, are left out.
pub mod Runs
use benchkit.Prelude.{
  ℕ, ◌+◌, ◌*◌, ltb, leb, max, if◌then◌else◌, Bool, Option, none, some, List, [], ◌∷◌, length, ◌⊎◌,
  inl, inr,
}
use benchkit.Latency.{
  Recorder, Snapshot, SnapshotError, Merged, merged, refused, Summary, default_config, empty,
  snapshot, merge, summary,
}
use benchkit.Load.Measurement.{ErrorMetrics, no_errors, WorkerResult}

-- the variables of `aggregateLoadPhase`
pub record Totals : Type 0 where
  pub latency : Recorder
  pub errors : ErrorMetrics
  pub sent : ℕ
  pub completed : ℕ
  pub bytes_sent : ℕ
  pub bytes_received : ℕ
  pub send_calls : ℕ
  pub backpressure_events : ℕ
  pub backpressure_wait : ℕ
  pub buffered_amount_peak : ℕ
  pub in_flight_at_stop : ℕ
  pub rate_dropped : ℕ
  pub schedule_lag_total : ℕ
  pub max_schedule_lag : ℕ
  pub scheduled_operations : ℕ
  pub worker_elu_total_pct : ℕ
  pub max_worker_elu_pct : ℕ
  pub heap_used_peak : ℕ
  pub external_peak : ℕ
  pub array_buffers_peak : ℕ

abbrev pub no_totals : Recorder → Totals
no_totals latency = record {
  latency = latency;
  errors = no_errors;
  sent = 0;
  completed = 0;
  bytes_sent = 0;
  bytes_received = 0;
  send_calls = 0;
  backpressure_events = 0;
  backpressure_wait = 0;
  buffered_amount_peak = 0;
  in_flight_at_stop = 0;
  rate_dropped = 0;
  schedule_lag_total = 0;
  max_schedule_lag = 0;
  scheduled_operations = 0;
  worker_elu_total_pct = 0;
  max_worker_elu_pct = 0;
  heap_used_peak = 0;
  external_peak = 0;
  array_buffers_peak = 0;
}

-- the loop's body behind the merge
abbrev pub add_worker : WorkerResult → Recorder → Totals → Totals
add_worker w latency t = record {
  latency = latency;
  errors = record {
    connection = t.errors.connection + w.errors.connection;
    timeout = t.errors.timeout + w.errors.timeout;
    protocol = t.errors.protocol + w.errors.protocol;
    aborted = t.errors.aborted + w.errors.aborted;
  };
  sent = t.sent + w.sent;
  completed = t.completed + w.completed;
  bytes_sent = t.bytes_sent + w.bytes_sent;
  bytes_received = t.bytes_received + w.bytes_received;
  send_calls = t.send_calls + w.send_calls;
  backpressure_events = t.backpressure_events + w.backpressure_events;
  backpressure_wait = t.backpressure_wait + w.backpressure_wait;
  buffered_amount_peak = max t.buffered_amount_peak w.buffered_amount_peak;
  in_flight_at_stop = t.in_flight_at_stop + w.in_flight_at_stop;
  rate_dropped = t.rate_dropped + w.rate_dropped;
  schedule_lag_total = t.schedule_lag_total + w.schedule_lag_total;
  max_schedule_lag = max t.max_schedule_lag w.max_schedule_lag;
  scheduled_operations = t.scheduled_operations + w.scheduled_operations;
  worker_elu_total_pct = t.worker_elu_total_pct + w.elu_pct;
  max_worker_elu_pct = max t.max_worker_elu_pct w.elu_pct;
  heap_used_peak = t.heap_used_peak + w.heap_used_peak;
  external_peak = t.external_peak + w.external_peak;
  array_buffers_peak = t.array_buffers_peak + w.array_buffers_peak;
}

-- The loop ends with the error that `merge` throws.
unfoldable pub add_workers : List WorkerResult → Totals → SnapshotError ⊎ Totals
add_workers [] t = inr t
add_workers (w ∷ ws) t = elim (merge t.latency w.latency_snapshot) [
  | refused e ↦ inl e
  | merged latency ↦ add_workers ws (add_worker w latency t)
]

-- `LoadPhaseResult`
pub record LoadPhaseResult : Type 0 where
  pub duration : ℕ
  pub workers : List WorkerResult
  pub cpu : ℕ
  pub parent_elu_pct : ℕ

pub record AggregatedLoadPhase : Type 0 where
  pub duration : ℕ
  pub totals : Totals
  pub average_per_second : ℕ × ℕ
  pub latency : Summary
  pub latency_snapshot : Snapshot
  pub error_total : ℕ
  pub mean_schedule_lag : Option (ℕ × ℕ)
  pub cpu : ℕ
  pub cpu_core_pct : ℕ × ℕ
  pub parent_elu_pct : ℕ
  pub mean_worker_elu_pct : ℕ × ℕ
  pub saturated : Bool

abbrev pub saturated_elu_pct : ℕ
saturated_elu_pct = 95

abbrev pub report : (ℕ → ℕ) → LoadPhaseResult → Totals → AggregatedLoadPhase
report midpoint phase t = record {
  duration = phase.duration;
  totals = t;
  average_per_second = (t.completed * 1000000, phase.duration);
  latency = summary midpoint t.latency;
  latency_snapshot = snapshot t.latency;
  error_total = t.errors.connection + t.errors.timeout + t.errors.protocol + t.errors.aborted;
  mean_schedule_lag =
      if ltb 0 t.scheduled_operations
      then some (t.schedule_lag_total, t.scheduled_operations)
      else none;
  cpu = phase.cpu;
  cpu_core_pct = if ltb 0 phase.duration then (phase.cpu * 100, phase.duration) else (0, 1);
  parent_elu_pct = phase.parent_elu_pct;
  mean_worker_elu_pct = (t.worker_elu_total_pct, length phase.workers);
  saturated = leb saturated_elu_pct t.max_worker_elu_pct;
}

-- Times are whole microseconds, and `bucket_count` is that of the default recorder.
unfoldable pub aggregate_load_phase :
    (ℕ → ℕ) → ℕ → LoadPhaseResult → SnapshotError ⊎ AggregatedLoadPhase
aggregate_load_phase midpoint bucket_count phase =
    elim (add_workers phase.workers (no_totals (empty default_config bucket_count))) [
      | inl e ↦ inl e
      | inr t ↦ inr (report midpoint phase t)
    ]
