-- ===== src/Load/Measurement.antt =====
-- src/load/shared/load-worker-measurement.ts and the records of src/load/shared/load-worker-protocol.ts:
-- what a worker counts. Times are whole microseconds. The event loop's utilization is the platform's:
-- a reading is a number, and what `eventLoopUtilization` answers for an earlier one is an argument.
pub mod Perform
pub mod Phases
use benchkit.Prelude.{ℕ, zero, suc, ◌+◌, ◌-◌, max, Option, none, some, List, [], ◌∷◌}
use benchkit.Latency.{Recorder, Snapshot, Latency, default_config, empty, record_latency, snapshot}
use benchkit.Latency
use benchkit.Memory.{MemoryUsage, MemoryInterval, PeakTracker}
use benchkit.Memory

-- `LoadWorkerErrorMetrics`
pub record ErrorMetrics : Type 0 where
  pub connection : ℕ
  pub timeout : ℕ
  pub protocol : ℕ
  pub aborted : ℕ

abbrev pub no_errors : ErrorMetrics
no_errors = record { connection = 0; timeout = 0; protocol = 0; aborted = 0 }

pub record Measurement : Type 0 where
  pub latency : Recorder
  pub memory : PeakTracker
  pub errors : ErrorMetrics
  pub sent : ℕ
  pub completed : ℕ
  pub bytes_sent : ℕ
  pub bytes_received : ℕ
  pub send_calls : ℕ
  pub backpressure_events : ℕ
  pub backpressure_wait : ℕ
  pub buffered_amount_peak : ℕ
  pub rate_dropped : ℕ
  pub schedule_lag_total : ℕ
  pub max_schedule_lag : ℕ
  pub scheduled_operations : ℕ
  pub elu_before : Option ℕ

-- `LoadWorkerResult`
pub record WorkerResult : Type 0 where
  pub duration : ℕ
  pub sent : ℕ
  pub completed : ℕ
  pub bytes_sent : ℕ
  pub bytes_received : ℕ
  pub errors : ErrorMetrics
  pub latency_snapshot : Snapshot
  pub send_calls : ℕ
  pub backpressure_events : ℕ
  pub backpressure_wait : ℕ
  pub buffered_amount_peak : ℕ
  pub in_flight_at_stop : ℕ
  pub rate_dropped : ℕ
  pub schedule_lag_total : ℕ
  pub max_schedule_lag : ℕ
  pub scheduled_operations : ℕ
  pub elu_pct : ℕ
  pub heap_used_peak : ℕ
  pub external_peak : ℕ
  pub array_buffers_peak : ℕ

-- The number of buckets of the default recorder is a quotient of logarithms, an argument.
unfoldable pub new : ℕ → Measurement
new bucket_count = record {
  latency = empty default_config bucket_count;
  memory = Memory.new;
  errors = no_errors;
  sent = 0;
  completed = 0;
  bytes_sent = 0;
  bytes_received = 0;
  send_calls = 0;
  backpressure_events = 0;
  backpressure_wait = 0;
  buffered_amount_peak = 0;
  rate_dropped = 0;
  schedule_lag_total = 0;
  max_schedule_lag = 0;
  scheduled_operations = 0;
  elu_before = none;
}

-- `#reset`
unfoldable pub reset : Measurement → Measurement
reset m = record m {
  latency = Latency.reset m.latency;
  errors = no_errors;
  sent = 0;
  completed = 0;
  bytes_sent = 0;
  bytes_received = 0;
  send_calls = 0;
  backpressure_events = 0;
  backpressure_wait = 0;
  buffered_amount_peak = 0;
  rate_dropped = 0;
  schedule_lag_total = 0;
  max_schedule_lag = 0;
  scheduled_operations = 0;
}

unfoldable pub start : ℕ → MemoryUsage → Measurement → Measurement
start elu usage m =
    let m' = reset m in record m' { elu_before = some elu; memory = Memory.start usage m'.memory }

unfoldable pub sample_memory : MemoryUsage → Measurement → Measurement
sample_memory usage m = record m { memory = Memory.sample usage m.memory }

unfoldable pub record_completed : (ℕ → ℕ) → Latency → ℕ → Measurement → Measurement
record_completed bucket_of latency bytes m = record m {
  completed = m.completed + 1;
  bytes_received = m.bytes_received + bytes;
  latency = record_latency bucket_of latency m.latency;
}

unfoldable pub record_sent : ℕ → ℕ → ℕ → Measurement → Measurement
record_sent count bytes calls m = record m {
  sent = m.sent + count;
  bytes_sent = m.bytes_sent + bytes;
  send_calls = m.send_calls + calls;
}

unfoldable pub record_bytes_received : ℕ → Measurement → Measurement
record_bytes_received bytes m = record m { bytes_received = m.bytes_received + bytes }

unfoldable pub record_send_call : Measurement → Measurement
record_send_call m = record m { send_calls = m.send_calls + 1 }

unfoldable pub record_connection_error : Measurement → Measurement
record_connection_error m = record m {
  errors = record (m.errors) { connection = m.errors.connection + 1 };
}

unfoldable pub record_timeout : Measurement → Measurement
record_timeout m = record m { errors = record (m.errors) { timeout = m.errors.timeout + 1 } }

unfoldable pub record_protocol_error : Measurement → Measurement
record_protocol_error m = record m {
  errors = record (m.errors) { protocol = m.errors.protocol + 1 };
}

unfoldable pub record_aborted : ℕ → Measurement → Measurement
record_aborted count m = record m {
  errors = record (m.errors) { aborted = m.errors.aborted + count };
}

unfoldable pub record_backpressure : Measurement → Measurement
record_backpressure m = record m { backpressure_events = m.backpressure_events + 1 }

unfoldable pub record_backpressure_wait : ℕ → Measurement → Measurement
record_backpressure_wait duration m = record m {
  backpressure_wait = m.backpressure_wait + duration;
}

unfoldable pub record_buffered_amount : ℕ → Measurement → Measurement
record_buffered_amount bytes m = record m {
  buffered_amount_peak = max m.buffered_amount_peak bytes;
}

unfoldable pub record_rate_dropped : ℕ → Measurement → Measurement
record_rate_dropped count m = record m { rate_dropped = m.rate_dropped + count }

unfoldable pub record_schedule_lag : ℕ → Measurement → Measurement
record_schedule_lag lag m = record m {
  schedule_lag_total = m.schedule_lag_total + lag;
  max_schedule_lag = max m.max_schedule_lag lag;
  scheduled_operations = m.scheduled_operations + 1;
}

abbrev pub elu_pct_of : (ℕ → ℕ) → Option ℕ → ℕ
elu_pct_of elu_since none = 0
elu_pct_of elu_since (some before) = elu_since before

abbrev pub result_of : ℕ → ℕ → ℕ → MemoryUsage → Measurement → WorkerResult
result_of duration in_flight elu_pct peak m = record {
  duration = duration;
  sent = m.sent;
  completed = m.completed;
  bytes_sent = m.bytes_sent;
  bytes_received = m.bytes_received;
  errors = m.errors;
  latency_snapshot = snapshot m.latency;
  send_calls = m.send_calls;
  backpressure_events = m.backpressure_events;
  backpressure_wait = m.backpressure_wait;
  buffered_amount_peak = m.buffered_amount_peak;
  in_flight_at_stop = in_flight;
  rate_dropped = m.rate_dropped;
  schedule_lag_total = m.schedule_lag_total;
  max_schedule_lag = m.max_schedule_lag;
  scheduled_operations = m.scheduled_operations;
  elu_pct = elu_pct;
  heap_used_peak = peak.heap_used;
  external_peak = peak.external;
  array_buffers_peak = peak.array_buffers;
}

-- `none` is the thrown 'load worker memory peak tracker did not produce a result'.
unfoldable pub finish :
    ℕ → ℕ → ℕ → MemoryUsage → (ℕ → ℕ) → Measurement → Option (WorkerResult × Measurement)
finish now started_at in_flight usage elu_since m =
    let (reported, memory) = Memory.stop usage m.memory in
    elim reported [
      | none ↦ none
      | some i ↦ some (
        result_of (now - started_at) in_flight (elu_pct_of elu_since m.elu_before) i.peak m,
        record m { memory = memory },
      )
    ]
