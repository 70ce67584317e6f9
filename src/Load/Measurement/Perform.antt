-- ===== src/Load/Measurement/Perform.antt =====
-- src/load/shared/load-worker-measurement.ts: any sequence of recordings, and what it adds up to.
use benchkit.Prelude.{ℕ, ◌+◌, ◌≡◌, refl, List, [], ◌∷◌, arith, IsMaximum, IsMaximum-max, inl}
use benchkit.Latency.{Latency, record_all}
use benchkit.Memory.{MemoryUsage}
use benchkit.Memory.Peak.{sample_all}
use benchkit.Load.Measurement.{
  Measurement, sample_memory, record_completed, record_sent, record_bytes_received,
  record_send_call, record_connection_error, record_timeout, record_protocol_error, record_aborted,
  record_backpressure, record_backpressure_wait, record_buffered_amount, record_rate_dropped,
  record_schedule_lag,
}

pub data Recording : Type 0 where
  memory_sampled : MemoryUsage → Recording
  completed : Latency → ℕ → Recording
  sent : ℕ → ℕ → ℕ → Recording
  bytes_received : ℕ → Recording
  send_call connection_error timeout protocol_error : Recording
  aborted : ℕ → Recording
  backpressure : Recording
  backpressure_wait : ℕ → Recording
  buffered_amount : ℕ → Recording
  rate_dropped : ℕ → Recording
  schedule_lag : ℕ → Recording

unfoldable pub perform : (ℕ → ℕ) → Recording → Measurement → Measurement
perform bucket_of (memory_sampled usage) m = sample_memory usage m
perform bucket_of (completed latency bytes) m = record_completed bucket_of latency bytes m
perform bucket_of (sent count bytes calls) m = record_sent count bytes calls m
perform bucket_of (bytes_received bytes) m = record_bytes_received bytes m
perform bucket_of send_call m = record_send_call m
perform bucket_of connection_error m = record_connection_error m
perform bucket_of timeout m = record_timeout m
perform bucket_of protocol_error m = record_protocol_error m
perform bucket_of (aborted count) m = record_aborted count m
perform bucket_of backpressure m = record_backpressure m
perform bucket_of (backpressure_wait duration) m = record_backpressure_wait duration m
perform bucket_of (buffered_amount bytes) m = record_buffered_amount bytes m
perform bucket_of (rate_dropped count) m = record_rate_dropped count m
perform bucket_of (schedule_lag lag) m = record_schedule_lag lag m

abbrev pub perform_all : (ℕ → ℕ) → List Recording → Measurement → Measurement
perform_all bucket_of [] m = m
perform_all bucket_of (x ∷ xs) m = perform_all bucket_of xs (perform bucket_of x m)

-- The latencies of a sequence, and its readings of the memory, in order.
abbrev pub latencies : List Recording → List Latency
latencies [] = []
latencies (completed latency bytes ∷ xs) = latency ∷ latencies xs
latencies (_ ∷ xs) = latencies xs

abbrev pub samples : List Recording → List MemoryUsage
samples [] = []
samples (memory_sampled usage ∷ xs) = usage ∷ samples xs
samples (_ ∷ xs) = samples xs

-- the buffered amounts and the lags that are recorded
abbrev pub amounts : List Recording → List ℕ
amounts [] = []
amounts (buffered_amount bytes ∷ xs) = bytes ∷ amounts xs
amounts (_ ∷ xs) = amounts xs

abbrev pub lags : List Recording → List ℕ
lags [] = []
lags (schedule_lag lag ∷ xs) = lag ∷ lags xs
lags (_ ∷ xs) = lags xs

-- the counters that recordings add to
pub data Counter : Type 0 where
  sent_count completed_count sent_bytes received_bytes : Counter
  connection_errors timeouts protocol_errors aborts : Counter
  calls events wait dropped lag_total scheduled : Counter

abbrev pub count_of : Counter → Measurement → ℕ
count_of sent_count m = m.sent
count_of completed_count m = m.completed
count_of sent_bytes m = m.bytes_sent
count_of received_bytes m = m.bytes_received
count_of connection_errors m = m.errors.connection
count_of timeouts m = m.errors.timeout
count_of protocol_errors m = m.errors.protocol
count_of aborts m = m.errors.aborted
count_of calls m = m.send_calls
count_of events m = m.backpressure_events
count_of wait m = m.backpressure_wait
count_of dropped m = m.rate_dropped
count_of lag_total m = m.schedule_lag_total
count_of scheduled m = m.scheduled_operations

-- What a recording is worth to a counter.
abbrev pub weight : Counter → Recording → ℕ
weight sent_count (sent count bytes made) = count
weight completed_count (completed latency bytes) = 1
weight sent_bytes (sent count bytes made) = bytes
weight received_bytes (completed latency bytes) = bytes
weight received_bytes (bytes_received bytes) = bytes
weight connection_errors connection_error = 1
weight timeouts timeout = 1
weight protocol_errors protocol_error = 1
weight aborts (aborted count) = count
weight calls (sent count bytes made) = made
weight calls send_call = 1
weight events backpressure = 1
weight wait (backpressure_wait duration) = duration
weight dropped (rate_dropped count) = count
weight lag_total (schedule_lag lag) = lag
weight scheduled (schedule_lag lag) = 1
weight _ _ = 0

abbrev pub total : Counter → List Recording → ℕ
total k [] = 0
total k (x ∷ xs) = weight k x + total k xs

count-perform :
    (bucket_of : ℕ → ℕ) (k : Counter) (x : Recording) (m : Measurement)
    → count_of k (perform bucket_of x m) ≡ count_of k m + weight k x
unfolding perform sample_memory record_completed record_sent record_bytes_received record_send_call
    record_connection_error record_timeout record_protocol_error record_aborted record_backpressure
    record_backpressure_wait record_buffered_amount record_rate_dropped record_schedule_lag
count-perform bucket_of k x m = ground arith

pub count-perform_all :
    (bucket_of : ℕ → ℕ) (k : Counter) (xs : List Recording) (m : Measurement)
    → count_of k (perform_all bucket_of xs m) ≡ count_of k m + total k xs
count-perform_all bucket_of k [] m = omega arith
count-perform_all bucket_of k (x ∷ xs) m =
    omega (
      arith,
      count-perform_all bucket_of k xs (perform bucket_of x m),
      count-perform bucket_of k x m,
    )

pub latency-perform_all :
    (bucket_of : ℕ → ℕ) (xs : List Recording) (m : Measurement)
    → (perform_all bucket_of xs m).latency ≡ record_all bucket_of (latencies xs) m.latency
unfolding perform sample_memory record_completed record_sent record_bytes_received record_send_call
    record_connection_error record_timeout record_protocol_error record_aborted record_backpressure
    record_backpressure_wait record_buffered_amount record_rate_dropped record_schedule_lag
latency-perform_all bucket_of [] m = refl
latency-perform_all bucket_of (x ∷ xs) m =
    ground (arith, latency-perform_all bucket_of xs (perform bucket_of x m))

pub memory-perform_all :
    (bucket_of : ℕ → ℕ) (xs : List Recording) (m : Measurement)
    → (perform_all bucket_of xs m).memory ≡ sample_all (samples xs) m.memory
unfolding perform sample_memory record_completed record_sent record_bytes_received record_send_call
    record_connection_error record_timeout record_protocol_error record_aborted record_backpressure
    record_backpressure_wait record_buffered_amount record_rate_dropped record_schedule_lag
memory-perform_all bucket_of [] m = refl
memory-perform_all bucket_of (x ∷ xs) m =
    ground (arith, memory-perform_all bucket_of xs (perform bucket_of x m))

-- The peak of the amounts goes on from the one before, and so does the greatest lag.
pub peaks-perform_all :
    (bucket_of : ℕ → ℕ) (xs : List Recording) (m : Measurement)
    → IsMaximum
        (perform_all bucket_of xs m).buffered_amount_peak
        (m.buffered_amount_peak ∷ amounts xs)
      × IsMaximum (perform_all bucket_of xs m).max_schedule_lag (m.max_schedule_lag ∷ lags xs)
unfolding perform sample_memory record_completed record_sent record_bytes_received record_send_call
    record_connection_error record_timeout record_protocol_error record_aborted record_backpressure
    record_backpressure_wait record_buffered_amount record_rate_dropped record_schedule_lag
peaks-perform_all bucket_of [] m = (
  record { bounds = (omega arith, tt); occurs = inl refl },
  record { bounds = (omega arith, tt); occurs = inl refl },
)
peaks-perform_all bucket_of (buffered_amount bytes ∷ xs) m =
    let after = perform bucket_of (buffered_amount bytes) m in
    let rest = peaks-perform_all bucket_of xs after in
    (
      IsMaximum-max (perform_all bucket_of xs after).buffered_amount_peak m.buffered_amount_peak
          bytes (amounts xs) rest.0,
      rest.1,
    )
peaks-perform_all bucket_of (schedule_lag lag ∷ xs) m =
    let after = perform bucket_of (schedule_lag lag) m in
    let rest = peaks-perform_all bucket_of xs after in
    (
      rest.0,
      IsMaximum-max (perform_all bucket_of xs after).max_schedule_lag m.max_schedule_lag lag
          (lags xs) rest.1,
    )
peaks-perform_all bucket_of (memory_sampled usage ∷ xs) m =
    peaks-perform_all bucket_of xs (perform bucket_of (memory_sampled usage) m)
peaks-perform_all bucket_of (completed latency bytes ∷ xs) m =
    peaks-perform_all bucket_of xs (perform bucket_of (completed latency bytes) m)
peaks-perform_all bucket_of (sent count bytes made ∷ xs) m =
    peaks-perform_all bucket_of xs (perform bucket_of (sent count bytes made) m)
peaks-perform_all bucket_of (bytes_received bytes ∷ xs) m =
    peaks-perform_all bucket_of xs (perform bucket_of (bytes_received bytes) m)
peaks-perform_all bucket_of (send_call ∷ xs) m =
    peaks-perform_all bucket_of xs (perform bucket_of send_call m)
peaks-perform_all bucket_of (connection_error ∷ xs) m =
    peaks-perform_all bucket_of xs (perform bucket_of connection_error m)
peaks-perform_all bucket_of (timeout ∷ xs) m =
    peaks-perform_all bucket_of xs (perform bucket_of timeout m)
peaks-perform_all bucket_of (protocol_error ∷ xs) m =
    peaks-perform_all bucket_of xs (perform bucket_of protocol_error m)
peaks-perform_all bucket_of (aborted count ∷ xs) m =
    peaks-perform_all bucket_of xs (perform bucket_of (aborted count) m)
peaks-perform_all bucket_of (backpressure ∷ xs) m =
    peaks-perform_all bucket_of xs (perform bucket_of backpressure m)
peaks-perform_all bucket_of (backpressure_wait duration ∷ xs) m =
    peaks-perform_all bucket_of xs (perform bucket_of (backpressure_wait duration) m)
peaks-perform_all bucket_of (rate_dropped count ∷ xs) m =
    peaks-perform_all bucket_of xs (perform bucket_of (rate_dropped count) m)

pub elu_before-perform_all :
    (bucket_of : ℕ → ℕ) (xs : List Recording) (m : Measurement)
    → (perform_all bucket_of xs m).elu_before ≡ m.elu_before
unfolding perform sample_memory record_completed record_sent record_bytes_received record_send_call
    record_connection_error record_timeout record_protocol_error record_aborted record_backpressure
    record_backpressure_wait record_buffered_amount record_rate_dropped record_schedule_lag
elu_before-perform_all bucket_of [] m = refl
elu_before-perform_all bucket_of (x ∷ xs) m =
    ground (arith, elu_before-perform_all bucket_of xs (perform bucket_of x m))
