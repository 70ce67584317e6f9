-- ===== src/Load/Measurement/Phases.antt =====
-- src/load/shared/load-worker-measurement.ts: a phase from its start to its result.
use benchkit.Prelude.{
  ℕ, ◌-◌, ◌≡◌, refl, sym, ap, ◌∙◌, some, List, [], ◌∷◌, length, length-replicate, arith, IsMaximum,
  map, ◌++◌, subst,
}
use benchkit.Latency.{
  Recorder, Latency, Config, default_config, empty, record_latency, record_all, snapshot,
}
use benchkit.Latency
use benchkit.Latency.Merge.{SameShape, record_all-SameShape}
use benchkit.Memory.{MemoryUsage, MemoryInterval, PeakTracker}
use benchkit.Memory
use benchkit.Memory.Peak.{at, heap_used, external, array_buffers, sample_all, stop-Reports}
use benchkit.Load.Measurement.{
  Measurement, WorkerResult, new, reset, start, finish, elu_pct_of, result_of,
}
use benchkit.Load.Measurement.Perform.{
  Recording, perform_all, latencies, samples, Counter, count_of, total, count-perform_all,
  latency-perform_all, memory-perform_all, sent_count, completed_count, sent_bytes, received_bytes,
  connection_errors, timeouts, protocol_errors, aborts, calls, events, wait, dropped, lag_total,
  scheduled, amounts, lags, peaks-perform_all, elu_before-perform_all,
}

start-new :
    (elu : ℕ) (usage : MemoryUsage) (n : ℕ) (m : Measurement)
    → m.latency.config ≡ default_config
    → length m.latency.counts ≡ n
    → start elu usage m ≡ start elu usage (new n)
unfolding start reset Latency.reset new Memory.start empty
start-new elu usage n m cfg len = ground (arith, cfg, len, length-replicate {A = ℕ} n 0)

latency-start-new :
    (elu : ℕ) (usage : MemoryUsage) (n : ℕ)
    → (start elu usage (new n)).latency ≡ empty default_config n
unfolding start reset Latency.reset new empty
latency-start-new elu usage n = ground (arith, length-replicate {A = ℕ} n 0)

-- What a phase's recorder is after its recordings.
latency-phase :
    (bucket_of : ℕ → ℕ) (n elu : ℕ) (usage : MemoryUsage) (xs : List Recording)
    → (perform_all bucket_of xs (start elu usage (new n))).latency
      ≡ record_all bucket_of (latencies xs) (empty default_config n)
latency-phase bucket_of n elu usage xs =
    latency-perform_all bucket_of xs (start elu usage (new n))
    ∙ ap (record_all bucket_of (latencies xs)) (latency-start-new elu usage n)

empty-shape :
    (n : ℕ)
    → SameShape (empty default_config n) (empty default_config n)
      × (length (empty default_config n).counts ≡ n)
unfolding empty
empty-shape n = ((refl, refl), length-replicate n 0)

config-empty : (n : ℕ) → (empty default_config n).config ≡ default_config
unfolding empty
config-empty n = refl

-- The measurement that starts after a warmup that was started and recorded anything is the one that
-- starts in a new worker.
pub warmup_discarded :
    (bucket_of : ℕ → ℕ) (n elu elu' : ℕ) (usage usage' : MemoryUsage) (warmup : List Recording)
    → start elu' usage' (perform_all bucket_of warmup (start elu usage (new n)))
      ≡ start elu' usage' (new n)
warmup_discarded bucket_of n elu elu' usage usage' warmup =
    let e = latency-phase bucket_of n elu usage warmup in
    let (cfg, len) = record_all-SameShape bucket_of (latencies warmup) (empty default_config n) in
    start-new elu' usage' n (perform_all bucket_of warmup (start elu usage (new n)))
      (ap (λ r. r.config) e ∙ (sym cfg ∙ config-empty n))
      (ap (λ r. length r.counts) e ∙ (sym len ∙ (empty-shape n).1))

-- the count of a result that a counter becomes
abbrev pub reported : Counter → WorkerResult → ℕ
reported sent_count r = r.sent
reported completed_count r = r.completed
reported sent_bytes r = r.bytes_sent
reported received_bytes r = r.bytes_received
reported connection_errors r = r.errors.connection
reported timeouts r = r.errors.timeout
reported protocol_errors r = r.errors.protocol
reported aborts r = r.errors.aborted
reported calls r = r.send_calls
reported events r = r.backpressure_events
reported wait r = r.backpressure_wait
reported dropped r = r.rate_dropped
reported lag_total r = r.schedule_lag_total
reported scheduled r = r.scheduled_operations

-- A result reports a sequence of recordings: each of its counts is the sum of theirs, its histogram is
-- that of their latencies, and its peaks are those of their amounts, lags and samples.
pub record IsResultOf (bucket_of : ℕ → ℕ) (n : ℕ) (first last : MemoryUsage) (xs : List Recording)
    (r : WorkerResult) : Type 0 where
  pub counts : (k : Counter) → reported k r ≡ total k xs
  pub latencies :
      r.latency_snapshot ≡ snapshot (record_all bucket_of (latencies xs) (empty default_config n))
  pub buffered_peak : IsMaximum r.buffered_amount_peak (0 ∷ amounts xs)
  pub lag_peak : IsMaximum r.max_schedule_lag (0 ∷ lags xs)
  pub heap : IsMaximum r.heap_used_peak (map (at heap_used) (first ∷ (samples xs ++ last ∷ [])))
  pub external : IsMaximum r.external_peak (map (at external) (first ∷ (samples xs ++ last ∷ [])))
  pub buffers :
      IsMaximum r.array_buffers_peak (map (at array_buffers) (first ∷ (samples xs ++ last ∷ [])))

count-start-new :
    (k : Counter) (elu : ℕ) (usage : MemoryUsage) (n : ℕ) → count_of k (start elu usage (new n)) ≡ 0
unfolding start reset new
count-start-new k elu usage n = ground arith

peaks-start-new :
    (elu : ℕ) (usage : MemoryUsage) (n : ℕ)
    → ((start elu usage (new n)).buffered_amount_peak ≡ 0)
      × ((start elu usage (new n)).max_schedule_lag ≡ 0)
unfolding start reset new
peaks-start-new elu usage n = (refl, refl)

elu_pct-phase :
    (bucket_of : ℕ → ℕ) (n elu : ℕ) (usage : MemoryUsage) (xs : List Recording) (elu_since : ℕ → ℕ)
    → elu_pct_of elu_since (perform_all bucket_of xs (start elu usage (new n))).elu_before
      ≡ elu_since elu
unfolding start
elu_pct-phase bucket_of n elu usage xs elu_since =
    ap (elu_pct_of elu_since) (elu_before-perform_all bucket_of xs (start elu usage (new n)))

memory-start-new :
    (elu : ℕ) (usage : MemoryUsage) (n : ℕ)
    → (start elu usage (new n)).memory ≡ Memory.start usage Memory.new
unfolding start reset new
memory-start-new elu usage n = refl

-- The result of a measurement whose tracker gives an interval.
finish-result_of :
    (now started_at in_flight : ℕ) (last : MemoryUsage) (elu_since : ℕ → ℕ) (m : Measurement)
    {i : MemoryInterval} {t : PeakTracker}
    → Memory.stop last m.memory ≡ (some i, t)
    → finish now started_at in_flight last elu_since m
      ≡ some (
        result_of (now - started_at) in_flight (elu_pct_of elu_since m.elu_before) i.peak m,
        record m { memory = t },
      )
unfolding finish
finish-result_of now started_at in_flight last elu_since m {i} {t} e = ground (arith, e)

reported-result_of :
    (k : Counter) (duration in_flight elu_pct : ℕ) (peak : MemoryUsage) (m : Measurement)
    → reported k (result_of duration in_flight elu_pct peak m) ≡ count_of k m
reported-result_of k duration in_flight elu_pct peak m = ground arith

-- A phase of a new worker that starts, records anything and finishes gives a result whose counts are
-- the sums of what was recorded, whose histogram is that of the recorded latencies, and whose peaks
-- are the greatest of the recorded amounts, lags and memory readings; with the time since the start,
-- the operations that were in flight, and the utilization since the reading at the start.
pub finish-IsResultOf :
    (bucket_of : ℕ → ℕ) (n elu : ℕ) (first last : MemoryUsage) (xs : List Recording)
    (now started_at in_flight : ℕ) (elu_since : ℕ → ℕ)
    → (r : WorkerResult) × (m : Measurement) × (finish now started_at in_flight last elu_since
          (perform_all bucket_of xs (start elu first (new n)))
        ≡ some (r, m))
      × IsResultOf bucket_of n first last xs r
      × (r.duration ≡ now - started_at)
      × (r.in_flight_at_stop ≡ in_flight)
      × (r.elu_pct ≡ elu_since elu)
finish-IsResultOf bucket_of n elu first last xs now started_at in_flight elu_since =
    let m = perform_all bucket_of xs (start elu first (new n)) in
    let (i, e, h) = stop-Reports Memory.new first last (samples xs) in
    let elu_pct = elu_pct_of elu_since m.elu_before in
    let memory =
      memory-perform_all bucket_of xs (start elu first (new n))
      ∙ ap (sample_all (samples xs)) (memory-start-new elu first n) in
    (
      result_of (now - started_at) in_flight elu_pct i.peak m,
      record m { memory = Memory.new },
      finish-result_of now started_at in_flight last elu_since m (ap (Memory.stop last) memory ∙ e),
      record {
        counts = λ k. omega (
          arith,
          reported-result_of k (now - started_at) in_flight elu_pct i.peak m,
          count-perform_all bucket_of k xs (start elu first (new n)),
          count-start-new k elu first n,
        );
        latencies = ap snapshot (latency-phase bucket_of n elu first xs);
        buffered_peak =
            subst (λ p. IsMaximum m.buffered_amount_peak (p ∷ amounts xs))
              (peaks-start-new elu first n).0
              (peaks-perform_all bucket_of xs (start elu first (new n))).0;
        lag_peak =
            subst (λ p. IsMaximum m.max_schedule_lag (p ∷ lags xs)) (peaks-start-new elu first n).1
              (peaks-perform_all bucket_of xs (start elu first (new n))).1;
        heap = h.peaks heap_used;
        external = h.peaks external;
        buffers = h.peaks array_buffers;
      },
      refl,
      refl,
      elu_pct-phase bucket_of n elu first xs elu_since,
    )
