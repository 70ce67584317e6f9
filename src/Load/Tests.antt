-- ===== src/Load/Tests.antt =====
-- src/load/shared: the theorems at concrete phases.
use benchkit.Prelude.{
  ℕ, ◌+◌, ◌*◌, ◌/◌, ◌≤◌, ◌<◌, ◌≡◌, ◌↔◌, refl, sym, subst, inr, true, false, some, List, [], ◌∷◌,
  arith, ◌⊎◌, Yields, ◌-◌,
}
use benchkit.Latency.{finite, empty, record_latency, snapshot, all_safe, counters}
use benchkit.Memory
use benchkit.Memory.{MemoryUsage}
use benchkit.Load.Measurement.{Measurement, WorkerResult, new, start, reset, finish}
use benchkit.Load.Measurement.Perform.{
  Recording, completed, sent, protocol_error, memory_sampled, perform_all,
}
use benchkit.Load.Measurement.Phases.{warmup_discarded, IsResultOf, finish-IsResultOf}
use benchkit.Load.Aggregate.{LoadPhaseResult, AggregatedLoadPhase, aggregate_load_phase}
use benchkit.Load.Aggregate.Runs.{
  Run, IsRun, all_recordings, Aggregates, aggregate_load_phase-Aggregates,
}
use benchkit.Load.Rate.{RateData, expected, sequence}
use benchkit.Load.Rate.Shares.{expected_iff, sequence_once}
use benchkit.Load.Worker.{
  PhaseConnection, Worker, Message, idle_phase, on_connected, on_start, start_phase, end_phase,
  on_abort,
}
use benchkit.Load.Worker.Events.{
  Event, connects, starts, ends, aborts, is_finished, results_in, readies_in, as_number, IsValid,
  handle, run,
}
use benchkit.Load.Worker.Total.{worker_posts_once}

abbrev tens : ℕ → ℕ
tens n = n / 10

abbrev middle : ℕ → ℕ
middle i = i * 10 + 5

abbrev usage : ℕ → MemoryUsage
usage heap = record { rss = 1; heap_total = 2; heap_used = heap; external = 3; array_buffers = 4 }

abbrev recordings : List Recording
recordings =
    sent 2 80 0
    ∷ completed (finite 12) 0
    ∷ memory_sampled (usage 9)
    ∷ protocol_error
    ∷ completed (finite 25) 0
    ∷ []

abbrev same : ℕ → ℕ
same n = n

warmup_discarded_example :
    start 4 (usage 6) (perform_all tens recordings (start 1 (usage 5) (new 10)))
    ≡ start 4 (usage 6) (new 10)
warmup_discarded_example = warmup_discarded tens 10 1 4 (usage 5) (usage 6) recordings

finish-IsResultOf_example :
    (r : WorkerResult) × (m : Measurement) × (finish 900 100 3
        (usage 7)
        same
        (perform_all tens recordings (start 1 (usage 5) (new 10)))
      ≡ some (r, m))
    × IsResultOf tens 10 (usage 5) (usage 7) recordings r
    × (r.duration ≡ 900 - 100)
    × (r.in_flight_at_stop ≡ 3)
    × (r.elu_pct ≡ same 1)
finish-IsResultOf_example =
    finish-IsResultOf tens 10 1 (usage 5) (usage 7) recordings 900 100 3 same

abbrev one_run : Run
one_run = record {
  recordings = recordings;
  first = usage 5;
  last = usage 7;
  result = finish-IsResultOf_example.0;
}

one_run-IsRun : IsRun tens 10 one_run
unfolding record_latency empty snapshot
one_run-IsRun =
    let h = finish-IsResultOf_example.3 in
    record { reports = h; safe = subst (λ s. all_safe (counters s) ≡ true) (sym h.latencies) refl }

abbrev two_workers : LoadPhaseResult
two_workers = record {
  duration = 800;
  workers = one_run.result ∷ one_run.result ∷ [];
  cpu = 70;
  parent_elu_pct = 10;
}

aggregate_load_phase-Aggregates_example :
    (a : AggregatedLoadPhase) × (aggregate_load_phase middle 10 two_workers ≡ inr a)
    × Aggregates tens middle 10 (all_recordings (one_run ∷ one_run ∷ [])) a
aggregate_load_phase-Aggregates_example =
    aggregate_load_phase-Aggregates tens middle 10 two_workers (one_run ∷ one_run ∷ [])
      (omega arith) refl (one_run-IsRun, (one_run-IsRun, tt))

abbrev third : RateData
third = record { rate = 1000; offset = 2; stride = 3 }

expected_iff_example : (1 < expected third 6) ↔ (sequence third 1 ≤ 6)
expected_iff_example = expected_iff third 6 1 (omega arith)

sequence_once_example :
    (i : ℕ) × (k : ℕ) × (i < 3)
    × (sequence (record { rate = 1000; offset = i; stride = 3 }) k ≡ 6)
    × ((j l : ℕ)
        → j < 3
        → sequence (record { rate = 1000; offset = j; stride = 3 }) l ≡ 6
        → (j ≡ i) × (l ≡ k))
sequence_once_example = sequence_once 1000 3 6 (omega arith) (omega arith)

-- a connection that is only a number of operations in flight
abbrev counted : PhaseConnection ℕ
counted = record {
  in_flight = same;
  reset_phase_state = same;
  fill_closed_loop = λ n. some (n + 1, []);
  stop = λ n. (0, []);
}

abbrev fresh : Worker ℕ
fresh = record {
  fixed_rate = false;
  connection_count = 1;
  connections = 0 ∷ [];
  connected = 0;
  ready_sent = false;
  phase = idle_phase;
  running = false;
  started_at = 0;
  stop_at = 0;
  stop_timer = false;
  rate_timer = false;
  memory_timer = false;
  phase_scheduled = 0;
  next_connection = 0;
  measurement = new 10;
  port_open = true;
}

fresh-IsValid : IsValid fresh
fresh-IsValid = record {
  runs = refl;
  stop_timed = refl;
  rate_timed = λ _. refl;
  memory_timed = refl;
  port = refl;
}

abbrev some_events : List (ℕ × Event)
some_events =
    (1, connects)
    ∷ (2, starts false 1 (usage 5) 100)
    ∷ (102, ends (usage 8) same)
    ∷ (103, aborts)
    ∷ []

worker_posts_once_example :
    (w' : Worker ℕ) × (ms : List Message) × (run counted tens some_events fresh ≡ some (w', ms))
    × IsValid w'
    × (results_in ms ≤ 1)
    × ((results_in ms ≡ 0) ⊎ (is_finished w'.phase ≡ true))
    × (readies_in ms ≡ as_number w'.ready_sent)
worker_posts_once_example = worker_posts_once counted tens some_events fresh fresh-IsValid refl refl

-- The worker of these events has posted a result.
one_result : Yields (λ r. results_in r.1 ≡ 1) (run counted tens some_events fresh)
unfolding run handle on_connected on_abort on_start start_phase end_phase start reset finish
    Memory.start Memory.stop
one_result = refl
