-- ===== src/Load/Coordinator/Tests.antt =====
-- src/load/shared/load-coordinator.ts: the theorems at a run of two workers.
use benchkit.Prelude.{ℕ, ◌<◌, ◌≡◌, true, List, [], ◌∷◌, length, arith, refl}
use benchkit.Memory.{MemoryUsage}
use benchkit.Load.Measurement.{WorkerResult, new, result_of}
use benchkit.Load.Worker.{ready, warmup_complete, result, fatal}
use benchkit.Load.Coordinator.Run.{
  expects_result, Event, posts, exits, thrown, worker_exited, step, settle, begin, measuring,
}
use benchkit.Load.Coordinator.Hears.{Reported}
use benchkit.Load.Coordinator.Order.{AllReady, after, run_hears_all}
use benchkit.Load.Coordinator.Silence.{IsAwaited, run_never_stuck}

abbrev usage : MemoryUsage
usage = record { rss = 1; heap_total = 2; heap_used = 3; external = 4; array_buffers = 5 }

abbrev first_result : WorkerResult
first_result = result_of 1000 0 50 usage (new 10)

abbrev second_result : WorkerResult
second_result = result_of 1002 3 60 usage (new 10)

-- The latest is first: the second worker is the first to be ready and to have a result.
abbrev whole_run : List Event
whole_run =
    posts 0 (result first_result)
    ∷ posts 1 (result second_result)
    ∷ posts 0 warmup_complete
    ∷ posts 1 warmup_complete
    ∷ posts 0 ready
    ∷ posts 1 ready
    ∷ []

run_hears_all_example :
    (length (first_result ∷ second_result ∷ []) ≡ 2)
    × Reported whole_run 0 (first_result ∷ second_result ∷ [])
    × AllReady 2 100 whole_run
unfolding after step settle begin
run_hears_all_example = run_hears_all 2 100 true whole_run

-- The second worker has posted its result, and the first has not.
abbrev late_run : List Event
late_run = posts 1 (result second_result) ∷ posts 0 ready ∷ posts 1 ready ∷ []

run_never_stuck_example :
    (i : ℕ) × (i < 2)
    × IsAwaited
        (posts 1 (result second_result) ∷ [])
        expects_result
        (after 2 0 true late_run).waits
        i
unfolding after step settle begin
run_never_stuck_example = run_never_stuck 2 0 true late_run (omega arith) refl

-- A worker that exits while the others are awaited ends the run.
exit_ends_run : (after 2 0 true (exits 0 ∷ late_run)).stage ≡ thrown worker_exited
unfolding after step settle begin
exit_ends_run = refl

-- The failure of a worker that was ready is not heard while another worker is awaited.
fatal_unheard :
    (after 2 0 true (posts 1 ready ∷ posts 0 fatal ∷ posts 0 ready ∷ [])).stage ≡ measuring
unfolding after step settle begin
fatal_unheard = refl
