-- ===== src/Load/Worker/Events.antt =====
-- src/load/shared/load-worker.ts: the events of a worker, and what they keep true.
use benchkit.Prelude.{
  ℕ, ◌+◌, ◌≤◌, ◌≡◌, Bool, true, false, not, Option, some, List, [], ◌∷◌, ◌++◌, bind,
}
use benchkit.Memory.{MemoryUsage}
use benchkit.Load.Worker.{
  WorkerPhase, warmup, measuring, finished, Message, ready, result, PhaseConnection, Worker,
  on_connected, on_idle, on_disconnected, fail, on_abort, on_start, end_phase,
}

-- Each event has the time at which it is handled.
pub data Event : Type 0 where
  connects disconnects idles : Event
  starts : Bool → ℕ → MemoryUsage → ℕ → Event
  ends : MemoryUsage → (ℕ → ℕ) → Event
  aborts fails : Event

abbrev pub is_active : WorkerPhase → Bool
is_active warmup = true
is_active measuring = true
is_active _ = false

abbrev pub is_finished : WorkerPhase → Bool
is_finished finished = true
is_finished _ = false

abbrev pub results_in : List Message → ℕ
results_in [] = 0
results_in (result r ∷ ms) = 1 + results_in ms
results_in (_ ∷ ms) = results_in ms

abbrev pub readies_in : List Message → ℕ
readies_in [] = 0
readies_in (ready ∷ ms) = 1 + readies_in ms
readies_in (_ ∷ ms) = readies_in ms

abbrev pub as_number : Bool → ℕ
as_number true = 1
as_number false = 0

-- A worker runs, and has timers, exactly in a warmup or a measurement, and its port is open until it
-- has finished.
pub record IsValid {C : Type 0} (w : Worker C) : Type 0 where
  pub runs : w.running ≡ is_active w.phase
  pub stop_timed : w.stop_timer ≡ w.running
  pub rate_timed : w.running ≡ false → w.rate_timer ≡ false
  pub memory_timed : w.memory_timer ≡ w.running
  pub port : w.port_open ≡ not (is_finished w.phase)

-- What a step may do: it keeps the worker valid, posts a result only when it closes the port, and
-- posts `ready` only when that had not been sent.
pub record Advances {C : Type 0} (w : Worker C) (r : Worker C × List Message) : Type 0 where
  pub valid : IsValid (r.0)
  pub closes :
      results_in r.1 + as_number (not (is_finished r.0.phase))
      ≤ as_number (not (is_finished w.phase))
  pub readies : readies_in r.1 + as_number (not r.0.ready_sent) ≡ as_number (not w.ready_sent)

module _ {C : Type 0} (ops : PhaseConnection C) (bucket_of : ℕ → ℕ) where
  unfoldable pub handle : ℕ → Event → Worker C → Option (Worker C × List Message)
  handle now connects w = some (on_connected ops w)
  handle now disconnects w = some (on_disconnected ops w)
  handle now idles w = some (on_idle ops w)
  handle now (starts is_warmup elu usage duration) w =
      some (on_start ops bucket_of now is_warmup elu usage duration w)
  handle now (ends usage elu_since) w = end_phase ops bucket_of now usage elu_since w
  handle now aborts w = some (on_abort ops bucket_of now w)
  handle now fails w = some (fail ops bucket_of now w)

  -- events one after another, up to an error that is thrown
  unfoldable pub run : List (ℕ × Event) → Worker C → Option (Worker C × List Message)
  run [] w = some (w, [])
  run ((now, e) ∷ es) w =
      bind (handle now e w) λ r. bind (run es r.0) λ r'. some (r'.0, r.1 ++ r'.1)
