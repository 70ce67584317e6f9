-- ===== src/Load/Coordinator/Run.antt =====
-- src/load/shared/load-coordinator.ts: the phases of a run and the messages that each waits for. An
-- error of a run is a stage of it. A message that no wait listens for is lost, and so is an exit; an
-- error that no wait listens for, which the platform throws, is left out. The waits that are pending
-- when a run ends have no one that looks at them, and are dropped.
use benchkit.Prelude.{
  ℕ, zero, suc, ltb, if◌then◌else◌, Bool, true, false, ◌&&◌, Option, none, some, List, [], ◌∷◌,
  ◌++◌, map, replicate, bind,
}
use benchkit.Load.Measurement.{WorkerResult}
use benchkit.Load.Worker.{Message, ready, warmup_complete, fatal, result}

pub data Expected : Type 0 where
  expects_ready expects_warmup expects_result : Expected

pub data Reason : Type 0 where
  timed_out worker_failed worker_error worker_exited aborted no_memory : Reason

pub data Outcome : Type 0 where
  pending : Outcome
  got : Message → Outcome
  refused : Reason → Outcome

-- `#waitForWorkerMessage`: its listeners are there while it is pending
pub record Wait : Type 0 where
  pub expected : Expected
  pub outcome : Outcome

abbrev pub matches : Expected → Message → Bool
matches expects_ready ready = true
matches expects_warmup warmup_complete = true
matches expects_result (result r) = true
matches _ _ = false

-- `onMessage` of a wait
abbrev pub hear : Expected → Message → Outcome
hear expected fatal = refused worker_failed
hear expected m = if matches expected m then got m else pending

abbrev pub hears_in : Outcome → Expected → Message → Outcome
hears_in pending expected m = hear expected m
hears_in o expected m = o

abbrev pub on_message : Message → Wait → Wait
on_message m w = record w { outcome = hears_in w.outcome w.expected m }

abbrev pub fails_in : Outcome → Reason → Outcome
fails_in pending reason = refused reason
fails_in o reason = o

-- `onError`, `onExit`, `onAbort` and the timer of a wait
abbrev pub on_failure : Reason → Wait → Wait
on_failure reason w = record w { outcome = fails_in w.outcome reason }

abbrev pub modify {ℓ} : {A : Type ℓ} → ℕ → (A → A) → List A → List A
modify i f [] = []
modify zero f (x ∷ xs) = f x ∷ xs
modify (suc i) f (x ∷ xs) = x ∷ modify i f xs

-- `run` waits for the workers to be ready, for the end of the warmup, and for the results
pub data Stage : Type 0 where
  starting warming measuring : Stage
  returned : List WorkerResult → Stage
  thrown : Reason → Stage

pub record Coordinator : Type 0 where
  pub stage : Stage
  pub waits : List Wait
  pub memory_started : Bool

pub data Call : Type 0 where
  -- `postMessage` of a start to all workers, of the warmup or the measurement
  starts_warmup starts_measurement : Call
  memory_starts memory_stops : Call
  terminates_workers : Call

abbrev pub waits_for : ℕ → Expected → List Wait
waits_for workers expected = replicate workers (record { expected = expected; outcome = pending })

-- `Promise.all`: the rejection of one, or the values of all
abbrev pub refusal_of : Outcome → Option Reason
refusal_of (refused reason) = some reason
refusal_of _ = none

abbrev pub refusal : List Wait → Option Reason
refusal [] = none
refusal (w ∷ ws) = elim (refusal_of w.outcome) [ some reason ↦ some reason | none ↦ refusal ws ]

abbrev pub is_got : Outcome → Bool
is_got (got m) = true
is_got _ = false

abbrev pub all_got : List Wait → Bool
all_got [] = true
all_got (w ∷ ws) = is_got w.outcome && all_got ws

abbrev pub result_in : Outcome → Option WorkerResult
result_in (got (result r)) = some r
result_in _ = none

abbrev pub results : List Wait → Option (List WorkerResult)
results [] = some []
results (w ∷ ws) = bind (result_in w.outcome) λ r. bind (results ws) λ rs. some (r ∷ rs)

-- the `finally` of `run`
abbrev pub finish : Stage → Coordinator → Coordinator × List Call
finish stage c = (
  record { stage = stage; waits = []; memory_started = false },
  (if c.memory_started then memory_stops ∷ [] else []) ++ terminates_workers ∷ [],
)

abbrev pub is_running : Stage → Bool
is_running (returned rs) = false
is_running (thrown reason) = false
is_running stage = true

-- what the worker threads, the timers and the signal bring
pub data Event : Type 0 where
  posts : ℕ → Message → Event
  errs exits times_out : ℕ → Event
  aborts : Event

abbrev pub reach : Event → List Wait → List Wait
reach (posts worker m) ws = modify worker (on_message m) ws
reach (errs worker) ws = modify worker (on_failure worker_error) ws
reach (exits worker) ws = modify worker (on_failure worker_exited) ws
reach (times_out worker) ws = modify worker (on_failure timed_out) ws
reach aborts ws = map (on_failure aborted) ws

module _ (workers warmup : ℕ) where
  -- `#runMeasurement` up to its wait
  abbrev pub begin_measurement : Coordinator → Coordinator × List Call
  begin_measurement c = (
    record { stage = measuring; waits = waits_for workers expects_result; memory_started = true },
    memory_starts ∷ starts_measurement ∷ [],
  )

  -- `#runWarmup` up to its wait, if there is a warmup
  abbrev pub begin_warmup : Coordinator → Coordinator × List Call
  begin_warmup c =
      if ltb 0 warmup
      then (
        record c { stage = warming; waits = waits_for workers expects_warmup },
        starts_warmup ∷ [],
      )
      else begin_measurement c

  -- `#runMeasurement` behind its wait; the first argument is whether the sampler has a result
  abbrev pub conclude : Bool → Option (List WorkerResult) → Coordinator → Coordinator × List Call
  conclude has_memory none c = (c, [])
  conclude has_memory (some rs) c =
      let stage : Stage = if has_memory then returned rs else thrown no_memory in
      let (c', calls) = finish stage (record c { memory_started = false }) in
      (c', memory_stops ∷ calls)

  -- what `run` does when all of its waits are over
  abbrev pub proceed : Bool → Stage → Coordinator → Coordinator × List Call
  proceed has_memory starting c = begin_warmup c
  proceed has_memory warming c = begin_measurement c
  proceed has_memory measuring c = conclude has_memory (results c.waits) c
  proceed has_memory stage c = (c, [])

  abbrev pub settle_with : Bool → Option Reason → Coordinator → Coordinator × List Call
  settle_with has_memory (some reason) c = finish (thrown reason) c
  settle_with has_memory none c = if all_got c.waits then proceed has_memory c.stage c else (c, [])

  unfoldable pub settle : Bool → Coordinator → Coordinator × List Call
  settle has_memory c =
      if is_running c.stage then settle_with has_memory (refusal c.waits) c else (c, [])

  -- `run` up to its first wait, of a signal that is aborted or not
  unfoldable pub begin : Bool → Coordinator
  begin is_aborted = record {
    stage = if is_aborted then thrown aborted else starting;
    waits = if is_aborted then [] else waits_for workers expects_ready;
    memory_started = false;
  }

  unfoldable pub step : Bool → Event → Coordinator → Coordinator × List Call
  step has_memory e c = settle has_memory (record c { waits = reach e c.waits })
