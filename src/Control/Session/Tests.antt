-- ===== src/Control/Session/Tests.antt =====
-- src/target-provider/session.ts: the theorem at a concrete session.
use benchkit.Prelude.{◌+◌, ◌≤◌, ◌≡◌, true, false, List, [], ◌∷◌, refl}
use benchkit.Control.{measuring, stopping, stopped, failed, transition, can_transition}
use benchkit.Control.Session.{
  requests, closes, returns, throws, invalid_state, target_stop, metrics_start, new, Event,
  starts_metrics, stops, answers, closed, on_event, run, start_metrics, stop, on_answer, on_closed,
}
use benchkit.Control.Session.Stops.{Stops, awaiting, stop_requests, close_calls, target_stop_once}

-- A stop is called while the start of the metrics is awaited, and once more while the first waits.
abbrev some_events : List Event
some_events =
    starts_metrics
    ∷ stops
    ∷ stops
    ∷ answers true false 0
    ∷ answers true false 1
    ∷ closed true 1
    ∷ []

target_stop_once_example :
    Stops stopped (stop_requests (run some_events new).1) (awaiting (run some_events new).0.stages)
    × (stop_requests (run some_events new).1
        ≤ awaiting (run some_events new).0.stages + close_calls (run some_events new).1)
unfolding run on_event start_metrics stop on_answer on_closed transition can_transition
target_stop_once_example = target_stop_once some_events

-- The late start and the second stop are refused, and the first stop returns.
calls_of_stop :
    (run some_events new).1
    ≡ requests metrics_start 0
      ∷ requests target_stop 1
      ∷ throws 2 (
          invalid_state
            (record { current = stopping; requested = stopping; allowed = stopped ∷ failed ∷ [] }))
      ∷ throws 0 (
          invalid_state
            (record { current = stopping; requested = measuring; allowed = stopped ∷ failed ∷ [] }))
      ∷ closes 1
      ∷ returns 1
      ∷ []
unfolding run on_event start_metrics stop on_answer on_closed transition can_transition
calls_of_stop = refl
