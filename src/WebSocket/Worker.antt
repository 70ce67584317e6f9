-- ===== src/WebSocket/Worker.antt =====
-- src/load/websocket/websocket-load-worker.ts: the WebSocket connection as the load worker drives it.
-- The moments are those at which the worker fills it and stops it.
mod Tests
use benchkit.Prelude.{ℕ, ◌≡◌, Option, List, OnSome, some, Yields, none, arith}
use benchkit.Load.Effects.{Effect}
use benchkit.Load.Worker.{PhaseConnection}
use benchkit.Load.Worker.Traffic.{TrafficConnection, Conserves, IsTraffic}
use benchkit.WebSocket.Connection.{WorkerData, Connection, in_flight, fill_closed_loop}
use benchkit.WebSocket.Connection.Handlers.{reset_phase_state, stop}
use benchkit.WebSocket.Connection.Validity.{IsValid, Keeps}
use benchkit.WebSocket.Connection.Sending.{fill_closed_loop-Keeps}
use benchkit.WebSocket.Connection.Handled.{reset_phase_state-Keeps}
use benchkit.WebSocket.Connection.History.{Event, Moment, handle, Fits, handle-Keeps}

abbrev pub traffic_connection :
    WorkerData → Moment → Moment → TrafficConnection Connection (Moment × Event)
traffic_connection d filled stopped = record {
  phase = record {
    in_flight = λ c. in_flight c;
    reset_phase_state = reset_phase_state;
    fill_closed_loop = fill_closed_loop d filled.view filled.answers filled.now;
    stop = stop stopped.answers stopped.now;
  };
  step = λ e. handle d e.0 e.1;
  time = λ e. e.0.now;
}

Keeps-Conserves :
    (d : WorkerData) (n : ℕ) (o : Option (Connection × List Effect))
    → Yields (Keeps d n) o
    → Conserves (λ c. in_flight c) (IsValid d) n o
Keeps-Conserves d n none k = tt
Keeps-Conserves d n (some r) k = (k.valid, k.settled)

pub traffic_connection-IsTraffic :
    (d : WorkerData) (filled stopped : Moment)
    → IsTraffic (traffic_connection d filled stopped) (IsValid d) (λ e c. Fits d e.0 e.1 c)
traffic_connection-IsTraffic d filled stopped = record {
  steps = λ e c h f. Keeps-Conserves d _ _ (handle-Keeps d e.0 e.1 c h f);
  fills = λ c h.
      Keeps-Conserves d _ _ (fill_closed_loop-Keeps d filled.view filled.answers filled.now c h);
  resets =
      λ c h e. let k = reset_phase_state-Keeps d c h e in (k.valid, omega (arith, k.settled, e));
}
