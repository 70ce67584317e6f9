-- ===== src/Http1/Worker.antt =====
-- src/load/http1/http1-load-worker.ts: the HTTP/1 connection as the load worker drives it. The moments
-- are those at which the worker fills it and stops it.
use benchkit.Prelude.{Option, List, none, some}
use benchkit.Load.Effects.{Effect}
use benchkit.Load.Worker.Traffic.{TrafficConnection, Conserves, IsTraffic}
use benchkit.Http1.Connection.{
  WorkerData, Connection, in_flight, fill_closed_loop, reset_phase_state, stop,
}
use benchkit.Http1.Connection.Accounting.{Balances, fill_closed_loop-IsBalanced}
use benchkit.Http1.Connection.History.{Event, Moment, handle, handle-IsBalanced}

abbrev pub traffic_connection :
    WorkerData → Moment → Moment → TrafficConnection Connection (Moment × Event)
traffic_connection d filled stopped = record {
  phase = record {
    in_flight = λ c. in_flight c;
    reset_phase_state = reset_phase_state;
    fill_closed_loop = fill_closed_loop d filled.view filled.now filled.accepts;
    stop = stop d stopped.view stopped.now;
  };
  step = λ e. handle d e.0 e.1;
  time = λ e. e.0.now;
}

abbrev pub Any : Connection → Type 0
Any c = Unit

Balances-Conserves :
    (d : WorkerData) (m : Moment) (c : Connection) (o : Option (Connection × List Effect))
    → Balances d m.view m.now c o
    → Conserves (λ c'. in_flight c') Any (in_flight c) o
Balances-Conserves d m c none k = tt
Balances-Conserves d m c (some r) k = (tt, k)

pub traffic_connection-IsTraffic :
    (d : WorkerData) (filled stopped : Moment)
    → IsTraffic (traffic_connection d filled stopped) Any (λ e c. Any c)
unfolding reset_phase_state
traffic_connection-IsTraffic d filled stopped = record {
  steps = λ e c h f. Balances-Conserves d e.0 c _ (handle-IsBalanced d e.0 e.1 c);
  fills = λ c h.
      Balances-Conserves d filled c _
        (fill_closed_loop-IsBalanced d filled.view filled.now filled.accepts c);
  resets = λ c h e. (tt, e);
}
