-- ===== src/WebSocket/Worker/Tests.antt =====
-- src/load/shared/load-worker.ts with src/load/websocket: a measurement of two connections.
use benchkit.Prelude.{
  ℕ, ◌*◌, ◌/◌, ◌≡◌, refl, true, false, Option, none, some, List, [], ◌∷◌, Yields,
}
use benchkit.Timestamps
use benchkit.Memory
use benchkit.Memory.{MemoryUsage}
use benchkit.Load.Backpressure.{begin_backpressure, finish_backpressure}
use benchkit.Load.Measurement.{new, start, reset, finish}
use benchkit.Load.Worker.{Worker, idle_phase, heed, start_phase, end_phase}
use benchkit.Load.Worker.Traffic.{TrafficConnection, deliver, traffic}
use benchkit.Load.Worker.Tally.{flying}
use benchkit.Load.Worker.Conservation.{Reports, measurement_conserves}
use benchkit.WebSocket.Connection.{
  WorkerData, Connection, connect, schedule_reconnect, end_backpressure, poll_backpressure,
  start_backpressure, schedule_timeout, discard, send, fill, fill_closed_loop,
}
use benchkit.WebSocket.Connection
use benchkit.WebSocket.Connection.Handlers.{
  reset_phase_state, on_open, on_message, on_timeout_timer,
}
use benchkit.WebSocket.Connection.Validity.{IsValid}
use benchkit.WebSocket.Connection.History.{
  Event, timeout_timer, socket_opened, socket_message, Moment, handle, Fits, first, first-IsValid,
}
use benchkit.WebSocket.Worker.{traffic_connection, traffic_connection-IsTraffic}

abbrev settings : WorkerData
settings = record {
  max_in_flight = 2;
  max_buffered_bytes = 100;
  timeout = 5000;
  correct_coordinated_omission = true;
  payload_bytes = 7;
}

abbrev at_time : ℕ → Moment
at_time now = record {
  view = record {
    closed_loop_active = true;
    fixed_rate_active = false;
    recording_active = true;
    should_reconnect = true;
    stop_at = 100000;
  };
  answers = record {
    is_ready = λ n. true;
    accepts = λ n. true;
    buffered = λ n. n * 7;
    is_closing = false;
  };
  now = now;
}

abbrev ops : TrafficConnection Connection (Moment × Event)
ops = traffic_connection settings (at_time 1) (at_time 9000)

abbrev usage : MemoryUsage
usage = record { rss = 1; heap_total = 2; heap_used = 3; external = 4; array_buffers = 5 }

abbrev tens : ℕ → ℕ
tens n = n / 10

abbrev new_worker : Worker Connection
new_worker = record {
  fixed_rate = false;
  connection_count = 2;
  connections = first settings ∷ first settings ∷ [];
  connected = 0;
  ready_sent = false;
  phase = idle_phase;
  running = false;
  started_at = 0;
  stop_at = 0;
  stop_timer = false;
  rate_timer = false;
  memory_timer = false;
  phase_scheduled = 0;
  next_connection = 0;
  measurement = new 10;
  port_open = true;
}

-- the second connection sends two messages, of which none is answered in time
abbrev some_traffic : List (ℕ × (Moment × Event))
some_traffic =
    (0, (at_time 10, socket_opened 0))
    ∷ (1, (at_time 20, socket_opened 0))
    ∷ (0, (at_time 500, socket_message 0 (some 9)))
    ∷ (1, (at_time 5020, timeout_timer))
    ∷ []

abbrev worker_of : Option (Worker Connection) → Worker Connection
worker_of none = new_worker
worker_of (some w) = w

abbrev started_worker : Worker Connection
started_worker = worker_of (start_phase ops.phase tens 1 false 4 usage 100000 new_worker)

abbrev busy_worker : Worker Connection
busy_worker = worker_of (traffic ops tens some_traffic started_worker)

-- Its line opens what the run below computes with.
opened : Unit {0}
unfolding start_phase end_phase start reset finish heed deliver traffic handle connect
    schedule_reconnect end_backpressure poll_backpressure start_backpressure schedule_timeout
    discard send fill fill_closed_loop on_open on_message on_timeout_timer begin_backpressure
    finish_backpressure Timestamps.new Timestamps.push Timestamps.shift Timestamps.clear
    Timestamps.peek_timeout_start reset_phase_state Memory.start Memory.stop Connection.new
opened = tt

flying_test : flying ops.phase busy_worker.connections ≡ 2
unfolding opened
flying_test = refl

measurement_conserves_example :
    Yields
      (λ r. Reports (flying ops.phase busy_worker.connections) r.1)
      (end_phase ops.phase tens 9000 usage (λ n. n) busy_worker)
unfolding opened
measurement_conserves_example =
    measurement_conserves ops (IsValid settings) (λ e c. Fits settings e.0 e.1 c)
      (traffic_connection-IsTraffic settings (at_time 1) (at_time 9000)) tens 1 9000 4 usage usage
      100000 (λ n. n) some_traffic new_worker started_worker busy_worker
      ((first-IsValid settings).0, ((first-IsValid settings).0, tt)) refl refl
      (tt, (tt, (tt, (tt, tt)))) refl
