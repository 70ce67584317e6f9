-- ===== src/Load/Worker.antt =====
-- src/load/shared/load-worker.ts: the phases of a load worker. A connection is of any type with the
-- operations that a phase calls; `none` is an error that one of them throws, which `#onMessage`
-- catches by `fail`. An operation returns the worker and the messages that it posts, in order.
pub mod Events
pub mod Advances
pub mod Phases
pub mod Total
pub mod Traffic
pub mod Tally
pub mod Conservation
use benchkit.Prelude.{
  ℕ, ◌+◌, ◌-◌, ◌==◌, ltb, if◌then◌else◌, Bool, true, false, not, ◌&&◌, ◌||◌, Option, none, some,
  List, [], ◌∷◌, ◌++◌, map, bind,
}
use benchkit.Latency.{Latency, finite}
use benchkit.Memory.{MemoryUsage}
use benchkit.Load.Effects.{
  Effect, message, message_sent, connected, disconnected, idle, closed, response, bytes_read,
  protocol_error, timed_out, connection_error, requests_sent, socket_write, scheduled_operation,
  buffered_amount, backpressure_started, backpressure_ended,
}
use benchkit.Load.Measurement.{
  Measurement, WorkerResult, start, finish, record_completed, record_sent, record_bytes_received,
  record_send_call, record_connection_error, record_timeout, record_protocol_error, record_aborted,
  record_backpressure, record_backpressure_wait, record_buffered_amount, record_schedule_lag,
}

pub data WorkerPhase : Type 0 where
  idle_phase warmup warmup_draining measuring finished : WorkerPhase

-- `LoadWorkerMessage`; a fatal error's text is left out.
pub data Message : Type 0 where
  ready warmup_complete fatal : Message
  result : WorkerResult → Message

pub record PhaseConnection (C : Type 0) : Type 0 where
  pub in_flight : C → ℕ
  pub reset_phase_state : C → C
  pub fill_closed_loop : C → Option (C × List Effect)
  pub stop : C → C × List Effect

-- `fixed_rate` is whether `ratePerSecond` is given, `connection_count` is `data.connections`.
pub record Worker (C : Type 0) : Type 0 where
  pub fixed_rate : Bool
  pub connection_count : ℕ
  pub connections : List C
  pub connected : ℕ
  pub ready_sent : Bool
  pub phase : WorkerPhase
  pub running : Bool
  pub started_at : ℕ
  pub stop_at : ℕ
  pub stop_timer : Bool
  pub rate_timer : Bool
  pub memory_timer : Bool
  pub phase_scheduled : ℕ
  pub next_connection : ℕ
  pub measurement : Measurement
  pub port_open : Bool

abbrev pub is_idle : WorkerPhase → Bool
is_idle idle_phase = true
is_idle _ = false

abbrev pub is_draining : WorkerPhase → Bool
is_draining warmup_draining = true
is_draining _ = false

-- What the callbacks of the worker and of the HTTP/1 and WebSocket workers record of a connection's
-- call, as `recordingActive` is. The status codes that HTTP/1 counts besides are left out.
unfoldable pub heed : (ℕ → ℕ) → Bool → ℕ → Effect → Measurement → Measurement
heed bucket_of active now (response status sent_at) m =
    if active then record_completed bucket_of (finite (now - sent_at)) 0 m else m
heed bucket_of active now (bytes_read bytes) m = if active then record_bytes_received bytes m else m
heed bucket_of active now (requests_sent count bytes) m =
    if active then record_sent count bytes 0 m else m
heed bucket_of active now socket_write m = if active then record_send_call m else m
heed bucket_of active now connection_error m = if active then record_connection_error m else m
heed bucket_of active now timed_out m = if active then record_timeout m else m
heed bucket_of active now protocol_error m = if active then record_protocol_error m else m
heed bucket_of active now (scheduled_operation lag) m =
    if active then record_schedule_lag lag m else m
heed bucket_of active now (buffered_amount bytes) m =
    if active then record_buffered_amount bytes m else m
heed bucket_of active now backpressure_started m = if active then record_backpressure m else m
heed bucket_of active now (backpressure_ended duration) m = record_backpressure_wait duration m
heed bucket_of active now (closed count) m =
    if active && ltb 0 count then record_aborted count m else m
heed bucket_of active now (message bytes sent_at) m =
    if active then record_completed bucket_of (finite (now - sent_at)) bytes m else m
heed bucket_of active now (message_sent bytes) m = if active then record_sent 1 bytes 1 m else m
heed bucket_of active now _ m = m

abbrev pub heed_all : (ℕ → ℕ) → Bool → ℕ → List Effect → Measurement → Measurement
heed_all bucket_of active now [] m = m
heed_all bucket_of active now (e ∷ es) m =
    heed_all bucket_of active now es (heed bucket_of active now e m)

module _ {C : Type 0} (ops : PhaseConnection C) where
  -- `onConnectionConnected`
  unfoldable pub on_connected : Worker C → Worker C × List Message
  on_connected w =
      let n = w.connected + 1 in
      if not w.ready_sent && n == w.connection_count
      then (record w { connected = n; ready_sent = true }, ready ∷ [])
      else (record w { connected = n }, [])

  -- `#totalInFlight`
  abbrev pub total_in_flight : List C → ℕ
  total_in_flight [] = 0
  total_in_flight (c ∷ cs) = ops.in_flight c + total_in_flight cs

  -- `#maybeCompleteWarmup`
  unfoldable pub maybe_complete_warmup : Worker C → Worker C × List Message
  maybe_complete_warmup w =
      if not (is_draining w.phase) || not (total_in_flight w.connections == 0) then (w, []) else (
        record w { connections = map ops.reset_phase_state w.connections; phase = idle_phase },
        warmup_complete ∷ [],
      )

  -- `onConnectionIdle`
  abbrev pub on_idle : Worker C → Worker C × List Message
  on_idle w = if is_draining w.phase then maybe_complete_warmup w else (w, [])

  -- `onConnectionDisconnected`
  unfoldable pub on_disconnected : Worker C → Worker C × List Message
  on_disconnected w = on_idle (record w { connected = w.connected - 1 })

  -- `#clearPhaseTimers`
  abbrev pub clear_phase_timers : Worker C → Worker C
  clear_phase_timers w = record w { stop_timer = false; rate_timer = false; memory_timer = false }

  abbrev pub stop_each : List C → List C × List Effect
  stop_each [] = ([], [])
  stop_each (c ∷ cs) =
      let (c', es) = ops.stop c in let (cs', es') = stop_each cs in (c' ∷ cs', es ++ es')

  abbrev pub fill_each : List C → Option (List C × List Effect)
  fill_each [] = some ([], [])
  fill_each (c ∷ cs) =
      bind (ops.fill_closed_loop c) λ r. bind (fill_each cs) λ r'. some (r.0 ∷ r'.0, r.1 ++ r'.1)

  module _ (bucket_of : ℕ → ℕ) (now : ℕ) where
    -- `#stopConnections`
    abbrev pub stop_connections : Worker C → Worker C
    stop_connections w =
        let (cs, es) = stop_each w.connections in
        record w {
          connections = cs;
          measurement = heed_all bucket_of w.running now es w.measurement;
        }

    -- what `fail` and an abort have in common
    abbrev pub shut_down : Worker C → Worker C
    shut_down w =
        record (stop_connections
          (clear_phase_timers (record w { phase = finished; running = false }))) {
            port_open = false;
          }

    unfoldable pub fail : Worker C → Worker C × List Message
    fail w = (shut_down w, fatal ∷ [])

    -- `#onMessage` of an abort
    unfoldable pub on_abort : Worker C → Worker C × List Message
    on_abort w = (shut_down w, [])

    -- the part of `#startPhase` that both phases share, behind its test
    abbrev pub running_from : ℕ → MemoryUsage → ℕ → Worker C → Worker C
    running_from elu usage duration w = record w {
      measurement = start elu usage w.measurement;
      memory_timer = true;
      running = true;
      started_at = now;
      stop_at = now + duration;
      phase_scheduled = 0;
      next_connection = 0;
    }

    abbrev pub entered : Bool → Worker C → Worker C
    entered true w = record w { phase = warmup }
    entered false w = record w {
      connections = map ops.reset_phase_state w.connections;
      phase = measuring;
    }

    abbrev pub driven : Worker C → Option (Worker C)
    driven w =
        if w.fixed_rate
        then some (record w { rate_timer = true })
        else bind (fill_each w.connections) λ r. some (record w {
          connections = r.0;
          measurement = heed_all bucket_of true now r.1 w.measurement;
        })

    -- `#startPhase`; the first argument is whether the phase is the warmup.
    unfoldable pub start_phase : Bool → ℕ → MemoryUsage → ℕ → Worker C → Option (Worker C)
    start_phase is_warmup elu usage duration w =
        if not (is_idle w.phase)
        then none
        else bind (driven (running_from elu usage duration (entered is_warmup w)))
            λ w'. some (record w' { stop_timer = true })

    -- the `catch` of `#onMessage`; what a start that throws has done before is left out
    abbrev pub or_fail : Option (Worker C) → Worker C → Worker C × List Message
    or_fail none w = fail w
    or_fail (some w') w = (w', [])

    -- `#onMessage` of a start
    unfoldable pub on_start : Bool → ℕ → MemoryUsage → ℕ → Worker C → Worker C × List Message
    on_start is_warmup elu usage duration w = or_fail (start_phase is_warmup elu usage duration w) w

    -- the end of a measurement: `none` is the error that `finish` throws
    abbrev pub concluded : MemoryUsage → (ℕ → ℕ) → Worker C → Option (Worker C × List Message)
    concluded usage elu_since w =
        let flying = total_in_flight w.connections in
        let w' = stop_connections (record w { phase = finished }) in
        bind (finish now w.started_at flying usage elu_since w'.measurement)
          λ r. some (record w' { measurement = r.1; port_open = false }, result r.0 ∷ [])

    -- what `#endPhase` has done before it looks at the phase
    abbrev pub halted : Worker C → Worker C
    halted w = clear_phase_timers (record w { running = false })

    abbrev pub ended_in :
        MemoryUsage → (ℕ → ℕ) → WorkerPhase → Worker C → Option (Worker C × List Message)
    ended_in usage elu_since warmup w =
        some (maybe_complete_warmup (record (halted w) { phase = warmup_draining }))
    ended_in usage elu_since measuring w = concluded usage elu_since (halted w)
    ended_in usage elu_since _ w = some (w, [])

    -- `#endPhase`
    unfoldable pub end_phase : MemoryUsage → (ℕ → ℕ) → Worker C → Option (Worker C × List Message)
    end_phase usage elu_since w = ended_in usage elu_since w.phase w
