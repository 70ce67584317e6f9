-- ===== src/WebSocket/Connection/Tests.antt =====
-- src/load/websocket/websocket-connection.ts: runs, and the theorems at concrete inputs.
use benchkit.Prelude.{
  ℕ, ◌+◌, ◌≤◌, ◌≡◌, refl, true, false, ltb, ◌||◌, Option, none, some, List, [], ◌∷◌, Yields, ◌*◌,
}
use benchkit.Timestamps
use benchkit.Load.Backpressure.{begin_backpressure, finish_backpressure}
use benchkit.Load.Effects.{
  Effect, sent_in, answered_in, aborted_in, total, opens, connected, message_sent, buffered_amount,
  message, idle, timed_out, disconnected, closed, closes, schedules_reconnect,
}
use benchkit.WebSocket.Connection.{
  WorkerData, Connection, new, in_flight, is_open, connect, schedule_reconnect, end_backpressure,
  poll_backpressure, start_backpressure, schedule_timeout, discard, send, fill, fill_closed_loop,
}
use benchkit.WebSocket.Connection.Handlers.{
  on_error, on_close, reset_phase_state, stop, on_reconnect_timer, on_open, on_message,
  on_timeout_timer, on_backpressure_timer, can_schedule_operation, schedule_operation,
}
use benchkit.WebSocket.Connection.Validity.{is_set}
use benchkit.WebSocket.Connection.History.{
  Event, reconnect_timer, timeout_timer, socket_opened, socket_closed, socket_message, Moment,
  handle, history, InOrder, first, messages_accounted, history-IsWatched,
}
use benchkit.WebSocket.Connection.Stopped.{stop_silences}

abbrev settings : WorkerData
settings = record {
  max_in_flight = 2;
  max_buffered_bytes = 100;
  timeout = 5000;
  correct_coordinated_omission = true;
  payload_bytes = 7;
}

-- a running closed loop, and a socket that takes everything
abbrev at_time : ℕ → Moment
at_time now = record {
  view = record {
    closed_loop_active = true;
    fixed_rate_active = false;
    recording_active = true;
    should_reconnect = true;
    stop_at = 1000000;
  };
  answers = record {
    is_ready = λ n. true;
    accepts = λ n. true;
    buffered = λ n. n * 7;
    is_closing = false;
  };
  now = now;
}

abbrev some_events : List (Moment × Event)
some_events =
    (at_time 10, socket_opened 0)
    ∷ (at_time 500, socket_message 0 (some 9))
    ∷ (at_time 5010, timeout_timer)
    ∷ (at_time 30010, reconnect_timer)
    ∷ (at_time 30020, socket_opened 1)
    ∷ (at_time 30030, socket_closed 0)
    ∷ []

abbrev calls_of : Option (Connection × List Effect) → List Effect
calls_of none = []
calls_of (some r) = r.1

run_test :
    calls_of (history settings (first settings) some_events)
    ≡ connected
      ∷ message_sent 7
      ∷ buffered_amount 7
      ∷ message_sent 7
      ∷ buffered_amount 14
      ∷ message 9 10
      ∷ idle
      ∷ message_sent 7
      ∷ buffered_amount 7
      ∷ timed_out
      ∷ disconnected
      ∷ closed 2
      ∷ idle
      ∷ closes 1001
      ∷ schedules_reconnect
      ∷ opens 1
      ∷ connected
      ∷ message_sent 7
      ∷ buffered_amount 7
      ∷ message_sent 7
      ∷ buffered_amount 14
      ∷ []
unfolding handle history connect new schedule_reconnect end_backpressure poll_backpressure
    start_backpressure schedule_timeout discard send fill fill_closed_loop on_error on_close
    reset_phase_state stop on_reconnect_timer on_open on_message on_timeout_timer
    on_backpressure_timer can_schedule_operation schedule_operation begin_backpressure
    finish_backpressure Timestamps.new Timestamps.push Timestamps.shift Timestamps.clear
    Timestamps.peek_timeout_start
run_test = refl

some_events-InOrder : InOrder settings (first settings) some_events
unfolding run_test
some_events-InOrder = (tt, (tt, (tt, (tt, (tt, (tt, tt))))))

messages_accounted_example :
    Yields
      (λ r. total sent_in r.1 ≡ total answered_in r.1 + total aborted_in r.1 + in_flight r.0)
      (history settings (first settings) some_events)
messages_accounted_example = messages_accounted settings some_events some_events-InOrder

history-IsWatched_example :
    Yields
      (λ r.
        (in_flight r.0 ≤ 2)
        × (is_set r.0.timeout_timer ≡ ltb 0 (in_flight r.0))
        × (r.0.backpressure_timer ≡ r.0.backpressure.backpressured)
        × ((is_open r.0.socket || r.0.reconnect_timer) ≡ true))
      (history settings (first settings) some_events)
history-IsWatched_example = history-IsWatched settings some_events some_events-InOrder

stop_silences_example :
    Yields
      (λ r.
        (r.1 ≡ [])
        × (in_flight r.0 ≡ 0)
        × (can_schedule_operation settings (at_time 9).view (at_time 9).answers 9 r.0 ≡ false))
      (history settings (stop (at_time 3).answers 3 (first settings)).0 some_events)
stop_silences_example =
    stop_silences settings (at_time 3).answers 3 (first settings) some_events (at_time 9)
      ((λ h. h), ((λ h. h), ((λ h. h), ((λ h. h), ((λ h. h), ((λ h. h), tt))))))
