-- ===== src/Http1/Connection/History.antt =====
-- src/load/http1/http1-connection.ts: a connection over any sequence of events.
use benchkit.Prelude.{
  ℕ, ◌+◌, ◌≡◌, Bool, Option, none, some, List, [], ◌∷◌, ◌++◌, arith, bind, OnSome, OnSome-bind,
  OnSome_eq,
}
use benchkit.Load.Effects.{OwnerView, Effect, sent_in, answered_in, aborted_in, total, total-append}
use benchkit.Timestamps
use benchkit.Http1.Bytes.{Bytes}
use benchkit.Http1.Connection.{
  WorkerData, Connection, new, in_flight, connect, fill_closed_loop, schedule_operation,
  flush_scheduled_operations, on_data, on_connect, on_drain, on_timeout, on_error, on_close,
  on_reconnect_timer, reset_phase_state,
}
use benchkit.Http1.Connection.Neutral.{IsBalanced}
use benchkit.Http1.Connection.Accounting.{
  Balances, on_data-IsBalanced, on_connect-IsBalanced, on_drain-IsBalanced, on_close-IsBalanced,
  fill_closed_loop-IsBalanced, flush_scheduled_operations-IsBalanced,
}

-- A socket's event names its socket. `stop` is not an event: nothing follows it.
pub data Event : Type 0 where
  connects reconnect_timer : Event
  socket_connected : ℕ → Event
  socket_data : ℕ → Bytes → Event
  socket_drained : ℕ → Event
  socket_timed_out socket_failed : Event
  socket_closed : ℕ → Event
  fills flushes phase_resets : Event
  schedules : ℕ → Event

-- what an event finds: the owner's flags, the clock, and the socket's answers to writes
pub record Moment : Type 0 where
  pub view : OwnerView
  pub now : ℕ
  pub accepts : ℕ → Bool

abbrev pub without_calls : Option Connection → Option (Connection × List Effect)
without_calls none = none
without_calls (some c) = some (c, [])

-- `none` is an error thrown out of the handler.
unfoldable pub handle : WorkerData → Moment → Event → Connection → Option (Connection × List Effect)
handle d m connects c = some (connect c)
handle d m reconnect_timer c = some (on_reconnect_timer c)
handle d m (socket_connected s) c = on_connect d m.view m.now m.accepts s c
handle d m (socket_data s chunk) c = some (on_data d m.view m.now m.accepts s chunk c)
handle d m (socket_drained s) c = on_drain d m.view m.now m.accepts s c
handle d m socket_timed_out c = some (on_timeout c)
handle d m socket_failed c = some (on_error c)
handle d m (socket_closed s) c = some (on_close d m.view m.now s c)
handle d m fills c = fill_closed_loop d m.view m.now m.accepts c
handle d m flushes c = flush_scheduled_operations d m.view m.now m.accepts c
handle d m phase_resets c = some (reset_phase_state c, [])
handle d m (schedules at) c = without_calls (schedule_operation d m.view m.now at c)

unfoldable pub history :
    WorkerData → Connection → List (Moment × Event) → Option (Connection × List Effect)
history d c [] = some (c, [])
history d c ((m, e) ∷ es) =
    bind (handle d m e c) λ r. bind (history d r.0 es) λ r'. some (r'.0, r.1 ++ r'.1)

pub handle-IsBalanced :
    (d : WorkerData) (m : Moment) (e : Event) (c : Connection)
    → Balances d m.view m.now c (handle d m e c)
unfolding handle connect on_reconnect_timer on_timeout on_error reset_phase_state schedule_operation
handle-IsBalanced d m connects c = ground arith
handle-IsBalanced d m reconnect_timer c = ground arith
handle-IsBalanced d m (socket_connected s) c = on_connect-IsBalanced d m.view m.now m.accepts s c
handle-IsBalanced d m (socket_data s chunk) c =
    on_data-IsBalanced d m.view m.now m.accepts s chunk c
handle-IsBalanced d m (socket_drained s) c = on_drain-IsBalanced d m.view m.now m.accepts s c
handle-IsBalanced d m socket_timed_out c = ground arith
handle-IsBalanced d m socket_failed c = ground arith
handle-IsBalanced d m (socket_closed s) c = on_close-IsBalanced d m.view m.now s c
handle-IsBalanced d m fills c = fill_closed_loop-IsBalanced d m.view m.now m.accepts c
handle-IsBalanced d m flushes c = flush_scheduled_operations-IsBalanced d m.view m.now m.accepts c
handle-IsBalanced d m phase_resets c = ground arith
handle-IsBalanced d m (schedules at) c = ground arith

history-IsBalanced :
    (d : WorkerData) (c : Connection) (es : List (Moment × Event))
    → OnSome (IsBalanced (in_flight c)) (history d c es)
unfolding history
history-IsBalanced d c [] = omega arith
history-IsBalanced d c ((m, e) ∷ es) =
    OnSome-bind (IsBalanced (in_flight c)) _ (handle d m e c) _ (handle-IsBalanced d m e c) λ r h.
      OnSome-bind (IsBalanced (in_flight r.0)) _ (history d r.0 es) _ (history-IsBalanced d r.0 es)
        λ r' k. omega (
          arith,
          total-append sent_in r.1 r'.1,
          total-append answered_in r.1 r'.1,
          total-append aborted_in r.1 r'.1,
        )

-- Over any sequence of events from a new connection that throws nothing, each request that was sent
-- was answered once, was aborted by a closed connection, or is still in flight.
pub history_accounts :
    (d : WorkerData) (es : List (Moment × Event)) (c : Connection) (calls : List Effect)
    → history d (new d) es ≡ some (c, calls)
    → total sent_in calls ≡ total answered_in calls + total aborted_in calls + in_flight c
unfolding new Timestamps.new
history_accounts d es c calls e =
    let b =
      OnSome_eq (IsBalanced (in_flight (new d))) (history d (new d) es)
        (history-IsBalanced d (new d) es) e in
    omega (arith, b)
