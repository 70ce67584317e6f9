-- ===== src/WebSocket/Connection/History.antt =====
-- src/load/websocket/websocket-connection.ts: a connection over any sequence of events.
use benchkit.Prelude.{
  ℕ, ◌+◌, ◌≤◌, ◌≡◌, refl, true, ltb, ◌||◌, Option, none, some, List, [], ◌∷◌, ◌++◌, arith, bind,
  OnSome, Yields, Yields-bind, length-replicate, Yields-map,
}
use benchkit.Timestamps
use benchkit.Timestamps.Invariant.{new-IsValid}
use benchkit.Load.Effects.{
  OwnerView, Effect, Settles-append, sent_in, answered_in, aborted_in, total,
}
use benchkit.WebSocket.Connection.{
  WorkerData, Connection, Answers, new, in_flight, is_open, connect, fill_closed_loop,
}
use benchkit.WebSocket.Connection.Handlers.{
  on_error, on_close, reset_phase_state, on_reconnect_timer, on_open, on_message, on_timeout_timer,
  on_backpressure_timer, can_schedule_operation, schedule_operation,
}
use benchkit.WebSocket.Connection.Validity.{is_set, IsValid, Keeps}
use benchkit.WebSocket.Connection.Sending.{fill_closed_loop-Keeps}
use benchkit.WebSocket.Connection.Handled.{
  connect-Keeps, on_reconnect_timer-Keeps, on_error-Keeps, on_close-Keeps, reset_phase_state-Keeps,
  on_open-Keeps, on_message-Keeps, on_timeout_timer-Keeps, on_backpressure_timer-Keeps,
  schedule_operation-Keeps,
}

-- A socket's event names its socket, and a message its length, or none where
-- `messageByteLength` gives null.
pub data Event : Type 0 where
  connects reconnect_timer timeout_timer backpressure_timer : Event
  socket_opened socket_failed socket_closed : ℕ → Event
  socket_message : ℕ → Option ℕ → Event
  fills phase_resets : Event
  schedules : ℕ → Event

-- what an event finds: the owner's flags, the socket's answers and the clock
pub record Moment : Type 0 where
  pub view : OwnerView
  pub answers : Answers
  pub now : ℕ

-- `none` is an error thrown out of the handler.
unfoldable pub handle : WorkerData → Moment → Event → Connection → Option (Connection × List Effect)
handle d m connects c = some (connect c)
handle d m reconnect_timer c = some (on_reconnect_timer c)
handle d m timeout_timer c = some (on_timeout_timer d m.view m.answers m.now c)
handle d m backpressure_timer c = on_backpressure_timer d m.view m.answers m.now c
handle d m (socket_opened s) c = on_open d m.view m.answers m.now s c
handle d m (socket_failed s) c = some (on_error s c)
handle d m (socket_closed s) c = some (on_close m.now s c)
handle d m (socket_message s bytes) c = on_message d m.view m.answers m.now s bytes c
handle d m fills c = fill_closed_loop d m.view m.answers m.now c
handle d m phase_resets c = some (reset_phase_state c, [])
handle d m (schedules at) c = schedule_operation d m.view m.answers m.now at c

unfoldable pub history :
    WorkerData → Connection → List (Moment × Event) → Option (Connection × List Effect)
history d c [] = some (c, [])
history d c ((m, e) ∷ es) =
    bind (handle d m e c) λ r. bind (history d r.0 es) λ r'. some (r'.0, r.1 ++ r'.1)

-- What the worker and the socket keep to: an operation is scheduled where the connection can take
-- it, a phase is reset with nothing in flight, and a message of binary type `arraybuffer` is text or
-- an `ArrayBuffer`.
abbrev pub Fits : WorkerData → Moment → Event → Connection → Type 0
Fits d m (schedules at) c = can_schedule_operation d m.view m.answers m.now c ≡ true
Fits d m phase_resets c = in_flight c ≡ 0
Fits d m (socket_message s none) c = ⊥
Fits d m _ c = Unit

abbrev pub InOrder : WorkerData → Connection → List (Moment × Event) → Type 0
InOrder d c [] = Unit
InOrder d c ((m, e) ∷ es) = Fits d m e c × OnSome (λ r. InOrder d r.0 es) (handle d m e c)

pub handle-Keeps :
    (d : WorkerData) (m : Moment) (e : Event) (c : Connection)
    → IsValid d c
    → Fits d m e c
    → Yields (Keeps d (in_flight c)) (handle d m e c)
unfolding handle
handle-Keeps d m connects c h f = connect-Keeps d c h
handle-Keeps d m reconnect_timer c h f = on_reconnect_timer-Keeps d c h
handle-Keeps d m timeout_timer c h f = on_timeout_timer-Keeps d m.view m.answers m.now c h
handle-Keeps d m backpressure_timer c h f = on_backpressure_timer-Keeps d m.view m.answers m.now c h
handle-Keeps d m (socket_opened s) c h f = on_open-Keeps d m.view m.answers m.now s c h
handle-Keeps d m (socket_failed s) c h f = on_error-Keeps d s c h
handle-Keeps d m (socket_closed s) c h f = on_close-Keeps d m.now s c h
handle-Keeps d m (socket_message s none) c h f = absurd f
handle-Keeps d m (socket_message s (some bytes)) c h f =
    on_message-Keeps d m.view m.answers m.now s bytes c h
handle-Keeps d m fills c h f = fill_closed_loop-Keeps d m.view m.answers m.now c h
handle-Keeps d m phase_resets c h f = reset_phase_state-Keeps d c h f
handle-Keeps d m (schedules at) c h f = schedule_operation-Keeps d m.view m.answers m.now at c h f

chained :
    (d : WorkerData) (es : List (Moment × Event)) (n : ℕ) (o : Option (Connection × List Effect))
    → ((c : Connection)
        → IsValid d c
        → InOrder d c es
        → Yields (Keeps d (in_flight c)) (history d c es))
    → Yields (Keeps d n) o
    → OnSome (λ r. InOrder d r.0 es) o
    → Yields (Keeps d n) (bind o λ r. bind (history d r.0 es) λ r'. some (r'.0, r.1 ++ r'.1))
chained d es n none rest k f = absurd k
chained d es n (some r) rest k f =
    Yields-bind (Keeps d (in_flight r.0)) (Keeps d n) (history d r.0 es) _ (rest r.0 k.valid f)
      λ r' k'. record {
        valid = k'.valid;
        settled = Settles-append r.1 r'.1 _ _ _ k.settled k'.settled;
      }

history-Keeps :
    (d : WorkerData) (es : List (Moment × Event)) (c : Connection)
    → IsValid d c
    → InOrder d c es
    → Yields (Keeps d (in_flight c)) (history d c es)
unfolding history
history-Keeps d [] c h f = record { valid = h; settled = refl }
history-Keeps d ((m, e) ∷ es) c h f =
    chained d es (in_flight c) (handle d m e c) (history-Keeps d es) (handle-Keeps d m e c h f.0)
      f.1

-- the connection that `LoadWorker.start` makes
abbrev pub first : WorkerData → Connection
first d = (connect (new d)).0

pub first-IsValid : (d : WorkerData) → IsValid d (first d) × (in_flight (first d) ≡ 0)
unfolding connect new Timestamps.new
first-IsValid d =
    ground (arith, new-IsValid d.max_in_flight true, length-replicate {A = ℕ} d.max_in_flight 0)

-- From the first connection, over any sequence of events in the order that the worker and the socket
-- keep to, no handler throws, and each message that was sent was answered by one message, was
-- reported as aborted, or is still in flight.
pub messages_accounted :
    (d : WorkerData) (es : List (Moment × Event))
    → InOrder d (first d) es
    → Yields
        (λ r. total sent_in r.1 ≡ total answered_in r.1 + total aborted_in r.1 + in_flight r.0)
        (history d (first d) es)
messages_accounted d es f =
    Yields-map (Keeps d (in_flight (first d))) _ (history d (first d) es)
      (history-Keeps d es (first d) (first-IsValid d).0 f)
      λ r k. omega (arith, k.settled, (first-IsValid d).1)

-- From the first connection, over any such sequence of events, no more messages are in flight than
-- the limit; a timeout is awaited exactly while some are in flight; a poll is awaited exactly while
-- there is backpressure; and the connection has a socket or is about to open one, and no handler throws.
pub history-IsWatched :
    (d : WorkerData) (es : List (Moment × Event))
    → InOrder d (first d) es
    → Yields
        (λ r.
          (in_flight r.0 ≤ d.max_in_flight)
          × (is_set r.0.timeout_timer ≡ ltb 0 (in_flight r.0))
          × (r.0.backpressure_timer ≡ r.0.backpressure.backpressured)
          × ((is_open r.0.socket || r.0.reconnect_timer) ≡ true))
        (history d (first d) es)
history-IsWatched d es f =
    Yields-map (Keeps d (in_flight (first d))) _ (history d (first d) es)
      (history-Keeps d es (first d) (first-IsValid d).0 f)
      λ r k.
        let v = k.valid in (omega (arith, v.queue.size_in, v.sized), v.watched, v.polled, v.returns)
