-- ===== src/Http1/Connection/Room.antt =====
-- src/load/http1/http1-connection.ts: the room of the pipeline, and what a handler throws.
use benchkit.Prelude.{
  ℕ, ◌+◌, ◌<◌, ◌≡◌, refl, inl, inr, true, subst, false, not, ◌&&◌, ◌||◌, some, List, [], ◌∷◌,
  length, length-replicate, length-append, arith, Yields, Yields-bind, Option-cases, if_both,
  OnSome,
}
use benchkit.Timestamps
use benchkit.Timestamps.{TimestampQueue, capacity}
use benchkit.Timestamps.Invariant.{new-IsValid}
use benchkit.Load.Effects.{OwnerView, Effect}
use benchkit.Http1.Connection.{
  WorkerData, Connection, new, in_flight, is_open, can_schedule_operation, schedule_operation,
  on_timeout, on_error, on_reconnect_timer, connect, reset_phase_state,
}
use benchkit.Http1.Connection.Capacity.{waiting, IsWithin}
use benchkit.Http1.Connection.History.{
  Event, Moment, handle, history, without_calls, connects, reconnect_timer, socket_connected,
  socket_data, socket_drained, socket_timed_out, socket_failed, socket_closed, fills, flushes,
  phase_resets, schedules,
}
use benchkit.Http1.Connection.Filling.{kept-IsWithin, fill-IsWithin, flush-IsWithin}
use benchkit.Http1.Connection.Within.{
  on_data-IsWithin, on_connect-IsWithin, on_drain-IsWithin, on_close-IsWithin,
}

-- The order that the worker keeps to: a socket connects a connection that is not, the closed loop is
-- filled when nothing waits to be sent, and a rated operation is scheduled where it can be, with no
-- closed loop behind.
abbrev pub IsAllowed : WorkerData → Moment → Event → Connection → Type 0
IsAllowed d m (socket_connected s) c = c.is_connected ≡ false
IsAllowed d m fills c = waiting c ≡ 0
IsAllowed d m (schedules at) c =
    (can_schedule_operation d m.view m.now c ≡ true) × (c.pending_closed_loop ≡ 0)
IsAllowed d m _ c = Unit

connect-IsWithin : (d : WorkerData) (c : Connection) → IsWithin d c → IsWithin d (connect c).0
unfolding connect
connect-IsWithin d c h =
    if_both {A = Connection × List Effect} (λ r. IsWithin d r.0) (c.stopped || is_open c.socket) h
      (kept-IsWithin d c (record c { socket = some c.next_socket; next_socket = c.next_socket + 1 })
        h refl refl refl)

can_schedule-room :
    (d : WorkerData) (view : OwnerView) (now : ℕ) (c : Connection)
    → can_schedule_operation d view now c ≡ true
    → (in_flight c + length c.rate_batch < d.pipelining) × (c.is_connected ≡ true)
unfolding can_schedule_operation
can_schedule-room d view now c can = ground (arith, can)

schedule-IsWithin :
    (d : WorkerData) (view : OwnerView) (now at : ℕ) (c : Connection)
    → IsWithin d c
    → can_schedule_operation d view now c ≡ true
    → c.pending_closed_loop ≡ 0
    → Yields (λ r. IsWithin d r.0) (without_calls (schedule_operation d view now at c))
unfolding schedule_operation
schedule-IsWithin d view now at c h can pending =
    let (room, up) = can_schedule-room d view now c can in
    rw can (record {
      valid = h.valid;
      sized = h.sized;
      fits = omega (arith, room, pending, length-append c.rate_batch (at ∷ []));
      unconnected = λ down. absurd (ground (arith, up, down));
    })

handle-IsWithin :
    (d : WorkerData) (m : Moment) (e : Event) (c : Connection)
    → IsWithin d c
    → IsAllowed d m e c
    → Yields (λ r. IsWithin d r.0) (handle d m e c)
unfolding handle on_reconnect_timer on_timeout on_error reset_phase_state
handle-IsWithin d m connects c h a = connect-IsWithin d c h
handle-IsWithin d m reconnect_timer c h a =
    connect-IsWithin d (record c { reconnect_scheduled = false })
      (kept-IsWithin d c (record c { reconnect_scheduled = false }) h refl refl refl)
handle-IsWithin d m (socket_connected s) c h a =
    on_connect-IsWithin d m.view m.now m.accepts s c h a
handle-IsWithin d m (socket_data s chunk) c h a =
    on_data-IsWithin d m.view m.now m.accepts s chunk c h
handle-IsWithin d m (socket_drained s) c h a = on_drain-IsWithin d m.view m.now m.accepts s c h
handle-IsWithin d m socket_timed_out c h a =
    kept-IsWithin d c (record c { timeout_failure = true }) h refl refl refl
handle-IsWithin d m socket_failed c h a =
    if_both {A = Connection × List Effect} (λ r. IsWithin d r.0)
      (not c.protocol_failure && not c.timeout_failure) h h
handle-IsWithin d m (socket_closed s) c h a = on_close-IsWithin d m.view m.now s c h
handle-IsWithin d m fills c h a = fill-IsWithin d m.view m.now m.accepts c h a
handle-IsWithin d m flushes c h a = flush-IsWithin d m.view m.now m.accepts c h
handle-IsWithin d m phase_resets c h a = record {
  valid = h.valid;
  sized = h.sized;
  fits = omega (arith, h.fits);
  unconnected = λ e. omega (arith, h.unconnected e);
}
handle-IsWithin d m (schedules at) c h a = schedule-IsWithin d m.view m.now at c h a.0 a.1

-- Every event finds the connection in the order that the worker keeps to.
abbrev pub AreAllowed : WorkerData → Connection → List (Moment × Event) → Type 0
AreAllowed d c [] = Unit
AreAllowed d c ((m, e) ∷ es) =
    IsAllowed d m e c × OnSome (λ r. AreAllowed d r.0 es) (handle d m e c)

events_stay :
    (d : WorkerData) (es : List (Moment × Event)) (c : Connection)
    → IsWithin d c
    → AreAllowed d c es
    → Yields (λ r. IsWithin d r.0) (history d c es)
unfolding history
events_stay d [] c h a = h
events_stay d ((m, e) ∷ es) c h a = elim (Option-cases (handle d m e c)) [
  | inl thrown ↦
      absurd (subst (Yields (λ r. IsWithin d r.0)) thrown (handle-IsWithin d m e c h a.0))
  | inr (r, given) ↦
      let next = subst (Yields (λ r. IsWithin d r.0)) given (handle-IsWithin d m e c h a.0) in
      let allowed = subst (OnSome (λ r. AreAllowed d r.0 es)) given a.1 in
      rw given (
        Yields-bind (λ r. IsWithin d r.0) (λ r. IsWithin d r.0) (history d r.0 es) _
          (events_stay d es r.0 next allowed) λ r' k. k)
]

-- Over any sequence of events in the order that the worker keeps to, no handler of a new connection
-- throws, and at its end the requests in flight and those waiting to be sent fit the pipeline.
pub history-IsWithin :
    (d : WorkerData) (es : List (Moment × Event))
    → AreAllowed d (new d) es
    → Yields (λ r. IsWithin d r.0) (history d (new d) es)
unfolding new Timestamps.new
history-IsWithin d es a =
    events_stay d es (new d)
      (record {
        valid = new-IsValid d.pipelining false;
        sized = length-replicate d.pipelining 0;
        fits = omega arith;
        unconnected = λ _. omega arith;
      })
      a
