-- ===== src/WebSocket/Connection/Stopped.antt =====
-- src/load/websocket/websocket-connection.ts: a stopped connection does nothing more.
use benchkit.Prelude.{
  ℕ, ◌≡◌, refl, true, false, Option, none, some, List, [], ◌∷◌, ◌++◌, arith, bind, Yields,
  Yields-map, Yields-bind,
}
use benchkit.Timestamps
use benchkit.Load.Effects.{Effect}
use benchkit.WebSocket.Connection.{
  WorkerData, Connection, Answers, in_flight, connect, fill_closed_loop, end_backpressure,
}
use benchkit.WebSocket.Connection.Handlers.{
  on_error, on_close, reset_phase_state, stop, on_reconnect_timer, on_open, on_message,
  on_timeout_timer, on_backpressure_timer, can_schedule_operation,
}
use benchkit.WebSocket.Connection.History.{
  Event, connects, reconnect_timer, timeout_timer, backpressure_timer, socket_opened, socket_failed,
  socket_closed, socket_message, fills, phase_resets, schedules, Moment, handle, history,
}

-- A connection with no socket, no timer and no operation, which stays so.
pub record IsQuiet (c : Connection) : Type 0 where
  pub stopped : c.stopped ≡ true
  pub closed : c.socket ≡ none
  pub untimed : c.timeout_timer ≡ none
  pub unpolled : c.backpressure_timer ≡ false
  pub final : c.reconnect_timer ≡ false
  pub emptied : in_flight c ≡ 0

stop-IsQuiet : (a : Answers) (now : ℕ) (c : Connection) → IsQuiet (stop a now c).0
unfolding stop end_backpressure Timestamps.clear
stop-IsQuiet a now c = ground arith

abbrev pub IsScheduled : Event → Type 0
IsScheduled (schedules at) = Unit
IsScheduled _ = ⊥

abbrev pub Unscheduled : List (Moment × Event) → Type 0
Unscheduled [] = Unit
Unscheduled ((m, e) ∷ es) = (IsScheduled e → ⊥) × Unscheduled es

-- A step without a call, after which the connection is quiet.
abbrev pub Rests : Option (Connection × List Effect) → Type 0
Rests = Yields λ r. IsQuiet r.0 × (r.1 ≡ [])

handle-Rests :
    (d : WorkerData) (m : Moment) (e : Event) (c : Connection)
    → IsQuiet c
    → (IsScheduled e → ⊥)
    → Rests (handle d m e c)
unfolding handle connect on_reconnect_timer on_timeout_timer on_backpressure_timer on_open on_error
    on_close on_message fill_closed_loop reset_phase_state Timestamps.clear
handle-Rests d m connects c h f = ground arith
handle-Rests d m reconnect_timer c h f = ground arith
handle-Rests d m timeout_timer c h f = ground arith
handle-Rests d m backpressure_timer c h f = ground arith
handle-Rests d m (socket_opened s) c h f = ground arith
handle-Rests d m (socket_failed s) c h f = ground arith
handle-Rests d m (socket_closed s) c h f = ground arith
handle-Rests d m (socket_message s bytes) c h f = ground arith
handle-Rests d m fills c h f = ground arith
handle-Rests d m phase_resets c h f = ground arith
handle-Rests d m (schedules at) c h f = absurd (f tt)

rested :
    (d : WorkerData) (es : List (Moment × Event)) (o : Option (Connection × List Effect))
    → ((c : Connection) → IsQuiet c → Unscheduled es → Rests (history d c es))
    → Rests o
    → Unscheduled es
    → Rests (bind o λ r. bind (history d r.0 es) λ r'. some (r'.0, r.1 ++ r'.1))
rested d es none rest k f = absurd k
rested d es (some r) rest k f =
    Yields-bind (λ r'. IsQuiet r'.0 × (r'.1 ≡ [])) (λ r'. IsQuiet r'.0 × (r'.1 ≡ []))
      (history d r.0 es) _ (rest r.0 k.0 f) λ r' k'. (k'.0, rw (k.1, k'.1))

history-Rests :
    (d : WorkerData) (es : List (Moment × Event)) (c : Connection)
    → IsQuiet c
    → Unscheduled es
    → Rests (history d c es)
unfolding history
history-Rests d [] c h f = (h, refl)
history-Rests d ((m, e) ∷ es) c h f =
    rested d es (handle d m e c) (history-Rests d es) (handle-Rests d m e c h f.0) f.1

refuses :
    (d : WorkerData) (m : Moment) (c : Connection)
    → IsQuiet c
    → can_schedule_operation d m.view m.answers m.now c ≡ false
unfolding can_schedule_operation
refuses d m c h = ground arith

-- After `stop`, whatever events follow but a scheduled operation, no handler throws, the connection
-- makes no call and has no operation in flight, and at any later moment it takes no scheduled
-- operation.
pub stop_silences :
    (d : WorkerData) (a : Answers) (now : ℕ) (c : Connection) (es : List (Moment × Event))
    (later : Moment)
    → Unscheduled es
    → Yields
        (λ r.
          (r.1 ≡ [])
          × (in_flight r.0 ≡ 0)
          × (can_schedule_operation d later.view later.answers later.now r.0 ≡ false))
        (history d (stop a now c).0 es)
stop_silences d a now c es later f =
    Yields-map (λ r. IsQuiet r.0 × (r.1 ≡ [])) _ (history d (stop a now c).0 es)
      (history-Rests d es (stop a now c).0 (stop-IsQuiet a now c) f)
      λ r k. (k.1, k.0.emptied, refuses d later r.0 k.0)
