-- ===== src/WebSocket/Connection/Handlers.antt =====
-- src/load/websocket/websocket-connection.ts: the handlers of the socket's events and of the timers,
-- and what the worker calls. Where the code throws they return `none`.
use benchkit.Prelude.{
  ℕ, ◌==◌, leb, ltb, if◌then◌else◌, Bool, true, false, not, ◌&&◌, ◌||◌, Option, none, some, List,
  [], ◌∷◌, ◌++◌, bind,
}
use benchkit.Timestamps
use benchkit.Timestamps.{TimestampQueue}
use benchkit.Load.Effects.{
  OwnerView, Effect, connected, idle, closed, message, protocol_error, timed_out, connection_error,
  buffered_amount,
}
use benchkit.WebSocket.Connection.{
  WorkerData, Connection, Answers, in_flight, is_open, is_current, connect, schedule_reconnect,
  clear_connection_timers, end_backpressure, poll_backpressure, schedule_timeout, left, close_calls,
  detach, closed_down, discard, send, fill_closed_loop,
}

-- calls that come before those of a step
abbrev pub after :
    List Effect → Option (Connection × List Effect) → Option (Connection × List Effect)
after es o = bind o λ r. some (r.0, es ++ r.1)

unfoldable pub on_error : ℕ → Connection → Connection × List Effect
on_error socket c =
    if is_current c.socket socket && not c.stopped && not c.connection_error_observed
    then (record c { connection_error_observed = true }, connection_error ∷ [])
    else (c, [])

abbrev pub unexpected : Connection → List Effect
unexpected c =
    if not c.stopped && not c.connection_error_observed then connection_error ∷ [] else []

unfoldable pub on_close : ℕ → ℕ → Connection → Connection × List Effect
on_close now socket c =
    if not (is_current c.socket socket)
    then (c, [])
    else let (c', ended) = detach now c in
      let (c'', again) = schedule_reconnect (closed_down c') in
      (
        c'',
        ended ++ (left c.is_connected ++ (unexpected c ++ (closed (in_flight c) ∷ idle ∷ again))),
      )

unfoldable pub reset_phase_state : Connection → Connection
reset_phase_state c = record c { timestamps = Timestamps.clear c.timestamps; timeout_timer = none }

-- `this.#clearConnectionTimers()` and `this.#clearReconnectTimer()` come first
unfoldable pub stop : Answers → ℕ → Connection → Connection × List Effect
stop a now c =
    let (c', ended) =
      end_backpressure now
        (clear_connection_timers (record c { stopped = true; reconnect_timer = false })) in
    (
      record c' {
        socket = none;
        is_connected = false;
        timestamps = Timestamps.clear c'.timestamps;
      },
      ended ++ (if is_open c.socket then close_calls a 1000 else []),
    )

-- the timer of `#scheduleReconnect`
unfoldable pub on_reconnect_timer : Connection → Connection × List Effect
on_reconnect_timer c =
    if c.reconnect_timer then connect (record c { reconnect_timer = false }) else (c, [])

module _ (d : WorkerData) (view : OwnerView) (a : Answers) (now : ℕ) where
  unfoldable pub on_open : ℕ → Connection → Option (Connection × List Effect)
  on_open socket c =
      if not (is_current c.socket socket) || c.stopped
      then some (c, [])
      else after (connected ∷ []) (fill_closed_loop d view a now (record c { is_connected = true }))

  -- the test of `bufferedAmount` in the handler of messages
  abbrev pub end_if_drained : Connection → Connection × List Effect
  end_if_drained c =
      if c.backpressure.backpressured && leb (a.buffered 0) d.max_buffered_bytes
      then end_backpressure now c
      else (c, [])

  abbrev pub answered : ℕ → ℕ → Connection → Option (Connection × List Effect)
  answered bytes at c =
      let (c', ended) = end_if_drained (schedule_timeout d now c) in
      after (message bytes at ∷ idle ∷ ended) (fill_closed_loop d view a now c')

  abbrev pub refused : ℕ → Connection → Option (Connection × List Effect)
  refused socket c = let (c', es) = discard a now socket c in some (c', protocol_error ∷ es)

  -- a message of which `messageByteLength` gives the length, or null
  abbrev pub received : ℕ → Option ℕ → Option ℕ → Connection → Option (Connection × List Effect)
  received socket none sent_at c = refused socket c
  received socket (some bytes) none c = refused socket c
  received socket (some bytes) (some at) c = answered bytes at c

  unfoldable pub on_message : ℕ → Option ℕ → Connection → Option (Connection × List Effect)
  on_message socket payload_bytes c =
      if not (is_current c.socket socket) || c.stopped
      then some (c, [])
      else let (sent_at, queue) = Timestamps.shift c.timestamps in
        received socket payload_bytes sent_at (record c { timestamps = queue })

  -- the timer of `#scheduleTimeout`; what it does with no socket, and with one
  abbrev pub expire : Option ℕ → Connection → Connection × List Effect
  expire none c = (c, [])
  expire (some socket) c = let (c', es) = discard a now socket c in (c', timed_out ∷ es)

  unfoldable pub on_timeout_timer : Connection → Connection × List Effect
  on_timeout_timer c = elim c.timeout_timer [
    | none ↦ (c, [])
    | some at ↦
        let c' = record c { timeout_timer = none } in
        if in_flight c == 0 then (c', []) else expire c.socket c'
  ]

  -- the timer of `#pollBackpressure`
  unfoldable pub on_backpressure_timer : Connection → Option (Connection × List Effect)
  on_backpressure_timer c =
      if not c.backpressure_timer
      then some (c, [])
      else let c' = record c { backpressure_timer = false } in
        if not (is_open c.socket) || leb (a.buffered 0) d.max_buffered_bytes
        then (let (c'', ended) = end_backpressure now c' in
            after ended (fill_closed_loop d view a now c''))
        else some (poll_backpressure c', buffered_amount (a.buffered 0) ∷ [])

  unfoldable pub can_schedule_operation : Connection → Bool
  can_schedule_operation c =
      view.fixed_rate_active
      && c.is_connected
      && not c.stopped
      && not c.backpressure.backpressured
      && is_open c.socket
      && a.is_ready 0
      && leb (a.buffered 0) d.max_buffered_bytes
      && ltb (in_flight c) d.max_in_flight

  unfoldable pub schedule_operation : ℕ → Connection → Option (Connection × List Effect)
  schedule_operation scheduled_at c =
      if can_schedule_operation c
      then (bind (send d view a now 0 (some scheduled_at) c) λ r. some (r.1, r.2))
      else none
