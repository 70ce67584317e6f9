-- ===== src/WebSocket/Connection.antt =====
-- src/load/websocket/websocket-connection.ts: one connection of the WebSocket load generator: its
-- state, its timers, and what sends and closes. As in Http1.Connection, a handler returns the
-- connection and the calls that it makes, in order; a socket is named by a number; and the clock is
-- read once in a handler. A timer is a field of the state: a timer that is cleared does not fire.
mod Tests
pub mod Handlers
pub mod Validity
pub mod Sending
pub mod Handled
pub mod History
pub mod Stopped
use benchkit.Prelude.{
  ℕ, zero, suc, ◌+◌, ◌-◌, ◌==◌, leb, ltb, max, if◌then◌else◌, Bool, true, false, not, ◌&&◌, ◌||◌,
  Option, none, some, List, [], ◌∷◌, ◌++◌, bind,
}
use benchkit.Timestamps
use benchkit.Timestamps.{TimestampQueue}
use benchkit.Load.Effects.{
  OwnerView, Effect, connected, disconnected, idle, closed, message_sent, connection_error,
  scheduled_operation, buffered_amount, opens, closes, schedules_reconnect,
}
use benchkit.Load.Backpressure.{
  Backpressure, no_backpressure, begin_backpressure, finish_backpressure,
}

-- What the handlers read of `WebSocketWorkerData`, and the length of its message.
pub record WorkerData : Type 0 where
  pub max_in_flight : ℕ
  pub max_buffered_bytes : ℕ
  pub timeout : ℕ
  pub correct_coordinated_omission : Bool
  pub payload_bytes : ℕ

pub record Connection : Type 0 where
  pub socket : Option ℕ
  pub next_socket : ℕ
  pub is_connected : Bool
  pub stopped : Bool
  pub connection_error_observed : Bool
  pub backpressure_timer : Bool
  -- when the timer of the oldest operation fires
  pub timeout_timer : Option ℕ
  pub reconnect_timer : Bool
  pub timestamps : TimestampQueue
  pub backpressure : Backpressure

-- What the socket answers while a handler runs, by the number of messages sent in it: whether its
-- state is `OPEN`, whether `send` returns, and its `bufferedAmount`; and whether it is `CLOSING` or
-- closed when the handler closes it.
pub record Answers : Type 0 where
  pub is_ready : ℕ → Bool
  pub accepts : ℕ → Bool
  pub buffered : ℕ → ℕ
  pub is_closing : Bool

abbrev pub in_flight : Connection → ℕ
in_flight c = c.timestamps.size

unfoldable pub new : WorkerData → Connection
new d = record {
  socket = none;
  next_socket = 0;
  is_connected = false;
  stopped = false;
  connection_error_observed = false;
  backpressure_timer = false;
  timeout_timer = none;
  reconnect_timer = false;
  timestamps = Timestamps.new d.max_in_flight true;
  backpressure = no_backpressure;
}

abbrev pub is_open : Option ℕ → Bool
is_open none = false
is_open (some _) = true

-- `socket !== this.#socket`, negated
abbrev pub is_current : Option ℕ → ℕ → Bool
is_current none socket = false
is_current (some current) socket = current == socket

unfoldable pub connect : Connection → Connection × List Effect
connect c = if c.stopped || is_open c.socket then (c, []) else (
  record c {
    socket = some c.next_socket;
    next_socket = c.next_socket + 1;
    connection_error_observed = false;
  },
  opens c.next_socket ∷ [],
)

-- `#scheduleReconnect`
unfoldable pub schedule_reconnect : Connection → Connection × List Effect
schedule_reconnect c =
    if c.reconnect_timer || c.stopped
    then (c, [])
    else (record c { reconnect_timer = true }, schedules_reconnect ∷ [])

-- `#clearConnectionTimers`
abbrev pub clear_connection_timers : Connection → Connection
clear_connection_timers c = record c { timeout_timer = none; backpressure_timer = false }

-- `#endBackpressure`
unfoldable pub end_backpressure : ℕ → Connection → Connection × List Effect
end_backpressure now c =
    let (finished, b, es) = finish_backpressure now c.backpressure in
    (
      record c {
        backpressure = b;
        backpressure_timer = not c.backpressure.backpressured && c.backpressure_timer;
      },
      es,
    )

-- `#pollBackpressure`, which sets the timer
unfoldable pub poll_backpressure : Connection → Connection
poll_backpressure c =
    if not c.backpressure.backpressured || c.stopped
    then c
    else record c { backpressure_timer = true }

-- `#startBackpressure`
unfoldable pub start_backpressure : OwnerView → ℕ → Connection → Connection × List Effect
start_backpressure view now c =
    let (begun, b, es) = begin_backpressure view.recording_active now c.backpressure in
    let c' = record c { backpressure = b } in (if begun then poll_backpressure c' else c', es)

-- the earliest time of the timer of an operation that was sent at a time
abbrev pub deadline : WorkerData → ℕ → Option ℕ → Option ℕ
deadline d now none = none
deadline d now (some oldest) = some (now + max 1000 (oldest + d.timeout - now))

-- `#scheduleTimeout`
unfoldable pub schedule_timeout : WorkerData → ℕ → Connection → Connection
schedule_timeout d now c = record c {
  timeout_timer = deadline d now (Timestamps.peek_timeout_start c.timestamps);
}

abbrev pub left : Bool → List Effect
left true = disconnected ∷ []
left false = []

abbrev pub close_calls : Answers → ℕ → List Effect
close_calls a code = if a.is_closing then [] else closes code ∷ []

-- the connection without its socket, its timers and its operations, and the calls that tell it
abbrev pub detach : ℕ → Connection → Connection × List Effect
detach now c = end_backpressure now (clear_connection_timers (record c { socket = none }))

abbrev pub closed_down : Connection → Connection
closed_down c = record c { is_connected = false; timestamps = Timestamps.clear c.timestamps }

-- `#discard`
unfoldable pub discard : Answers → ℕ → ℕ → Connection → Connection × List Effect
discard a now socket c =
    if not (is_current c.socket socket)
    then (c, [])
    else let (c', ended) = detach now c in
      let (c'', again) = schedule_reconnect (closed_down c') in
      (
        c'',
        ended
            ++ (left c.is_connected
                ++ (closed (in_flight c) ∷ idle ∷ (close_calls a 1001 ++ again))),
      )

-- the latency's start of an operation, and the report of its lag if it was scheduled
abbrev pub stamp_of : WorkerData → ℕ → Option ℕ → ℕ
stamp_of d now none = now
stamp_of d now (some scheduled_at) = if d.correct_coordinated_omission then scheduled_at else now

abbrev pub lag_of : ℕ → Option ℕ → List Effect
lag_of now none = []
lag_of now (some scheduled_at) = scheduled_operation (now - scheduled_at) ∷ []

module _ (d : WorkerData) (view : OwnerView) (a : Answers) (now : ℕ) where
  -- the last test of `#send`
  abbrev pub check_buffered : ℕ → Connection → Connection × List Effect
  check_buffered amount c =
      if ltb d.max_buffered_bytes amount then start_backpressure view now c else (c, [])

  -- `#send` behind the push, after the message of a number
  abbrev pub sent : ℕ → Option ℕ → Connection → Bool × Connection × List Effect
  sent n scheduled c =
      let amount = a.buffered (n + 1) in
      let (c', begun) = check_buffered amount (schedule_timeout d now c) in
      (
        true,
        c',
        message_sent d.payload_bytes ∷ (lag_of now scheduled ++ (buffered_amount amount ∷ begun)),
      )

  -- `#send` with a socket
  abbrev pub send_on : ℕ → Option ℕ → ℕ → Connection → Option (Bool × Connection × List Effect)
  send_on n scheduled socket c =
      if not (a.is_ready n) || leb d.max_in_flight (in_flight c)
      then some (false, c, [])
      else if not (a.accepts n)
      then (let (c', es) = discard a now socket c in some (false, c', connection_error ∷ es))
      else bind (Timestamps.push c.timestamps (stamp_of d now scheduled) now)
          λ q. some (sent n scheduled (record c { timestamps = q }))

  -- `#send`, of the message of a number in the handler
  unfoldable pub send : ℕ → Option ℕ → Connection → Option (Bool × Connection × List Effect)
  send n scheduled c = elim c.socket [
    | none ↦ some (false, c, [])
    | some socket ↦ send_on n scheduled socket c
  ]

  -- The loop of `fillClosedLoop`. A turn that goes on has sent a message, so there are no more turns
  -- than places in the queue.
  unfoldable pub fill : ℕ → ℕ → Connection → Option (Connection × List Effect)
  fill zero n c = some (c, [])
  fill (suc turns) n c =
      if ltb (in_flight c) d.max_in_flight && not c.backpressure.backpressured
      then (bind (send n none c) λ r.
          if r.0
          then (bind (fill turns (n + 1) r.1) λ r'. some (r'.0, r.2 ++ r'.1))
          else some (r.1, r.2))
      else some (c, [])

  unfoldable pub fill_closed_loop : Connection → Option (Connection × List Effect)
  fill_closed_loop c =
      if not view.closed_loop_active
        || not c.is_connected
        || c.stopped
        || c.backpressure.backpressured
        || not (is_open c.socket)
      then some (c, [])
      else fill d.max_in_flight 0 c
