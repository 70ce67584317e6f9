-- ===== src/Http1/Connection.antt =====
-- src/load/http1/http1-connection.ts: one persistent connection of the HTTP/1.1 load generator, as
-- handlers of its events. A handler returns the connection and the calls that it makes, in order
-- (Load.Effects); where the code throws it returns `none`. A socket is named by a number, so that a
-- late event of an old socket is told apart as the code does. What `socket.write` answers is an
-- argument: the answer to the write of each index.
mod Tests
mod State
pub mod Neutral
pub mod Accounting
pub mod Capacity
pub mod History
pub mod Answers
pub mod Filling
pub mod Within
pub mod Room
pub mod Rated
unfoldable pub use State.*
use Prim.Native.String.{String}
use benchkit.Prelude.{
  ℕ, zero, suc, ◌+◌, ◌-◌, ◌*◌, ◌==◌, ltb, if◌then◌else◌, Bool, true, false, not, ◌&&◌, ◌||◌, Option,
  none, some, List, [], ◌∷◌, ◌++◌, map, length, replicate, bind,
}
use benchkit.Timestamps
use benchkit.Timestamps.{TimestampQueue}
use benchkit.Load.Effects.{
  OwnerView, can_continue_closed_loop, Effect, connected, disconnected, idle, closed, response,
  bytes_read, protocol_error, timed_out, connection_error, requests_sent, socket_write,
  scheduled_operation, opens, writes, destroys, schedules_reconnect,
}
use benchkit.Load.Backpressure.{
  Backpressure, no_backpressure, begin_backpressure, finish_backpressure,
}
use benchkit.Http1.Bytes.{Bytes}
use benchkit.Http1.Framing.{ParseError}
use benchkit.Http1.Parser.{Parser, reset, Outcome}
use benchkit.Http1.Parser

-- the `catch` of the data handler; the handler's own socket is destroyed
abbrev pub protocol_failed : Connection → Connection × List Effect
protocol_failed c = (record c { protocol_failure = true }, protocol_error ∷ destroys ∷ [])

unfoldable pub on_timeout : Connection → Connection × List Effect
on_timeout c = (record c { timeout_failure = true }, timed_out ∷ destroys ∷ [])

unfoldable pub on_error : Connection → Connection × List Effect
on_error c =
    if not c.protocol_failure && not c.timeout_failure then (c, connection_error ∷ []) else (c, [])

-- `#scheduleReconnect`
abbrev pub schedule_reconnect : Connection → Connection × List Effect
schedule_reconnect c =
    if c.reconnect_scheduled
    then (c, [])
    else (record c { reconnect_scheduled = true }, schedules_reconnect ∷ [])

abbrev pub closed_down : Connection → Connection
closed_down c = record c {
  is_connected = false;
  timestamps = Timestamps.clear c.timestamps;
  rate_batch = [];
  pending_closed_loop = 0;
  parser = reset;
  protocol_failure = false;
  timeout_failure = false;
}

-- the timer of `#scheduleReconnect`
unfoldable pub on_reconnect_timer : Connection → Connection × List Effect
on_reconnect_timer c = connect (record c { reconnect_scheduled = false })

unfoldable pub reset_phase_state : Connection → Connection
reset_phase_state c = record c { rate_batch = []; pending_closed_loop = 0 }

module _ (d : WorkerData) (view : OwnerView) (now : ℕ) where
  abbrev pub finish : Connection → Connection × List Effect
  finish c = with_backpressure c (finish_backpressure now c.backpressure)

  -- the `if (!accepted)` of `#send`
  abbrev pub after_write : Bool → Connection → Connection × List Effect
  after_write true c = (c, [])
  after_write false c =
      with_backpressure c (begin_backpressure view.recording_active now c.backpressure)

  -- what `#send` does behind the loop over the timestamps
  abbrev pub written : (ℕ → Bool) → ℕ → Connection → List Effect → Connection × List Effect
  written accepts count c lags =
      let (c', begun) = after_write (accepted d accepts count) c in
      (c', lags ++ (requests_sent count (d.request_bytes * count) ∷ (write_calls d count ++ begun)))

  -- `#send(times.length, times)`; for the closed loop no request has a scheduled time.
  unfoldable pub send :
      (ℕ → Bool) → List (Option ℕ) → Connection → Option (Connection × List Effect)
  send accepts times c =
      if not (is_open c.socket) || not c.is_connected || c.stopped || length times == 0
      then some (c, [])
      else if ltb (d.pipelining - in_flight c) (length times)
      then none
      else bind (stamp d now c.timestamps times)
          λ r. some (written accepts (length times) (record c { timestamps = r.0 }) r.1)

  unfoldable pub replenish_closed_loop :
      (ℕ → Bool) → ℕ → Connection → Option (Connection × List Effect)
  replenish_closed_loop accepts count c =
      if not view.closed_loop_active || count == 0
      then some (c, [])
      else if c.backpressure.backpressured
      then some (record c { pending_closed_loop = c.pending_closed_loop + count }, [])
      else send accepts (replicate count none) c

  unfoldable pub fill_closed_loop : (ℕ → Bool) → Connection → Option (Connection × List Effect)
  fill_closed_loop accepts c =
      if not view.closed_loop_active || not c.is_connected || not (in_flight c == 0)
      then some (c, [])
      else replenish_closed_loop accepts d.pipelining c

  unfoldable pub can_schedule_operation : Connection → Bool
  can_schedule_operation c =
      view.fixed_rate_active
      && c.is_connected
      && not c.stopped
      && not c.backpressure.backpressured
      && ltb (in_flight c + length c.rate_batch) d.pipelining

  unfoldable pub schedule_operation : ℕ → Connection → Option Connection
  schedule_operation scheduled_at c =
      if can_schedule_operation c
      then some (record c { rate_batch = c.rate_batch ++ scheduled_at ∷ [] })
      else none

  unfoldable pub flush_scheduled_operations :
      (ℕ → Bool) → Connection → Option (Connection × List Effect)
  flush_scheduled_operations accepts c =
      if length c.rate_batch == 0
      then some (c, [])
      else bind (send accepts (map some c.rate_batch) c)
          λ r. some (record (r.0) { rate_batch = [] }, r.1)

  -- the callback of `push`, for each response in turn; the count is `replenish`
  unfoldable pub respond : List ℕ → Connection → Connection × List Effect × ℕ
  respond [] c = (c, [], 0)
  respond (status ∷ more) c =
      let (sent_at, queue) = Timestamps.shift c.timestamps in
      let failed = record c { protocol_failure = true } in
      let answered = record c { timestamps = queue } in
      elim sent_at [
        | none ↦
            let (c', es, n) = respond more failed in
            (c', protocol_error ∷ (destroy c.socket ++ es), n)
        | some at ↦
            let (c', es, n) = respond more answered in
            (c', response status at ∷ es, (if can_continue_closed_loop view now then 1 else 0) + n)
      ]

  abbrev pub or_failed : Option (Connection × List Effect) → Connection → Connection × List Effect
  or_failed none c = protocol_failed c
  or_failed (some r) c = r

  abbrev pub replenish_unless_failed :
      (ℕ → Bool) → Option ParseError → ℕ → Connection → Connection × List Effect
  replenish_unless_failed accepts none count c = or_failed (replenish_closed_loop accepts count c) c
  replenish_unless_failed accepts (some e) count c = protocol_failed c

  unfoldable pub on_data : (ℕ → Bool) → ℕ → Bytes → Connection → Connection × List Effect
  on_data accepts socket chunk c =
      if not (is_current c.socket socket) || c.stopped
      then (c, [])
      else let o = Parser.push d.method d.max_header_bytes c.parser chunk in
        let (c', es, n) = respond o.completed (record c { parser = o.parser }) in
        let (c'', es') = replenish_unless_failed accepts o.failure n c' in
        (c'', bytes_read (length chunk) ∷ (es ++ es'))

  unfoldable pub on_connect : (ℕ → Bool) → ℕ → Connection → Option (Connection × List Effect)
  on_connect accepts socket c =
      if c.stopped || not (is_current c.socket socket)
      then some (c, [])
      else bind
          (fill_closed_loop accepts (record c { is_connected = true; reconnect_scheduled = false }))
          λ r. some (r.0, connected ∷ r.1)

  unfoldable pub on_drain : (ℕ → Bool) → ℕ → Connection → Option (Connection × List Effect)
  on_drain accepts socket c =
      if not (is_current c.socket socket) || not c.backpressure.backpressured
      then some (c, [])
      else let (c', es) = finish c in
        if ltb 0 c'.pending_closed_loop && view.closed_loop_active
        then (bind
            (send accepts (replicate c'.pending_closed_loop none)
              (record c' { pending_closed_loop = 0 }))
            λ r. some (r.0, es ++ r.1))
        else some (c', es)

  abbrev pub left : Bool → List Effect
  left true = disconnected ∷ []
  left false = []

  abbrev pub reconnect_if : Bool → Connection → Connection × List Effect
  reconnect_if true c = schedule_reconnect c
  reconnect_if false c = (c, [])

  -- the close handler behind its test, with backpressure finished
  abbrev pub closing : Connection → Connection × List Effect
  closing c =
      let (c', again) = reconnect_if (not c.stopped && view.should_reconnect) (closed_down c) in
      (c', left c.is_connected ++ (closed (in_flight c) ∷ idle ∷ again))

  unfoldable pub on_close : ℕ → Connection → Connection × List Effect
  on_close socket c =
      if not (is_current c.socket socket)
      then (c, [])
      else let (c', ended) = finish (record c { socket = none }) in
        let (c'', es) = closing c' in (c'', ended ++ es)

  unfoldable pub stop : Connection → Connection × List Effect
  stop c =
      let (c', es) = finish (record c { stopped = true }) in
      (
        record c' {
          socket = none;
          timestamps = Timestamps.clear c'.timestamps;
          rate_batch = [];
          pending_closed_loop = 0;
        },
        es ++ destroy c'.socket,
      )
