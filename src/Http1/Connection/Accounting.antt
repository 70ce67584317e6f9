-- ===== src/Http1/Connection/Accounting.antt =====
-- src/load/http1/http1-connection.ts: no request is lost or counted twice by the handlers.
use benchkit.Load.Backpressure.{begin_backpressure-IsNeutral, finish_backpressure-IsNeutral}
use benchkit.Http1.Framing.{ParseError}
use benchkit.Http1.Parser
use benchkit.Http1.Parser.{reset, Outcome}
use benchkit.Http1.Bytes.{Bytes}
use benchkit.Prelude.{
  ℕ, ◌+◌, ◌≡◌, refl, Bool, true, false, not, ◌&&◌, ◌||◌, Option, none, some, List, [], ◌∷◌, ◌++◌,
  map, length, replicate, arith, OnSome, OnSome-bind, ◌*◌, bind, if_both,
}
use benchkit.Timestamps
use benchkit.Timestamps.{TimestampQueue, capacity}
use benchkit.Load.Effects.{
  OwnerView, Effect, requests_sent, sent_in, answered_in, aborted_in, total, total-append, closed,
  idle, IsNeutral,
}
use benchkit.Http1.Connection.{
  WorkerData, Connection, in_flight, stamp, write_calls, accepted, finish, after_write, written,
  send, replenish_closed_loop, fill_closed_loop, flush_scheduled_operations, respond, on_data,
  on_connect, on_drain, on_close, protocol_failed, replenish_unless_failed, left, reconnect_if,
  closing, closed_down, is_current,
}
use benchkit.Http1.Connection.Neutral.{write_calls-IsNeutral, IsBalanced, shift-size, stamp-size}

module _ (d : WorkerData) (view : OwnerView) (now : ℕ) where
  after_write-IsNeutral :
      (taken : Bool) (c : Connection)
      → IsNeutral (after_write d view now taken c).1
        × (in_flight (after_write d view now taken c).0 ≡ in_flight c)
  after_write-IsNeutral true c = ((refl, refl, refl), refl)
  after_write-IsNeutral false c =
      (begin_backpressure-IsNeutral view.recording_active now c.backpressure, refl)

  written-IsBalanced :
      (accepts : ℕ → Bool) (count before : ℕ) (c : Connection) (lags : List Effect)
      → IsNeutral lags
      → in_flight c ≡ before + count
      → IsBalanced before (written d view now accepts count c lags)
  written-IsBalanced accepts count before c lags h k = omega (
    arith,
    after_write-IsNeutral (accepted d accepts count) c,
    write_calls-IsNeutral d count,
    spread sent_in,
    spread answered_in,
    spread aborted_in,
  )
    where
      begun : List Effect
      begun = (after_write d view now (accepted d accepts count) c).1

      request : Effect
      request = requests_sent count (d.request_bytes * count)

      spread :
          (f : Effect → ℕ)
          → total f (lags ++ (request ∷ (write_calls d count ++ begun)))
            ≡ total f lags + (f request + (total f (write_calls d count) + total f begun))
      spread f = omega (
        arith,
        total-append f lags (request ∷ (write_calls d count ++ begun)),
        total-append f (write_calls d count) begun,
      )

  abbrev pub Balances : Connection → Option (Connection × List Effect) → Type 0
  Balances c = OnSome (IsBalanced (in_flight c))

  stamped-IsBalanced :
      (accepts : ℕ → Bool) (times : List (Option ℕ)) (c : Connection)
      → Balances c (
          bind (stamp d now c.timestamps times) λ r.
            some (written d view now accepts (length times) (record c { timestamps = r.0 }) r.1))
  stamped-IsBalanced accepts times c =
      OnSome-bind _ (IsBalanced (in_flight c)) (stamp d now c.timestamps times) _
        (stamp-size d now c.timestamps times)
        λ r h.
          written-IsBalanced accepts (length times) (in_flight c) (record c { timestamps = r.0 })
            r.1 h.1 h.0

  send-IsBalanced :
      (accepts : ℕ → Bool) (times : List (Option ℕ)) (c : Connection)
      → Balances c (send d view now accepts times c)
  unfolding send
  send-IsBalanced accepts times c = ground (arith, stamped-IsBalanced accepts times c)

  replenish_closed_loop-IsBalanced :
      (accepts : ℕ → Bool) (count : ℕ) (c : Connection)
      → Balances c (replenish_closed_loop d view now accepts count c)
  unfolding replenish_closed_loop
  replenish_closed_loop-IsBalanced accepts count c =
      ground (arith, send-IsBalanced accepts (replicate count none) c)

  pub fill_closed_loop-IsBalanced :
      (accepts : ℕ → Bool) (c : Connection) → Balances c (fill_closed_loop d view now accepts c)
  unfolding fill_closed_loop
  fill_closed_loop-IsBalanced accepts c =
      ground (arith, replenish_closed_loop-IsBalanced accepts d.pipelining c)

  pub flush_scheduled_operations-IsBalanced :
      (accepts : ℕ → Bool) (c : Connection)
      → Balances c (flush_scheduled_operations d view now accepts c)
  unfolding flush_scheduled_operations
  flush_scheduled_operations-IsBalanced accepts c =
      ground (arith, send-IsBalanced accepts (map some c.rate_batch) c)

  respond-IsBalanced :
      (statuses : List ℕ) (c : Connection)
      → IsBalanced
          (in_flight c)
          ((respond d view now statuses c).0, (respond d view now statuses c).1)
  unfolding respond
  respond-IsBalanced [] c = omega arith
  respond-IsBalanced (status ∷ more) c = ground (
    arith,
    shift-size c.timestamps,
    respond-IsBalanced more (record c { protocol_failure = true }),
    respond-IsBalanced more (record c { timestamps = (Timestamps.shift c.timestamps).1 }),
  )

  protocol_failed-IsBalanced : (c : Connection) → IsBalanced (in_flight c) (protocol_failed c)
  protocol_failed-IsBalanced c = omega arith

  replenish_unless_failed-IsBalanced :
      (accepts : ℕ → Bool) (e : Option ParseError) (count : ℕ) (c : Connection)
      → IsBalanced (in_flight c) (replenish_unless_failed d view now accepts e count c)
  replenish_unless_failed-IsBalanced accepts none count c =
      ground (arith, replenish_closed_loop-IsBalanced accepts count c)
  replenish_unless_failed-IsBalanced accepts (some e) count c = omega arith

  pub on_data-IsBalanced :
      (accepts : ℕ → Bool) (socket : ℕ) (chunk : Bytes) (c : Connection)
      → IsBalanced (in_flight c) (on_data d view now accepts socket chunk c)
  unfolding on_data
  on_data-IsBalanced accepts socket chunk c =
      if_both (IsBalanced (in_flight c)) (not (is_current c.socket socket) || c.stopped)
        (omega arith)
        (omega (
          arith,
          respond-IsBalanced o.completed (record c { parser = o.parser }),
          replenish_unless_failed-IsBalanced accepts o.failure r.2 r.0,
          total-append sent_in r.1 es,
          total-append answered_in r.1 es,
          total-append aborted_in r.1 es,
        ))
    where
      o : Outcome
      o = Parser.push d.method d.max_header_bytes c.parser chunk

      r : Connection × List Effect × ℕ
      r = respond d view now o.completed (record c { parser = o.parser })

      es : List Effect
      es = (replenish_unless_failed d view now accepts o.failure r.2 r.0).1

  pub on_connect-IsBalanced :
      (accepts : ℕ → Bool) (socket : ℕ) (c : Connection)
      → Balances c (on_connect d view now accepts socket c)
  unfolding on_connect
  on_connect-IsBalanced accepts socket c = ground (
    arith,
    fill_closed_loop-IsBalanced accepts
        (record c { is_connected = true; reconnect_scheduled = false }),
  )

  drained-IsBalanced :
      (accepts : ℕ → Bool) (c c' : Connection) (es : List Effect)
      → IsNeutral es
      → in_flight c' ≡ in_flight c
      → Balances c (
          bind
            (send d view now accepts
              (replicate c'.pending_closed_loop none)
              (record c' { pending_closed_loop = 0 }))
            λ r. some (r.0, es ++ r.1))
  drained-IsBalanced accepts c c' es h k =
      OnSome-bind (IsBalanced (in_flight c')) (IsBalanced (in_flight c))
        (send d view now accepts (replicate c'.pending_closed_loop none)
          (record c' { pending_closed_loop = 0 }))
        _
        (send-IsBalanced accepts (replicate c'.pending_closed_loop none)
          (record c' { pending_closed_loop = 0 }))
        (λ r b. omega (
          arith,
          total-append sent_in es r.1,
          total-append answered_in es r.1,
          total-append aborted_in es r.1,
        ))

  pub on_drain-IsBalanced :
      (accepts : ℕ → Bool) (socket : ℕ) (c : Connection)
      → Balances c (on_drain d view now accepts socket c)
  unfolding on_drain
  on_drain-IsBalanced accepts socket c = ground (
    arith,
    finish_backpressure-IsNeutral now c.backpressure,
    drained-IsBalanced accepts c (finish d view now c).0 (finish d view now c).1
        (finish_backpressure-IsNeutral now c.backpressure) refl,
  )

  left-IsNeutral : (is_connected : Bool) → IsNeutral (left d view now is_connected)
  left-IsNeutral true = (refl, refl, refl)
  left-IsNeutral false = (refl, refl, refl)

  reconnect_if-IsNeutral :
      (again : Bool) (c : Connection)
      → IsNeutral (reconnect_if d view now again c).1
        × (in_flight (reconnect_if d view now again c).0 ≡ in_flight c)
  reconnect_if-IsNeutral true c = ground arith
  reconnect_if-IsNeutral false c = omega arith

  closing-IsBalanced : (c : Connection) → IsBalanced (in_flight c) (closing d view now c)
  unfolding Timestamps.clear
  closing-IsBalanced c = omega (
    arith,
    left-IsNeutral c.is_connected,
    reconnect_if-IsNeutral (not c.stopped && view.should_reconnect) (closed_down c),
    total-append sent_in (left d view now c.is_connected) rest,
    total-append answered_in (left d view now c.is_connected) rest,
    total-append aborted_in (left d view now c.is_connected) rest,
  )
    where
      rest : List Effect
      rest =
          closed (in_flight c)
          ∷ idle
          ∷ (reconnect_if d view now (not c.stopped && view.should_reconnect) (closed_down c)).1

  pub on_close-IsBalanced :
      (socket : ℕ) (c : Connection) → IsBalanced (in_flight c) (on_close d view now socket c)
  unfolding on_close
  on_close-IsBalanced socket c =
      if_both (IsBalanced (in_flight c)) (not (is_current c.socket socket)) (omega arith) (
        omega (
          arith,
          finish_backpressure-IsNeutral now c.backpressure,
          closing-IsBalanced c',
          total-append sent_in ended (closing d view now c').1,
          total-append answered_in ended (closing d view now c').1,
          total-append aborted_in ended (closing d view now c').1,
        ))
    where
      c' : Connection
      c' = (finish d view now (record c { socket = none })).0

      ended : List Effect
      ended = (finish d view now (record c { socket = none })).1
