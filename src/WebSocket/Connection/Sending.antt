-- ===== src/WebSocket/Connection/Sending.antt =====
-- src/load/websocket/websocket-connection.ts: sending and discarding keep a connection valid.
use benchkit.Prelude.{
  ℕ, zero, suc, ◌+◌, ◌<◌, ◌≡◌, refl, leb, ltb, Bool, true, false, not, ◌&&◌, ◌||◌, Option, none,
  some, List, [], ◌∷◌, arith, Yields, Yields-bind, bind, Bool-cases, inl, inr, ◌∙◌, if_both,
}
use benchkit.Timestamps
use benchkit.Timestamps.{TimestampQueue, capacity}
use benchkit.Timestamps.Invariant
use benchkit.Timestamps.Invariant.{push-IsValid}
use benchkit.Load.Effects.{
  OwnerView, Effect, IsNeutral, IsNeutral-append, Settles-append, buffered_amount, connection_error,
}
use benchkit.Load.Backpressure.{begin_backpressure, begin_backpressure-IsNeutral}
use benchkit.WebSocket.Connection.{
  WorkerData, Connection, Answers, in_flight, is_open, is_current, start_backpressure,
  poll_backpressure, schedule_timeout, deadline, discard, send, send_on, sent, check_buffered,
  lag_of, stamp_of, fill, fill_closed_loop, close_calls,
}
use benchkit.WebSocket.Connection.Validity.{
  is_set, IsValid, Keeps, shut-Keeps, close_calls-IsNeutral,
}

pub discard-Keeps :
    (d : WorkerData) (a : Answers) (now socket : ℕ) (c : Connection)
    → Invariant.IsValid c.timestamps
    → capacity c.timestamps ≡ d.max_in_flight
    → c.stopped ≡ false
    → is_current c.socket socket ≡ true
    → Keeps d (in_flight c) (discard a now socket c)
unfolding discard
discard-Keeps d a now socket c queue sized running current =
    let k =
      shut-Keeps d now c [] (close_calls a 1001) queue sized running (refl, refl, refl)
        (close_calls-IsNeutral a 1001) in
    ground (arith, k)

lag_of-IsNeutral : (now : ℕ) (t : Option ℕ) → IsNeutral (lag_of now t)
lag_of-IsNeutral now none = (refl, refl, refl)
lag_of-IsNeutral now (some at) = (refl, refl, refl)

start_backpressure-IsNeutral :
    (view : OwnerView) (now : ℕ) (c : Connection) → IsNeutral (start_backpressure view now c).1
unfolding start_backpressure
start_backpressure-IsNeutral view now c =
    begin_backpressure-IsNeutral view.recording_active now c.backpressure

-- the timer of a queue that is not empty
deadline-is_set :
    (d : WorkerData) (now : ℕ) (q : TimestampQueue)
    → is_set (deadline d now (Timestamps.peek_timeout_start q)) ≡ ltb 0 q.size
unfolding Timestamps.peek_timeout_start
deadline-is_set d now q = ground arith

start_backpressure-IsValid :
    (d : WorkerData) (view : OwnerView) (now : ℕ) (c : Connection)
    → IsValid d c
    → is_open c.socket ≡ true
    → IsValid d (start_backpressure view now c).0
      × (in_flight (start_backpressure view now c).0 ≡ in_flight c)
unfolding start_backpressure poll_backpressure begin_backpressure
start_backpressure-IsValid d view now c h open' = ground arith

module _ (d : WorkerData) (view : OwnerView) (a : Answers) (now : ℕ) where
  -- A send that does not stop the loop has added one operation.
  abbrev pub Sends : Connection → Bool × Connection × List Effect → Type 0
  Sends c r = Keeps d (in_flight c) (r.1, r.2) × (r.0 ≡ true → in_flight r.1 ≡ in_flight c + 1)

  check_buffered_lem :
      (amount : ℕ) (c : Connection)
      → IsValid d c
      → is_open c.socket ≡ true
      → IsValid d (check_buffered d view a now amount c).0
        × (in_flight (check_buffered d view a now amount c).0 ≡ in_flight c)
        × IsNeutral (check_buffered d view a now amount c).1
  check_buffered_lem amount c h open' = ground (
    arith,
    start_backpressure-IsValid d view now c h open',
    start_backpressure-IsNeutral view now c,
  )

  pub timed-IsValid :
      (q : TimestampQueue) (c : Connection)
      → IsValid d c
      → is_open c.socket ≡ true
      → Invariant.IsValid q
      → capacity q ≡ d.max_in_flight
      → IsValid d (schedule_timeout d now (record c { timestamps = q }))
  unfolding schedule_timeout
  timed-IsValid q c h open' queue sized = record {
    queue = queue;
    sized = sized;
    polled = h.polled;
    watched = deadline-is_set d now q;
    held = λ e. cc;
    joined = h.joined;
    pressed = h.pressed;
    running = h.running;
    returns = h.returns;
  }

  sent-Sends :
      (n : ℕ) (scheduled : Option ℕ) (q : TimestampQueue) (c : Connection)
      → IsValid d c
      → is_open c.socket ≡ true
      → Invariant.IsValid q
      → capacity q ≡ d.max_in_flight
      → q.size ≡ in_flight c + 1
      → Sends c (sent d view a now n scheduled (record c { timestamps = q }))
  unfolding schedule_timeout
  sent-Sends n scheduled q c h open' queue sized grown =
      let timed = schedule_timeout d now (record c { timestamps = q }) in
      let k =
        check_buffered_lem (a.buffered (n + 1)) timed (timed-IsValid q c h open' queue sized)
          open' in
      let neutral =
        IsNeutral-append (lag_of now scheduled)
          (buffered_amount (a.buffered (n + 1))
            ∷ (check_buffered d view a now (a.buffered (n + 1)) timed).1)
          (lag_of-IsNeutral now scheduled) (omega (arith, k.2)) in
      (
        record { valid = k.0; settled = omega (arith, neutral, k.1, grown) },
        λ e. omega (arith, k.1),
      )

  pushed-Sends :
      (n : ℕ) (scheduled : Option ℕ) (c : Connection)
      → IsValid d c
      → is_open c.socket ≡ true
      → in_flight c < d.max_in_flight
      → (o : Option TimestampQueue)
      → Timestamps.push c.timestamps (stamp_of d now scheduled) now ≡ o
      → Yields
          (Sends c)
          (bind o λ q. some (sent d view a now n scheduled (record c { timestamps = q })))
  unfolding Timestamps.push
  pushed-Sends n scheduled c h open' room none e = ground (arith, h.sized)
  pushed-Sends n scheduled c h open' room (some q) e =
      let k = push-IsValid c.timestamps (stamp_of d now scheduled) now h.queue e in
      sent-Sends n scheduled q c h open' k.0 (k.1 ∙ h.sized) (ground arith)

  thrown-Sends :
      (socket : ℕ) (c : Connection)
      → IsValid d c
      → is_current c.socket socket ≡ true
      → Sends c (false, (discard a now socket c).0, connection_error ∷ (discard a now socket c).1)
  thrown-Sends socket c h current =
      let k = discard-Keeps d a now socket c h.queue h.sized h.running current in
      (record { valid = k.valid; settled = omega (arith, k.settled) }, λ e. cc)

  send_on-Sends :
      (n : ℕ) (scheduled : Option ℕ) (socket : ℕ) (c : Connection)
      → IsValid d c
      → c.socket ≡ some socket
      → Yields (Sends c) (send_on d view a now n scheduled socket c)
  send_on-Sends n scheduled socket c h e =
      elim (Bool-cases (not (a.is_ready n) || leb d.max_in_flight (in_flight c))) [
        | inl no_send ↦ rw no_send (record { valid = h; settled = refl }, cc)
        | inr sends ↦ rw sends (elim (Bool-cases (not (a.accepts n))) [
          | inl thrown ↦ rw thrown (thrown-Sends socket c h (ground arith))
          | inr taken ↦ rw taken (pushed-Sends n scheduled c h (ground arith) (ground arith) _ refl)
        ])
      ]

  pub send-Sends :
      (n : ℕ) (scheduled : Option ℕ) (c : Connection)
      → IsValid d c
      → Yields (Sends c) (send d view a now n scheduled c)
  unfolding send
  send-Sends n scheduled c h = from c.socket refl
    where
      from :
          (o : Option ℕ)
          → c.socket ≡ o
          → Yields (Sends c) (elim o [
            | none ↦ some (false, c, [])
            | some socket ↦ send_on d view a now n scheduled socket c
          ])
      from none e = (record { valid = h; settled = refl }, λ e. cc)
      from (some socket) e = send_on-Sends n scheduled socket c h e

  fill-Keeps :
      (turns n : ℕ) (c : Connection)
      → IsValid d c
      → Yields (Keeps d (in_flight c)) (fill d view a now turns n c)
  unfolding fill
  fill-Keeps zero n c h = record { valid = h; settled = refl }
  fill-Keeps (suc turns) n c h =
      if_both (Yields (Keeps d (in_flight c)))
        (ltb (in_flight c) d.max_in_flight && not c.backpressure.backpressured)
        (Yields-bind (Sends c) (Keeps d (in_flight c)) (send d view a now n none c) _
          (send-Sends n none c h)
          λ r k.
            if_both (Yields (Keeps d (in_flight c))) r.0
              (Yields-bind (Keeps d (in_flight r.1)) (Keeps d (in_flight c))
                (fill d view a now turns (n + 1) r.1) _ (fill-Keeps turns (n + 1) r.1 k.0.valid)
                λ r' k'. record {
                  valid = k'.valid;
                  settled = Settles-append r.2 r'.1 _ _ _ k.0.settled k'.settled;
                })
              k.0)
        (record { valid = h; settled = refl })

  pub fill_closed_loop-Keeps :
      (c : Connection)
      → IsValid d c
      → Yields (Keeps d (in_flight c)) (fill_closed_loop d view a now c)
  unfolding fill_closed_loop
  fill_closed_loop-Keeps c h =
      if_both (Yields (Keeps d (in_flight c)))
        (not view.closed_loop_active
          || not c.is_connected
          || c.stopped
          || c.backpressure.backpressured
          || not (is_open c.socket))
        {x = some (c, [])} (record { valid = h; settled = refl }) (fill-Keeps d.max_in_flight 0 c h)
