-- ===== src/WebSocket/Connection/Handled.antt =====
-- src/load/websocket/websocket-connection.ts: each handler keeps a connection valid.
use benchkit.Prelude.{
  ℕ, ◌+◌, ◌≡◌, refl, leb, ◌==◌, true, false, not, ◌||◌, Option, none, some, List, [], ◌∷◌, arith,
  Yields, Yields-bind, Bool-cases, inl, inr, if_both, ◌∙◌, ◌⊎◌, subst, if◌then◌else◌,
}
use benchkit.Timestamps
use benchkit.Timestamps.{TimestampQueue, capacity}
use benchkit.Timestamps.Invariant
use benchkit.Timestamps.Invariant.{shift-IsValid}
use benchkit.Load.Effects.{
  OwnerView, Effect, IsNeutral, Settles, Settles-append, idle, message, connected,
}
use benchkit.Load.Backpressure.{finish_backpressure}
use benchkit.WebSocket.Connection.{
  WorkerData, Connection, Answers, in_flight, is_open, is_current, connect, end_backpressure,
  poll_backpressure, schedule_timeout, send,
}
use benchkit.WebSocket.Connection.Handlers.{
  after, on_error, unexpected, on_close, reset_phase_state, on_reconnect_timer, on_open,
  end_if_drained, answered, refused, received, on_message, expire, on_timeout_timer,
  on_backpressure_timer, can_schedule_operation, schedule_operation,
}
use benchkit.WebSocket.Connection.Validity.{IsValid, Keeps, shut-Keeps, end_backpressure-IsNeutral}
use benchkit.WebSocket.Connection.Sending.{
  discard-Keeps, timed-IsValid, Sends, send-Sends, fill_closed_loop-Keeps,
}

-- calls before a step add up with those of the step
after-Keeps :
    (d : WorkerData) (es : List Effect) (a b : ℕ) (o : Option (Connection × List Effect))
    → Settles a es b
    → Yields (Keeps d b) o
    → Yields (Keeps d a) (after es o)
after-Keeps d es a b o h k =
    Yields-bind (Keeps d b) (Keeps d a) o _ k
      λ r k'. record { valid = k'.valid; settled = Settles-append es r.1 a b _ h k'.settled }

pub connect-Keeps :
    (d : WorkerData) (c : Connection) → IsValid d c → Keeps d (in_flight c) (connect c)
unfolding connect
connect-Keeps d c h = ground arith

pub on_reconnect_timer-Keeps :
    (d : WorkerData) (c : Connection) → IsValid d c → Keeps d (in_flight c) (on_reconnect_timer c)
unfolding connect on_reconnect_timer
on_reconnect_timer-Keeps d c h = ground arith

pub on_error-Keeps :
    (d : WorkerData) (socket : ℕ) (c : Connection)
    → IsValid d c
    → Keeps d (in_flight c) (on_error socket c)
unfolding on_error
on_error-Keeps d socket c h = ground arith

pub on_close-Keeps :
    (d : WorkerData) (now socket : ℕ) (c : Connection)
    → IsValid d c
    → Keeps d (in_flight c) (on_close now socket c)
unfolding on_close
on_close-Keeps d now socket c h =
    if_both (Keeps d (in_flight c)) (not (is_current c.socket socket)) {x = (c, [])}
      (record { valid = h; settled = refl })
      (shut-Keeps d now c (unexpected c) [] h.queue h.sized h.running (ground arith)
        (refl, refl, refl))

pub reset_phase_state-Keeps :
    (d : WorkerData) (c : Connection)
    → IsValid d c
    → in_flight c ≡ 0
    → Keeps d (in_flight c) (reset_phase_state c, [])
unfolding reset_phase_state Timestamps.clear
reset_phase_state-Keeps d c h e = ground arith

end_backpressure-IsValid :
    (d : WorkerData) (now : ℕ) (c : Connection)
    → IsValid d c
    → IsValid d (end_backpressure now c).0 × (in_flight (end_backpressure now c).0 ≡ in_flight c)
unfolding end_backpressure finish_backpressure
end_backpressure-IsValid d now c h = ground arith

shift_lem :
    (q : TimestampQueue)
    → ((Timestamps.shift q).0 ≡ none) × ((Timestamps.shift q).1.size ≡ q.size)
      ⊎ (at : ℕ) × ((Timestamps.shift q).0 ≡ some at) × ((Timestamps.shift q).1.size + 1 ≡ q.size)
unfolding Timestamps.shift
shift_lem q = elim (Bool-cases (q.size == 0)) [
  | inl nothing ↦ rw nothing (inl (refl, refl))
  | inr something ↦ rw something (inr (_, refl, ground arith))
]

module _ (d : WorkerData) (view : OwnerView) (a : Answers) (now : ℕ) where
  pub on_open-Keeps :
      (socket : ℕ) (c : Connection)
      → IsValid d c
      → Yields (Keeps d (in_flight c)) (on_open d view a now socket c)
  unfolding on_open
  on_open-Keeps socket c h = elim (Bool-cases (not (is_current c.socket socket) || c.stopped)) [
    | inl other ↦ rw other (record { valid = h; settled = refl })
    | inr current ↦ rw current (
        after-Keeps d (connected ∷ []) (in_flight c) (in_flight c) _ refl
          (fill_closed_loop-Keeps d view a now (record c { is_connected = true }) (ground arith)))
  ]

  end_if_drained_lem :
      (c : Connection)
      → IsValid d c
      → IsValid d (end_if_drained d view a now c).0
        × (in_flight (end_if_drained d view a now c).0 ≡ in_flight c)
        × IsNeutral (end_if_drained d view a now c).1
  end_if_drained_lem c h =
      ground (arith, end_backpressure-IsValid d now c h, end_backpressure-IsNeutral now c)

  -- `c'` is the connection with its oldest operation taken out
  answered-Keeps :
      (bytes at : ℕ) (queue : TimestampQueue) (c : Connection)
      → IsValid d c
      → is_open c.socket ≡ true
      → Invariant.IsValid queue
      → capacity queue ≡ d.max_in_flight
      → queue.size + 1 ≡ in_flight c
      → Yields
          (Keeps d (in_flight c))
          (answered d view a now bytes at (record c { timestamps = queue }))
  unfolding schedule_timeout
  answered-Keeps bytes at queue c h open' valid sized fewer =
      let timed = schedule_timeout d now (record c { timestamps = queue }) in
      let k = end_if_drained_lem timed (timed-IsValid d view a now queue c h open' valid sized) in
      let drained = end_if_drained d view a now timed in
      after-Keeps d (message bytes at ∷ idle ∷ drained.1) (in_flight c) (in_flight drained.0) _
        (omega (arith, k.1, k.2, fewer)) (fill_closed_loop-Keeps d view a now drained.0 k.0)

  refused-Keeps :
      (socket : ℕ) (c : Connection)
      → Invariant.IsValid c.timestamps
      → capacity c.timestamps ≡ d.max_in_flight
      → c.stopped ≡ false
      → is_current c.socket socket ≡ true
      → Yields (Keeps d (in_flight c)) (refused d view a now socket c)
  refused-Keeps socket c queue sized running current =
      let k = discard-Keeps d a now socket c queue sized running current in
      record { valid = k.valid; settled = omega (arith, k.settled) }

  shifted-Keeps :
      (socket bytes : ℕ) (c : Connection)
      → IsValid d c
      → is_current c.socket socket ≡ true
      → ((Timestamps.shift c.timestamps).0 ≡ none)
          × ((Timestamps.shift c.timestamps).1.size ≡ in_flight c)
        ⊎ (at : ℕ) × ((Timestamps.shift c.timestamps).0 ≡ some at)
          × ((Timestamps.shift c.timestamps).1.size + 1 ≡ in_flight c)
      → Yields (Keeps d (in_flight c)) (
          received d view a now socket
            (some bytes)
            (Timestamps.shift c.timestamps).0
            (record c { timestamps = (Timestamps.shift c.timestamps).1 }))
  shifted-Keeps socket bytes c h current (inl (nothing, same)) =
      let k = shift-IsValid c.timestamps h.queue in
      let r =
        refused-Keeps socket (record c { timestamps = (Timestamps.shift c.timestamps).1 }) k.0
          (k.1 ∙ h.sized) h.running current in
      rw nothing (
        subst
          (λ n. Yields (Keeps d n) (
            refused d view a now socket
              (record c { timestamps = (Timestamps.shift c.timestamps).1 })))
          same r)
  shifted-Keeps socket bytes c h current (inr (at, oldest, fewer)) =
      let k = shift-IsValid c.timestamps h.queue in
      rw oldest (
        answered-Keeps bytes at (Timestamps.shift c.timestamps).1 c h (ground arith) k.0
          (k.1 ∙ h.sized) fewer)

  pub on_message-Keeps :
      (socket bytes : ℕ) (c : Connection)
      → IsValid d c
      → Yields (Keeps d (in_flight c)) (on_message d view a now socket (some bytes) c)
  unfolding on_message
  on_message-Keeps socket bytes c h =
      elim (Bool-cases (not (is_current c.socket socket) || c.stopped)) [
        | inl other ↦ rw other (record { valid = h; settled = refl })
        | inr current ↦
            rw current (shifted-Keeps socket bytes c h (ground arith) (shift_lem c.timestamps))
      ]

  untimed-IsValid :
      (c : Connection)
      → IsValid d c
      → in_flight c ≡ 0
      → IsValid d (record c { timeout_timer = none })
  untimed-IsValid c h e = ground arith

  expire-Keeps :
      (o : Option ℕ) (c : Connection)
      → IsValid d c
      → c.socket ≡ o
      → Keeps d (in_flight c) (expire d view a now o (record c { timeout_timer = none }))
  expire-Keeps none c h e = record { valid = untimed-IsValid c h (ground arith); settled = refl }
  expire-Keeps (some socket) c h e =
      let k =
        discard-Keeps d a now socket (record c { timeout_timer = none }) h.queue h.sized h.running
          (ground arith) in
      record { valid = k.valid; settled = omega (arith, k.settled) }

  timed_out-Keeps :
      (o : Option ℕ) (c : Connection)
      → IsValid d c
      → c.timeout_timer ≡ o
      → Keeps d (in_flight c) (elim o [
        | none ↦ (c, [])
        | some at ↦
            let c' = record c { timeout_timer = none } in
            if in_flight c == 0 then (c', []) else expire d view a now c.socket c'
      ])
  timed_out-Keeps none c h e = record { valid = h; settled = refl }
  timed_out-Keeps (some at) c h e = elim (Bool-cases (in_flight c == 0)) [
    | inl empty ↦ rw empty (record { valid = untimed-IsValid c h (ground arith); settled = refl })
    | inr some_left ↦ rw some_left (expire-Keeps c.socket c h refl)
  ]

  pub on_timeout_timer-Keeps :
      (c : Connection) → IsValid d c → Keeps d (in_flight c) (on_timeout_timer d view a now c)
  unfolding on_timeout_timer
  on_timeout_timer-Keeps c h = timed_out-Keeps c.timeout_timer c h refl

  unpolled_lem :
      (c : Connection)
      → IsValid d c
      → c.backpressure_timer ≡ true
      → let r = end_backpressure now (record c { backpressure_timer = false }) in
        IsValid d r.0 × (in_flight r.0 ≡ in_flight c) × IsNeutral r.1
  unfolding end_backpressure finish_backpressure
  unpolled_lem c h e = ground arith

  polled-IsValid :
      (c : Connection)
      → IsValid d c
      → c.backpressure_timer ≡ true
      → IsValid d (poll_backpressure (record c { backpressure_timer = false }))
        × (in_flight (poll_backpressure (record c { backpressure_timer = false })) ≡ in_flight c)
  unfolding poll_backpressure
  polled-IsValid c h e = ground arith

  pub on_backpressure_timer-Keeps :
      (c : Connection)
      → IsValid d c
      → Yields (Keeps d (in_flight c)) (on_backpressure_timer d view a now c)
  unfolding on_backpressure_timer
  on_backpressure_timer-Keeps c h = elim (Bool-cases (not c.backpressure_timer)) [
    | inl cleared ↦ rw cleared (record { valid = h; settled = refl })
    | inr fires ↦
        let c' = end_backpressure now (record c { backpressure_timer = false }) in
        let k = unpolled_lem c h (ground arith) in
        let p = polled-IsValid c h (ground arith) in
        rw fires (
          if_both (Yields (Keeps d (in_flight c)))
            (not (is_open c.socket) || leb (a.buffered 0) d.max_buffered_bytes)
            (after-Keeps d c'.1 (in_flight c) (in_flight c'.0) _ (omega (arith, k.1, k.2))
              (fill_closed_loop-Keeps d view a now c'.0 k.0))
            (record { valid = p.0; settled = omega (arith, p.1) }))
  ]

  pub schedule_operation-Keeps :
      (scheduled_at : ℕ) (c : Connection)
      → IsValid d c
      → can_schedule_operation d view a now c ≡ true
      → Yields (Keeps d (in_flight c)) (schedule_operation d view a now scheduled_at c)
  unfolding schedule_operation
  schedule_operation-Keeps scheduled_at c h e = rw e (
      Yields-bind (Sends d view a now c) (Keeps d (in_flight c))
        (send d view a now 0 (some scheduled_at) c) _
        (send-Sends d view a now 0 (some scheduled_at) c h) λ r k. k.0)
