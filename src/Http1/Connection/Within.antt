-- ===== src/Http1/Connection/Within.antt =====
-- src/load/http1/http1-connection.ts: the socket's handlers stay within the pipeline.
use benchkit.Prelude.{
  ℕ, ltb, ◌≡◌, refl, Bool, true, sym, false, not, ◌&&◌, ◌||◌, Option, none, some, List, length,
  replicate, length-replicate, arith, Yields, Yields-bind, if_both, ◌∙◌,
}
use benchkit.Timestamps
use benchkit.Timestamps.{TimestampQueue, capacity}
use benchkit.Timestamps.Invariant.{clear-IsValid}
use benchkit.Load.Effects.{OwnerView, Effect}
use benchkit.Load.Backpressure.{finish_backpressure}
use benchkit.Http1.Bytes.{Bytes}
use benchkit.Http1.Framing.{ParseError}
use benchkit.Http1.Parser.{Outcome}
use benchkit.Http1.Parser
use benchkit.Http1.Connection.{
  WorkerData, Connection, send, replenish_closed_loop, fill_closed_loop, respond,
  replenish_unless_failed, or_failed, on_data, on_connect, on_drain, closed_down, reconnect_if,
  on_close, finish, is_current,
}
use benchkit.Http1.Connection.Capacity.{IsWithin, Sends, send-Sends}
use benchkit.Http1.Connection.Filling.{
  sent-IsWithin, kept-IsWithin, replenish-IsWithin, fill-IsWithin,
}
use benchkit.Http1.Connection.Answers.{respond-Answers}

module _ (d : WorkerData) (view : OwnerView) (now : ℕ) where
  data-IsWithin :
      (accepts : ℕ → Bool) (failure : Option ParseError) (completed : List ℕ) (c : Connection)
      → IsWithin d c
      → let r = respond d view now completed c in
        IsWithin d (replenish_unless_failed d view now accepts failure r.2 r.0).0
  data-IsWithin accepts (some e) completed c h =
      let k = respond-Answers d view now completed c h.valid h.sized in
      record {
        valid = k.valid;
        sized = k.sized;
        fits = ground (arith, k.held, k.same_batch, k.same_pending, h.fits);
        unconnected = λ e'. ground (
          arith,
          k.held,
          k.same_batch,
          k.same_pending,
          h.unconnected (sym k.same_connected ∙ e'),
        );
      }
  data-IsWithin accepts none completed c h =
      let k = respond-Answers d view now completed c h.valid h.sized in
      let r = respond d view now completed c in
      answered (replenish_closed_loop d view now accepts r.2 r.0) r.0 (
        replenish-IsWithin d view now accepts r.2 r.0
          (record { valid = k.valid; sized = k.sized; held = refl })
          (ground (arith, k.held, k.same_batch, k.same_pending, h.fits))
          (λ e. ground (
            arith,
            k.held,
            k.same_batch,
            k.same_pending,
            h.unconnected (sym k.same_connected ∙ e),
          )))
    where
      answered :
          (o : Option (Connection × List Effect)) (c' : Connection)
          → Yields (λ r. IsWithin d r.0) o
          → IsWithin d (or_failed d view now o c').0
      answered none c' y = absurd y
      answered (some r) c' y = y

  pub on_data-IsWithin :
      (accepts : ℕ → Bool) (socket : ℕ) (chunk : Bytes) (c : Connection)
      → IsWithin d c
      → IsWithin d (on_data d view now accepts socket chunk c).0
  unfolding on_data
  on_data-IsWithin accepts socket chunk c h =
      if_both {A = Connection × List Effect} (λ r. IsWithin d r.0)
        (not (is_current c.socket socket) || c.stopped) h
        (let o = Parser.push d.method d.max_header_bytes c.parser chunk in
          data-IsWithin accepts o.failure o.completed (record c { parser = o.parser })
            (kept-IsWithin d c (record c { parser = o.parser }) h refl refl refl))

  pub on_connect-IsWithin :
      (accepts : ℕ → Bool) (socket : ℕ) (c : Connection)
      → IsWithin d c
      → c.is_connected ≡ false
      → Yields (λ r. IsWithin d r.0) (on_connect d view now accepts socket c)
  unfolding on_connect
  on_connect-IsWithin accepts socket c h down =
      if_both (Yields (λ r. IsWithin d r.0)) (c.stopped || not (is_current c.socket socket)) h (
        let c' = record c { is_connected = true; reconnect_scheduled = false } in
        Yields-bind (λ r. IsWithin d r.0) (λ r. IsWithin d r.0)
          (fill_closed_loop d view now accepts c') _
          (fill-IsWithin d view now accepts c'
            (record {
              valid = h.valid;
              sized = h.sized;
              fits = h.fits;
              unconnected = λ e. absurd (ground (arith, e));
            })
            (omega (arith, h.unconnected down)))
          λ r k. k)

  finish-kept : (c : Connection) → IsWithin d c → IsWithin d (finish d view now c).0
  unfolding finish_backpressure
  finish-kept c h = kept-IsWithin d c (finish d view now c).0 h refl refl refl

  pub on_drain-IsWithin :
      (accepts : ℕ → Bool) (socket : ℕ) (c : Connection)
      → IsWithin d c
      → Yields (λ r. IsWithin d r.0) (on_drain d view now accepts socket c)
  unfolding on_drain
  on_drain-IsWithin accepts socket c h =
      if_both (Yields (λ r. IsWithin d r.0))
        (not (is_current c.socket socket) || not c.backpressure.backpressured) h
        (let c' = (finish d view now c).0 in
          let k = finish-kept c h in
          let c'' = record c' { pending_closed_loop = 0 } in
          let count = length (replicate {A = Option ℕ} c'.pending_closed_loop none) in
          if_both (Yields (λ r. IsWithin d r.0))
            (ltb 0 c'.pending_closed_loop && view.closed_loop_active)
            (Yields-bind (λ r. Sends d c'' count r.0) (λ r. IsWithin d r.0)
              (send d view now accepts (replicate c'.pending_closed_loop none) c'') _
              (send-Sends d view now accepts (replicate c'.pending_closed_loop none) c''
                (record { valid = k.valid; sized = k.sized; held = refl })
                (omega
                  (arith, k.fits, length-replicate {A = Option ℕ} c'.pending_closed_loop none)))
              λ r s.
                sent-IsWithin d c'' r.0 count s
                  (omega
                    (arith, k.fits, length-replicate {A = Option ℕ} c'.pending_closed_loop none))
                  (λ e. omega (arith, k.unconnected e)))
            k)

  closed_down-IsWithin : (c : Connection) → IsWithin d c → IsWithin d (closed_down c)
  unfolding Timestamps.clear
  closed_down-IsWithin c h = record {
    valid = clear-IsValid c.timestamps h.valid;
    sized = h.sized;
    fits = omega arith;
    unconnected = λ _. omega arith;
  }

  reconnect-IsWithin :
      (b : Bool) (c : Connection) → IsWithin d c → IsWithin d (reconnect_if d view now b c).0
  reconnect-IsWithin false c h = h
  reconnect-IsWithin true c h =
      if_both {A = Connection × List Effect} (λ r. IsWithin d r.0) c.reconnect_scheduled h
        (kept-IsWithin d c (record c { reconnect_scheduled = true }) h refl refl refl)

  pub on_close-IsWithin :
      (socket : ℕ) (c : Connection) → IsWithin d c → IsWithin d (on_close d view now socket c).0
  unfolding on_close
  on_close-IsWithin socket c h =
      if_both {A = Connection × List Effect} (λ r. IsWithin d r.0)
        (not (is_current c.socket socket)) h
        (let c' = (finish d view now (record c { socket = none })).0 in
          reconnect-IsWithin (not c'.stopped && view.should_reconnect) (closed_down c') (
            closed_down-IsWithin c' (
              finish-kept (record c { socket = none })
                (kept-IsWithin d c (record c { socket = none }) h refl refl refl))))
