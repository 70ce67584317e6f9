-- ===== src/Http1/Connection/Filling.antt =====
-- src/load/http1/http1-connection.ts: filling and flushing stay within the pipeline.
use benchkit.Prelude.{
  ℕ, suc, ◌+◌, ◌≤◌, ◌==◌, ◌≡◌, refl, inl, inr, Bool, true, sym, ap, subst, false, not, ◌||◌, Option,
  none, some, List, [], ◌∷◌, map, length, replicate, length-replicate, arith, Yields, Yields-map,
  Yields-bind, Bool-cases, if_both, eq-cases, ◌≢◌, ◌∙◌,
}
use benchkit.Timestamps.{capacity}
use benchkit.Timestamps.Invariant
use benchkit.Timestamps.Invariant.{shift-IsValid, clear-IsValid, new-IsValid}
use benchkit.Load.Effects.{OwnerView}
use benchkit.Http1.Connection.{
  WorkerData, Connection, in_flight, send, replenish_closed_loop, fill_closed_loop,
  flush_scheduled_operations,
}
use benchkit.Http1.Connection.Capacity.{Holds, waiting, IsWithin, Sends, send-Sends}

length-map : (ts : List ℕ) → length (map some ts) ≡ length ts
length-map [] = refl
length-map (t ∷ ts) = ap suc (length-map ts)

pub IsWithin-Holds :
    (d : WorkerData) (c : Connection) → IsWithin d c → Holds d.pipelining (in_flight c) c.timestamps
IsWithin-Holds d c h = record { valid = h.valid; sized = h.sized; held = refl }

-- A send that fits beside what is waiting keeps the connection within its pipeline.
pub sent-IsWithin :
    (d : WorkerData) (c c' : Connection) (count : ℕ)
    → Sends d c count c'
    → in_flight c + count + waiting c ≤ d.pipelining
    → (c.is_connected ≡ false → in_flight c + waiting c ≡ 0)
    → IsWithin d c'
sent-IsWithin d c c' count h room down = record {
  valid = h.valid;
  sized = h.sized;
  fits = ground (arith, room, h.held, h.same_batch, h.same_pending);
  unconnected = λ e. ground (
    arith,
    down (sym h.same_connected ∙ e),
    h.unconnected (sym h.same_connected ∙ e),
    h.same_batch,
    h.same_pending,
  );
}

-- A connection with the same queue, batch and pending count, which is connected if it was.
pub kept-IsWithin :
    (d : WorkerData) (c c' : Connection)
    → IsWithin d c
    → c'.timestamps ≡ c.timestamps
    → waiting c' ≡ waiting c
    → c'.is_connected ≡ c.is_connected
    → IsWithin d c'
kept-IsWithin d c c' h q w up = record {
  valid = subst Invariant.IsValid (sym q) h.valid;
  sized = ap capacity q ∙ h.sized;
  fits = ground (arith, ap (λ t. t.size) q, w, h.fits);
  unconnected = λ e. ground (arith, ap (λ t. t.size) q, w, h.unconnected (sym up ∙ e));
}

module _ (d : WorkerData) (view : OwnerView) (now : ℕ) where
  pub replenish-IsWithin :
      (accepts : ℕ → Bool) (count : ℕ) (c : Connection)
      → Holds d.pipelining (in_flight c) c.timestamps
      → in_flight c + count + waiting c ≤ d.pipelining
      → (c.is_connected ≡ false → in_flight c + count + waiting c ≡ 0)
      → Yields (λ r. IsWithin d r.0) (replenish_closed_loop d view now accepts count c)
  unfolding replenish_closed_loop
  replenish-IsWithin accepts count c h room down =
      if_both (Yields (λ r. IsWithin d r.0)) (not view.closed_loop_active || count == 0)
        (record {
          valid = h.valid;
          sized = h.sized;
          fits = omega (arith, room);
          unconnected = λ e. omega (arith, down e);
        })
        (if_both (Yields (λ r. IsWithin d r.0)) c.backpressure.backpressured
          (record {
            valid = h.valid;
            sized = h.sized;
            fits = omega (arith, room);
            unconnected = λ e. omega (arith, down e);
          })
          (Yields-map (λ r. Sends d c (length (replicate count none)) r.0) (λ r. IsWithin d r.0)
            (send d view now accepts (replicate count none) c)
            (send-Sends d view now accepts (replicate count none) c h
              (omega (arith, length-replicate {A = Option ℕ} count none, room)))
            λ r k.
              sent-IsWithin d c r.0 (length (replicate count none)) k
                (omega (arith, length-replicate {A = Option ℕ} count none, room))
                (λ e. omega (arith, down e))))

  unfilled :
      (c : Connection)
      → c.is_connected ≡ false
      → (not view.closed_loop_active || not c.is_connected || not (in_flight c == 0)) ≡ true
  unfilled c down = ground (arith, down)

  busy_unfilled :
      (c : Connection)
      → in_flight c ≢ 0
      → (not view.closed_loop_active || not c.is_connected || not (in_flight c == 0)) ≡ true
  busy_unfilled c busy = ground (arith, busy)

  pub fill-IsWithin :
      (accepts : ℕ → Bool) (c : Connection)
      → IsWithin d c
      → waiting c ≡ 0
      → Yields (λ r. IsWithin d r.0) (fill_closed_loop d view now accepts c)
  unfolding fill_closed_loop
  fill-IsWithin accepts c h none_waiting = elim (eq-cases (in_flight c) 0) [
    | inr busy ↦ rw (busy_unfilled c busy) h
    | inl free ↦ elim (Bool-cases c.is_connected) [
      | inl up ↦
          if_both (Yields (λ r. IsWithin d r.0))
            (not view.closed_loop_active || not c.is_connected || not (in_flight c == 0)) h
            (replenish-IsWithin accepts d.pipelining c (IsWithin-Holds d c h)
              (omega (arith, free, none_waiting)) (λ down. absurd (ground (arith, up, down))))
      | inr down ↦ rw (unfilled c down) h
    ]
  ]

  pub flush-IsWithin :
      (accepts : ℕ → Bool) (c : Connection)
      → IsWithin d c
      → Yields (λ r. IsWithin d r.0) (flush_scheduled_operations d view now accepts c)
  unfolding flush_scheduled_operations
  flush-IsWithin accepts c h = if_both (Yields (λ r. IsWithin d r.0)) (length c.rate_batch == 0) h (
      Yields-bind (λ r. Sends d c (length (map some c.rate_batch)) r.0) (λ r. IsWithin d r.0)
        (send d view now accepts (map some c.rate_batch) c) _
        (send-Sends d view now accepts (map some c.rate_batch) c (IsWithin-Holds d c h)
          (omega (arith, h.fits, length-map c.rate_batch)))
        λ r k. record {
          valid = k.valid;
          sized = k.sized;
          fits = ground (arith, k.held, k.same_pending, length-map c.rate_batch, h.fits);
          unconnected = λ e. ground (
            arith,
            k.unconnected (sym k.same_connected ∙ e),
            k.same_pending,
            h.unconnected (sym k.same_connected ∙ e),
          );
        })
