-- ===== src/Http1/Connection/Capacity.antt =====
-- src/load/http1/http1-connection.ts: what `#send` needs and leaves.
use benchkit.Http1.Connection.Neutral.{push-size}
use benchkit.Prelude.{
  ℕ, ◌+◌, ◌-◌, ◌≤◌, ◌<◌, ◌==◌, ltb, ◌≡◌, ◌≢◌, refl, inl, inr, Bool, true, false, not, ◌||◌, Option,
  none, some, List, [], ◌∷◌, length, arith, bind, Yields, Yields-bind, Option-cases, Bool-cases,
  if_both, OnSome_eq, ◌∙◌,
}
use benchkit.Timestamps
use benchkit.Timestamps.{TimestampQueue, capacity, pushed}
use benchkit.Timestamps.Invariant
use benchkit.Timestamps.Invariant.{push-IsValid, shift-IsValid, clear-IsValid, new-IsValid}
use benchkit.Load.Effects.{OwnerView, Effect}
use benchkit.Http1.Connection.{
  WorkerData, Connection, in_flight, stamp_of, stamp, accepted, after_write, written, send, is_open,
}

-- A queue of `#timestamps` for `n` requests at most that holds `size` of them.
pub record Holds (n size : ℕ) (q : TimestampQueue) : Type 0 where
  pub valid : Invariant.IsValid q
  pub sized : capacity q ≡ n
  pub held : q.size ≡ size

push-ne-none : (q : TimestampQueue) (l t : ℕ) → q.size ≢ capacity q → Timestamps.push q l t ≢ none
unfolding Timestamps.push
push-ne-none q l t ne e = ground arith

push-Holds :
    (n size : ℕ) (q : TimestampQueue) (l t : ℕ)
    → Holds n size q
    → size < n
    → Yields (Holds n (size + 1)) (Timestamps.push q l t)
push-Holds n size q l t h room = elim (Option-cases (Timestamps.push q l t)) [
  | inl e ↦ absurd (push-ne-none q l t (omega arith) e)
  | inr (q', e) ↦
      let kept = push-IsValid q l t h.valid e in
      let grown =
        OnSome_eq (λ q'. q'.size ≡ q.size + 1) (Timestamps.push q l t) (push-size q l t) e in
      rw e (record { valid = kept.0; sized = kept.1 ∙ h.sized; held = omega arith })
]

stamp-Holds :
    (d : WorkerData) (now n size : ℕ) (q : TimestampQueue) (ts : List (Option ℕ))
    → Holds n size q
    → size + length ts ≤ n
    → Yields (λ r. Holds n (size + length ts) r.0) (stamp d now q ts)
unfolding stamp
stamp-Holds d now n size q [] h room = record {
  valid = h.valid;
  sized = h.sized;
  held = omega arith;
}
stamp-Holds d now n size q (t ∷ ts) h room =
    Yields-bind (Holds n (size + 1)) _ (Timestamps.push q (stamp_of d now t) (stamp_of d now t)) _
      (push-Holds n size q (stamp_of d now t) (stamp_of d now t) h (omega arith))
      λ q' k.
        Yields-bind (λ r. Holds n (size + 1 + length ts) r.0) _ (stamp d now q' ts) _
          (stamp-Holds d now n (size + 1) q' ts k (omega arith))
          λ r k'. record { valid = k'.valid; sized = k'.sized; held = omega arith }

-- What is waiting to be sent: the batch of scheduled requests and the closed loop's.
abbrev pub waiting : Connection → ℕ
waiting c = length c.rate_batch + c.pending_closed_loop

-- What is in flight or waiting fits the pipeline, and nothing of it outlives its socket.
pub record IsWithin (d : WorkerData) (c : Connection) : Type 0 where
  pub valid : Invariant.IsValid c.timestamps
  pub sized : capacity c.timestamps ≡ d.pipelining
  pub fits : in_flight c + waiting c ≤ d.pipelining
  pub unconnected : c.is_connected ≡ false → in_flight c + waiting c ≡ 0

-- What a send of at most `count` requests leaves: they are in flight if there was a connection.
pub record Sends (d : WorkerData) (c : Connection) (count : ℕ) (c' : Connection) : Type 0 where
  pub valid : Invariant.IsValid c'.timestamps
  pub sized : capacity c'.timestamps ≡ d.pipelining
  pub held : in_flight c' ≤ in_flight c + count
  pub unconnected : c.is_connected ≡ false → in_flight c' ≡ in_flight c
  pub same_batch : c'.rate_batch ≡ c.rate_batch
  pub same_pending : c'.pending_closed_loop ≡ c.pending_closed_loop
  pub same_connected : c'.is_connected ≡ c.is_connected

module _ (d : WorkerData) (view : OwnerView) (now : ℕ) where
  written-Sends :
      (accepts : ℕ → Bool) (c : Connection) (count : ℕ) (q : TimestampQueue) (lags : List Effect)
      → c.is_connected ≡ true
      → Holds d.pipelining (in_flight c + count) q
      → Sends d c count (written d view now accepts count (record c { timestamps = q }) lags).0
  written-Sends accepts c count q lags up h = at (accepted d accepts count)
    where
      at :
          (taken : Bool)
          → Sends d c count (after_write d view now taken (record c { timestamps = q })).0
      at true = record {
        valid = h.valid;
        sized = h.sized;
        held = omega arith;
        unconnected = λ down. absurd (ground arith);
        same_batch = refl;
        same_pending = refl;
        same_connected = refl;
      }
      at false = record {
        valid = h.valid;
        sized = h.sized;
        held = omega arith;
        unconnected = λ down. absurd (ground arith);
        same_batch = refl;
        same_pending = refl;
        same_connected = refl;
      }

  stamped-Sends :
      (accepts : ℕ → Bool) (times : List (Option ℕ)) (c : Connection)
      → c.is_connected ≡ true
      → Holds d.pipelining (in_flight c) c.timestamps
      → in_flight c + length times ≤ d.pipelining
      → Yields
          (λ r. Sends d c (length times) r.0)
          (bind (stamp d now c.timestamps times) λ r.
            some (written d view now accepts (length times) (record c { timestamps = r.0 }) r.1))
  stamped-Sends accepts times c up h room =
      Yields-bind (λ r. Holds d.pipelining (in_flight c + length times) r.0) _
        (stamp d now c.timestamps times) _
        (stamp-Holds d now d.pipelining (in_flight c) c.timestamps times h room)
        λ r k. written-Sends accepts c (length times) r.0 r.1 up k

  not_over :
      (times : List (Option ℕ)) (c : Connection)
      → in_flight c + length times ≤ d.pipelining
      → ltb (d.pipelining - in_flight c) (length times) ≡ false
  not_over times c room = ground (arith, room)

  unsendable :
      (times : List (Option ℕ)) (c : Connection)
      → c.is_connected ≡ false
      → (not (is_open c.socket) || not c.is_connected || c.stopped || length times == 0) ≡ true
  unsendable times c down = ground (arith, down)

  unsent :
      (c : Connection) (count : ℕ)
      → Holds d.pipelining (in_flight c) c.timestamps
      → Sends d c count c
  unsent c count h = record {
    valid = h.valid;
    sized = h.sized;
    held = omega arith;
    unconnected = λ down. refl;
    same_batch = refl;
    same_pending = refl;
    same_connected = refl;
  }

  pub send-Sends :
      (accepts : ℕ → Bool) (times : List (Option ℕ)) (c : Connection)
      → Holds d.pipelining (in_flight c) c.timestamps
      → in_flight c + length times ≤ d.pipelining
      → Yields (λ r. Sends d c (length times) r.0) (send d view now accepts times c)
  unfolding send
  send-Sends accepts times c h room = elim (Bool-cases c.is_connected) [
    | inl up ↦
        if_both (Yields (λ r. Sends d c (length times) r.0))
          (not (is_open c.socket) || not c.is_connected || c.stopped || length times == 0)
          (unsent c (length times) h)
          (rw (not_over times c room) (stamped-Sends accepts times c up h room))
    | inr down ↦ rw (unsendable times c down) (unsent c (length times) h)
  ]
