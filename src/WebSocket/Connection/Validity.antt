-- ===== src/WebSocket/Connection/Validity.antt =====
-- src/load/websocket/websocket-connection.ts: what every step of a connection keeps.
use benchkit.Prelude.{
  ℕ, ◌≡◌, refl, ltb, Bool, true, false, ◌||◌, Option, none, some, List, ◌∷◌, ◌++◌, arith,
}
use benchkit.Timestamps
use benchkit.Timestamps.{TimestampQueue, capacity}
use benchkit.Timestamps.Invariant
use benchkit.Timestamps.Invariant.{push-IsValid, clear-IsValid, new-IsValid}
use benchkit.Load.Effects.{
  Effect, IsNeutral, Settles, Settles-neutral, closed, idle, IsNeutral-append,
}
use benchkit.Load.Backpressure.{finish_backpressure, finish_backpressure-IsNeutral}
use benchkit.WebSocket.Connection.{
  WorkerData, Connection, Answers, in_flight, is_open, schedule_reconnect, end_backpressure, detach,
  closed_down, left, close_calls,
}

abbrev pub is_set : Option ℕ → Bool
is_set none = false
is_set (some at) = true

-- What holds of a connection between two events.
pub record IsValid (d : WorkerData) (c : Connection) : Type 0 where
  pub queue : Invariant.IsValid c.timestamps
  pub sized : capacity c.timestamps ≡ d.max_in_flight
  -- backpressure is polled exactly while there is some
  pub polled : c.backpressure_timer ≡ c.backpressure.backpressured
  -- a timer runs exactly while an operation is in flight
  pub watched : is_set c.timeout_timer ≡ ltb 0 (in_flight c)
  -- all of these need a socket
  pub held : is_open c.socket ≡ false → in_flight c ≡ 0
  pub joined : is_open c.socket ≡ false → c.is_connected ≡ false
  pub pressed : is_open c.socket ≡ false → c.backpressure.backpressured ≡ false
  pub running : c.stopped ≡ false
  -- it is open, or about to be opened again
  pub returns : (is_open c.socket || c.reconnect_timer) ≡ true

-- A step from so many operations in flight: it leaves a valid connection, and loses none.
pub record Keeps (d : WorkerData) (before : ℕ) (r : Connection × List Effect) : Type 0 where
  pub valid : IsValid d r.0
  pub settled : Settles before r.1 (in_flight r.0)

detached :
    (now : ℕ) (c : Connection)
    → ((detach now c).0.backpressure_timer ≡ false)
      × ((detach now c).0.backpressure.backpressured ≡ false)
unfolding end_backpressure finish_backpressure
detached now c = ground arith

pub end_backpressure-IsNeutral : (now : ℕ) (c : Connection) → IsNeutral (end_backpressure now c).1
unfolding end_backpressure
end_backpressure-IsNeutral now c = finish_backpressure-IsNeutral now c.backpressure

left-IsNeutral : (is_connected : Bool) → IsNeutral (left is_connected)
left-IsNeutral true = (refl, refl, refl)
left-IsNeutral false = (refl, refl, refl)

pub close_calls-IsNeutral : (a : Answers) (code : ℕ) → IsNeutral (close_calls a code)
close_calls-IsNeutral a code = ground arith

schedule_reconnect-IsNeutral : (c : Connection) → IsNeutral (schedule_reconnect c).1
unfolding schedule_reconnect
schedule_reconnect-IsNeutral c = ground arith

closed_down-IsValid :
    (d : WorkerData) (c : Connection)
    → Invariant.IsValid c.timestamps
    → capacity c.timestamps ≡ d.max_in_flight
    → c.stopped ≡ false
    → c.socket ≡ none
    → c.timeout_timer ≡ none
    → c.backpressure_timer ≡ false
    → c.backpressure.backpressured ≡ false
    → IsValid d (schedule_reconnect (closed_down c)).0
unfolding schedule_reconnect Timestamps.clear
closed_down-IsValid d c queue sized r s t b p = ground arith

closed_down-in_flight : (c : Connection) → in_flight (schedule_reconnect (closed_down c)).0 ≡ 0
unfolding schedule_reconnect Timestamps.clear
closed_down-in_flight c = ground arith

closed-Settles :
    (n later : ℕ) (es : List Effect)
    → IsNeutral es
    → later ≡ 0
    → Settles n (closed n ∷ idle ∷ es) later
closed-Settles n later es h k = omega arith

-- A connection that lost its socket, its timers and its operations is valid, and schedules itself.
pub shut-Keeps :
    (d : WorkerData) (now : ℕ) (c : Connection) (xs ys : List Effect)
    → Invariant.IsValid c.timestamps
    → capacity c.timestamps ≡ d.max_in_flight
    → c.stopped ≡ false
    → IsNeutral xs
    → IsNeutral ys
    → let r = detach now c in
      let (c', again) = schedule_reconnect (closed_down r.0) in
      Keeps d
        (in_flight c)
        (c', r.1 ++ (left c.is_connected ++ (xs ++ (closed (in_flight c) ∷ idle ∷ (ys ++ again)))))
unfolding end_backpressure
shut-Keeps d now c xs ys queue sized running hx hy = record {
  valid =
      closed_down-IsValid d (detach now c).0 queue sized running refl refl (detached now c).0
        (detached now c).1;
  settled =
      Settles-neutral (detach now c).1 _ _ _ (finish_backpressure-IsNeutral now c.backpressure) (
        Settles-neutral (left c.is_connected) _ _ _ (left-IsNeutral c.is_connected) (
          Settles-neutral xs _ _ _ hx (
            closed-Settles (in_flight c) _ _
              (IsNeutral-append ys _ hy
                (schedule_reconnect-IsNeutral (closed_down (detach now c).0)))
              (closed_down-in_flight (detach now c).0))));
}
