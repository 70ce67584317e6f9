-- ===== src/Http1/Connection/Neutral.antt =====
-- src/load/http1/http1-connection.ts: the calls that leave the balance of requests alone.
use benchkit.Prelude.{
  ℕ, zero, suc, ◌+◌, ◌==◌, ◌≡◌, refl, inl, inr, Option, none, some, List, [], ◌∷◌, length, arith,
  OnSome, OnSome-bind, Bool-cases,
}
use benchkit.Timestamps
use benchkit.Timestamps.{TimestampQueue, capacity}
use benchkit.Load.Effects.{
  OwnerView, Effect, sent_in, answered_in, aborted_in, total, IsNeutral, IsNeutral-append,
}
use benchkit.Load.Backpressure.{finish_backpressure-IsNeutral}
use benchkit.Http1.Connection.{
  WorkerData, Connection, in_flight, stamp_of, lag_of, stamp, write_each, write_calls, finish,
}

pub write_each-IsNeutral : (n : ℕ) → IsNeutral (write_each n)
write_each-IsNeutral zero = (refl, refl, refl)
write_each-IsNeutral (suc n) = omega (arith, write_each-IsNeutral n)

pub write_calls-IsNeutral : (d : WorkerData) (n : ℕ) → IsNeutral (write_calls d n)
write_calls-IsNeutral d n = ground (arith, write_each-IsNeutral n)

-- What was in flight and what is sent is answered, aborted, or still in flight.
abbrev pub IsBalanced : ℕ → Connection × List Effect → Type 0
IsBalanced before r =
    total sent_in r.1 + before ≡ total answered_in r.1 + total aborted_in r.1 + in_flight r.0

pub lag_of-IsNeutral : (now : ℕ) (t : Option ℕ) → IsNeutral (lag_of now t)
lag_of-IsNeutral now none = (refl, refl, refl)
lag_of-IsNeutral now (some at) = (refl, refl, refl)

pub shift-size :
    (q : TimestampQueue)
    → OnSome (λ _. (Timestamps.shift q).1.size + 1 ≡ q.size) (Timestamps.shift q).0
unfolding Timestamps.shift
shift-size q = elim (Bool-cases (q.size == 0)) [
  | inl nothing ↦ rw nothing tt
  | inr something ↦ rw something (ground arith)
]

pub push-size :
    (q : TimestampQueue) (l t : ℕ) → OnSome (λ q'. q'.size ≡ q.size + 1) (Timestamps.push q l t)
unfolding Timestamps.push
push-size q l t = elim (Bool-cases (q.size == capacity q)) [
  | inl full ↦ rw full tt
  | inr room ↦ rw room refl
]

pub stamp-size :
    (d : WorkerData) (now : ℕ) (q : TimestampQueue) (ts : List (Option ℕ))
    → OnSome (λ r. (r.0.size ≡ q.size + length ts) × IsNeutral r.1) (stamp d now q ts)
unfolding stamp
stamp-size d now q [] = (omega arith, (refl, refl, refl))
stamp-size d now q (t ∷ ts) =
    OnSome-bind (λ q'. q'.size ≡ q.size + 1) _
      (Timestamps.push q (stamp_of d now t) (stamp_of d now t)) _
      (push-size q (stamp_of d now t) (stamp_of d now t))
      λ q' h.
        OnSome-bind (λ r. (r.0.size ≡ q'.size + length ts) × IsNeutral r.1) _ (stamp d now q' ts) _
          (stamp-size d now q' ts)
          λ r k. (omega arith, IsNeutral-append (lag_of now t) r.1 (lag_of-IsNeutral now t) k.1)

pub finish-IsBalanced :
    (d : WorkerData) (view : OwnerView) (now : ℕ) (c : Connection)
    → IsBalanced (in_flight c) (finish d view now c)
finish-IsBalanced d view now c = omega (arith, finish_backpressure-IsNeutral now c.backpressure)
