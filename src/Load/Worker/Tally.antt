-- ===== src/Load/Worker/Tally.antt =====
-- src/load/shared/load-worker.ts: what the worker records of the calls of its connections, and the
-- operations in flight in a list of them.
use benchkit.Prelude.{
  ℕ, zero, suc, ◌+◌, ◌≡◌, refl, Bool, true, false, some, List, [], ◌∷◌, get_elem?, set, All, arith,
  subst, ◌∙◌,
}
use benchkit.Load.Effects.{Effect, Settles, sent_in, answered_in, aborted_in, total}
use benchkit.Load.Measurement.{
  Measurement, record_completed, record_sent, record_bytes_received, record_send_call,
  record_connection_error, record_timeout, record_protocol_error, record_aborted,
  record_backpressure, record_backpressure_wait, record_buffered_amount, record_schedule_lag,
}
use benchkit.Load.Worker.{PhaseConnection, heed, heed_all, total_in_flight}

-- What was sent was answered, was reported as aborted, or is in flight.
abbrev pub AddsUp : Measurement → ℕ → Type 0
AddsUp m in_flight = m.sent ≡ m.completed + m.errors.aborted + in_flight

heed_lem :
    (bucket_of : ℕ → ℕ) (now : ℕ) (e : Effect) (m : Measurement)
    → ((heed bucket_of true now e m).sent ≡ m.sent + sent_in e)
      × ((heed bucket_of true now e m).completed ≡ m.completed + answered_in e)
      × ((heed bucket_of true now e m).errors.aborted ≡ m.errors.aborted + aborted_in e)
unfolding heed record_completed record_sent record_bytes_received record_send_call
    record_connection_error record_timeout record_protocol_error record_aborted record_backpressure
    record_backpressure_wait record_buffered_amount record_schedule_lag
heed_lem bucket_of now e m = ground arith

heed_all_lem :
    (bucket_of : ℕ → ℕ) (now : ℕ) (es : List Effect) (m : Measurement)
    → ((heed_all bucket_of true now es m).sent ≡ m.sent + total sent_in es)
      × ((heed_all bucket_of true now es m).completed ≡ m.completed + total answered_in es)
      × ((heed_all bucket_of true now es m).errors.aborted ≡ m.errors.aborted + total aborted_in es)
heed_all_lem bucket_of now [] m = omega arith
heed_all_lem bucket_of now (e ∷ es) m =
    omega (
      arith,
      heed_lem bucket_of now e m,
      heed_all_lem bucket_of now es (heed bucket_of true now e m),
    )

-- the calls of some connections keep a measurement's sum
pub heed_all-AddsUp :
    (bucket_of : ℕ → ℕ) (active : Bool) (now before later : ℕ) (es : List Effect) (m : Measurement)
    → active ≡ true
    → AddsUp m before
    → Settles before es later
    → AddsUp (heed_all bucket_of active now es m) later
heed_all-AddsUp bucket_of true now before later es m a h k =
    omega (arith, heed_all_lem bucket_of now es m)
heed_all-AddsUp bucket_of false now before later es m a h k = cc

heed-memory :
    (bucket_of : ℕ → ℕ) (active : Bool) (now : ℕ) (e : Effect) (m : Measurement)
    → (heed bucket_of active now e m).memory ≡ m.memory
unfolding heed record_completed record_sent record_bytes_received record_send_call
    record_connection_error record_timeout record_protocol_error record_aborted record_backpressure
    record_backpressure_wait record_buffered_amount record_schedule_lag
heed-memory bucket_of active now e m = ground arith

pub heed_all-memory :
    (bucket_of : ℕ → ℕ) (active : Bool) (now : ℕ) (es : List Effect) (m : Measurement)
    → (heed_all bucket_of active now es m).memory ≡ m.memory
heed_all-memory bucket_of active now [] m = refl
heed_all-memory bucket_of active now (e ∷ es) m =
    heed_all-memory bucket_of active now es (heed bucket_of active now e m)
    ∙ heed-memory bucket_of active now e m

heed-AddsUp_stopped :
    (bucket_of : ℕ → ℕ) (now n : ℕ) (e : Effect) (m : Measurement)
    → AddsUp m n
    → AddsUp (heed bucket_of false now e m) n
unfolding heed record_backpressure_wait
heed-AddsUp_stopped bucket_of now n e m h = ground arith

-- A worker that does not run records nothing of the kind.
pub heed_all-AddsUp_stopped :
    (bucket_of : ℕ → ℕ) (now n : ℕ) (es : List Effect) (m : Measurement)
    → AddsUp m n
    → AddsUp (heed_all bucket_of false now es m) n
heed_all-AddsUp_stopped bucket_of now n [] m h = h
heed_all-AddsUp_stopped bucket_of now n (e ∷ es) m h =
    heed_all-AddsUp_stopped bucket_of now n es (heed bucket_of false now e m)
      (heed-AddsUp_stopped bucket_of now n e m h)

module _ {C : Type 0} (ops : PhaseConnection C) where
  abbrev pub flying : List C → ℕ
  flying = total_in_flight ops

  pub flying-set :
      (cs : List C) (i : ℕ) (c c' : C)
      → get_elem? cs i ≡ some c
      → flying (set cs i c') + ops.in_flight c ≡ flying cs + ops.in_flight c'
  flying-set [] i c c' e = cc
  flying-set (x ∷ cs) zero c c' e = ground arith
  flying-set (x ∷ cs) (suc i) c c' e = omega (arith, flying-set cs i c c' e)

pub All-set :
    {C : Type 0} (Good : C → Type 0) (cs : List C) (i : ℕ) (c' : C)
    → All Good cs
    → Good c'
    → All Good (set cs i c')
All-set Good [] i c' h k = tt
All-set Good (x ∷ cs) zero c' h k = (k, h.1)
All-set Good (x ∷ cs) (suc i) c' h k = (h.0, All-set Good cs i c' h.1 k)

pub All-get :
    {C : Type 0} (Good : C → Type 0) (cs : List C) (i : ℕ) (c : C)
    → All Good cs
    → get_elem? cs i ≡ some c
    → Good c
All-get Good [] i c h e = absurd (cc)
All-get Good (x ∷ cs) zero c h e = subst Good (ground arith) h.0
All-get Good (x ∷ cs) (suc i) c h e = All-get Good cs i c h.1 e
