-- ===== src/Load/Worker/Traffic.antt =====
-- src/load/shared/load-worker.ts: a worker while a phase runs and its connections handle their
-- events. What a connection calls the worker records at the time of the event.
use benchkit.Prelude.{ℕ, ◌≡◌, Option, none, some, List, [], ◌∷◌, get_elem?, set, bind, OnSome}
use benchkit.Load.Effects.{Effect, Settles}
use benchkit.Load.Worker.{PhaseConnection, Worker, heed_all}

-- the operations of a kind of connection that a phase calls, and what its own events do
pub record TrafficConnection (C E : Type 0) : Type 0 where
  pub phase : PhaseConnection C
  pub step : E → C → Option (C × List Effect)
  pub time : E → ℕ

-- A step that keeps what holds of a connection, and loses no operation.
abbrev pub Conserves : {C : Type 0} → (C → ℕ) → (C → Type 0) → ℕ → Option (C × List Effect) → Type 0
Conserves in_flight Good before = OnSome λ r. Good r.0 × Settles before r.1 (in_flight r.0)

-- The laws of such a kind of connection, with what holds of one between events and of the events
-- that reach it.
pub record IsTraffic {C E : Type 0} (ops : TrafficConnection C E) (Good : C → Type 0)
    (Fits : E → C → Type 0) : Type 0 where
  pub steps :
      (e : E) (c : C)
      → Good c
      → Fits e c
      → Conserves ops.phase.in_flight Good (ops.phase.in_flight c) (ops.step e c)
  pub fills :
      (c : C)
      → Good c
      → Conserves ops.phase.in_flight Good (ops.phase.in_flight c) (ops.phase.fill_closed_loop c)
  pub resets :
      (c : C)
      → Good c
      → ops.phase.in_flight c ≡ 0
      → Good (ops.phase.reset_phase_state c)
        × (ops.phase.in_flight (ops.phase.reset_phase_state c) ≡ 0)

module _ {C E : Type 0} (ops : TrafficConnection C E) (bucket_of : ℕ → ℕ) where
  -- the worker behind the event of the connection with an index
  abbrev pub noted : Worker C → ℕ → ℕ → C × List Effect → Worker C
  noted w now index r = record w {
    connections = set w.connections index r.0;
    measurement = heed_all bucket_of w.running now r.1 w.measurement;
  }

  unfoldable pub deliver : ℕ → E → Worker C → Option (Worker C)
  deliver index e w = elim (get_elem? w.connections index) [
    | none ↦ some w
    | some c ↦ bind (ops.step e c) λ r. some (noted w (ops.time e) index r)
  ]

  unfoldable pub traffic : List (ℕ × E) → Worker C → Option (Worker C)
  traffic [] w = some w
  traffic ((index, e) ∷ es) w = bind (deliver index e w) λ w'. traffic es w'

  abbrev pub Reaches : (E → C → Type 0) → E → Option C → Type 0
  Reaches Fits e none = Unit
  Reaches Fits e (some c) = Fits e c

  -- Every event fits the connection that it reaches.
  abbrev pub AllFit : (E → C → Type 0) → List (ℕ × E) → Worker C → Type 0
  AllFit Fits [] w = Unit
  AllFit Fits ((index, e) ∷ es) w =
      Reaches Fits e (get_elem? w.connections index)
      × OnSome (λ w'. AllFit Fits es w') (deliver index e w)
