-- ===== src/Load/Backpressure.antt =====
-- src/load/shared/load-connection.ts: the backpressure state that both kinds of connection extend.
use benchkit.Prelude.{ℕ, ◌-◌, ◌≡◌, Bool, true, false, if◌then◌else◌, List, [], ◌∷◌, arith}
use benchkit.Load.Effects.{Effect, backpressure_started, backpressure_ended, IsNeutral}

pub record Backpressure : Type 0 where
  pub backpressured : Bool
  pub measured : Bool
  pub started_at : ℕ

abbrev pub no_backpressure : Backpressure
no_backpressure = record { backpressured = false; measured = false; started_at = 0 }

-- `beginBackpressure`; the first argument is the owner's answer, whether it records.
unfoldable pub begin_backpressure : Bool → ℕ → Backpressure → Bool × Backpressure × List Effect
begin_backpressure records now b = if b.backpressured then (false, b, []) else (
  true,
  record { backpressured = true; measured = records; started_at = now },
  backpressure_started ∷ [],
)

abbrev pub ended : Backpressure → ℕ → List Effect
ended b now = if b.measured then backpressure_ended (now - b.started_at) ∷ [] else []

-- `finishBackpressure`
unfoldable pub finish_backpressure : ℕ → Backpressure → Bool × Backpressure × List Effect
finish_backpressure now b =
    if b.backpressured then (true, no_backpressure, ended b now) else (false, b, [])

-- Beginning and then finishing backpressure reports its duration exactly when the owner recorded at
-- its start, whatever it does at the end, and leaves none.
finish-begin_backpressure :
    (records : Bool) (start stop : ℕ) (b : Backpressure)
    → b.backpressured ≡ false
    → let (begun, b', started) = begin_backpressure records start b in
      let (finished, b'', stopped) = finish_backpressure stop b' in
      (begun ≡ true)
      × (finished ≡ true)
      × (b'' ≡ no_backpressure)
      × (started ≡ backpressure_started ∷ [])
      × (stopped ≡ (if records then backpressure_ended (stop - start) ∷ [] else []))
unfolding begin_backpressure finish_backpressure
finish-begin_backpressure records start stop b h = ground arith

pub begin_backpressure-IsNeutral :
    (records : Bool) (now : ℕ) (b : Backpressure) → IsNeutral (begin_backpressure records now b).2
unfolding begin_backpressure
begin_backpressure-IsNeutral records now b = ground arith

pub finish_backpressure-IsNeutral :
    (now : ℕ) (b : Backpressure) → IsNeutral (finish_backpressure now b).2
unfolding finish_backpressure
finish_backpressure-IsNeutral now b = ground arith
