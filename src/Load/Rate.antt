-- ===== src/Load/Rate.antt =====
-- src/load/shared/load-worker.ts: a tick of the fixed rate, which shares a global sequence of
-- operations among the workers and hands this worker's part to its connections in turn. A connection
-- is of any type with the operations that the tick calls. Times are whole microseconds, the rate a
-- whole number per second.
pub mod Shares
pub mod Tick
use benchkit.Prelude.{
  ℕ, zero, suc, ◌+◌, ◌-◌, ◌*◌, ◌/◌, ◌%◌, leb, min, if◌then◌else◌, Bool, true, false, Option, none,
  some, List, [], ◌∷◌, length, get_elem?, set, ◌≡◌, bind, not, ◌++◌,
}
use benchkit.Load.Effects.{Effect}

-- `canScheduleOperation`, and `scheduleOperation` and `flushScheduledOperations`, which throw where
-- they answer `none`
pub record RateConnection (C : Type 0) : Type 0 where
  pub can_schedule : C → Bool
  pub schedule : ℕ → C → Option C
  pub flush : C → Option (C × List Effect)

-- A connection that says it can is scheduled.
pub record IsRateConnection (C : Type 0) (ops : RateConnection C) : Type 0 where
  pub schedules :
      (at : ℕ) (c : C) → ops.can_schedule c ≡ true → (c' : C) × (ops.schedule at c ≡ some c')

-- `rateSequenceOffset`, `rateSequenceStride` and `ratePerSecond`
pub record RateData : Type 0 where
  pub rate : ℕ
  pub offset : ℕ
  pub stride : ℕ

-- `globalExpected`: how many operations of all the workers are due
abbrev pub global_expected : RateData → ℕ → ℕ → ℕ → ℕ
global_expected d now started_at stop_at = (min now stop_at - started_at) * d.rate / 1000000

-- `expected`: how many of them are this worker's
abbrev pub expected : RateData → ℕ → ℕ
expected d due = if leb due d.offset then 0 else (due - 1 - d.offset) / d.stride + 1

-- the global number of the worker's next operation
abbrev pub sequence : RateData → ℕ → ℕ
sequence d scheduled = d.offset + 1 + scheduled * d.stride

abbrev pub scheduled_at : RateData → ℕ → ℕ → ℕ
scheduled_at d started_at scheduled = started_at + sequence d scheduled * 1000000 / d.rate

-- what a tick reads and writes of the worker
pub record RateState (C : Type 0) : Type 0 where
  pub connections : List C
  pub next_connection : ℕ
  pub phase_scheduled : ℕ
  pub dropped : ℕ

module _ {C : Type 0} (ops : RateConnection C) where
  abbrev pub can_schedule_at : List C → ℕ → Bool
  can_schedule_at cs index = elim (get_elem? cs index) [
    | none ↦ false
    | some c ↦ ops.can_schedule c
  ]

  -- `#nextAvailableRateConnection` with the attempts left and the next index: what it finds, and the
  -- index to go on with
  unfoldable pub next_available : ℕ → ℕ → List C → Option ℕ × ℕ
  next_available zero next cs = (none, next)
  next_available (suc attempts) next cs =
      let after = (next + 1) % length cs in
      let rest = next_available attempts after cs in
      if can_schedule_at cs next then (some next, after) else rest

  -- `connection.scheduleOperation(scheduledAt)` of the connection at an index
  abbrev pub schedule_at : List C → ℕ → ℕ → Option (List C)
  schedule_at cs index at = elim (get_elem? cs index) [
    | none ↦ none
    | some c ↦ bind (ops.schedule at c) λ c'. some (set cs index c')
  ]

  abbrev pub taken : RateState C → ℕ → RateState C
  taken r next = record r { next_connection = next; phase_scheduled = r.phase_scheduled + 1 }

  -- The loop of `#scheduleRate` over what is due, with the calls that it makes: the connection's
  -- index and the time. It runs while the worker records, so what is dropped is counted.
  unfoldable pub schedule_due : RateData → ℕ → ℕ → RateState C → Option (RateState C × List (ℕ × ℕ))
  schedule_due d started_at zero r = some (r, [])
  schedule_due d started_at (suc due) r =
      let (found, next) = next_available (length r.connections) r.next_connection r.connections in
      let at = scheduled_at d started_at r.phase_scheduled in
      elim found [
        | none ↦ some (
          record (taken r next) {
            phase_scheduled = r.phase_scheduled + 1 + due;
            dropped = r.dropped + (due + 1);
          },
          [],
        )
        | some index ↦ bind (schedule_at r.connections index at) λ cs.
            bind (schedule_due d started_at due (record (taken r next) { connections = cs }))
              λ r'. some (r'.0, (index, at) ∷ r'.1)
      ]

  unfoldable pub flush_all : List C → Option (List C × List Effect)
  flush_all [] = some ([], [])
  flush_all (c ∷ cs) =
      bind (ops.flush c) λ r. bind (flush_all cs) λ r'. some (r.0 ∷ r'.0, r.1 ++ r'.1)

  -- `#scheduleRate`: the calls that schedule, and those of the connections that flush
  unfoldable pub schedule_rate :
      RateData → Bool → ℕ → ℕ → ℕ → RateState C → Option (RateState C × List (ℕ × ℕ) × List Effect)
  schedule_rate d running now started_at stop_at r =
      if not running
      then some (r, [], [])
      else bind
          (schedule_due d started_at
            (expected d (global_expected d now started_at stop_at) - r.phase_scheduled) r)
          λ r'.
            bind (flush_all r'.0.connections)
              λ f. some (record (r'.0) { connections = f.0 }, r'.1, f.1)
