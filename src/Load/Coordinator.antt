-- ===== src/Load/Coordinator.antt =====
-- src/load/shared/load-coordinator.ts and src/load/http1/http1-load-coordinator.ts: what each worker
-- is given when the workers start.
pub mod Shares
pub mod Run
pub mod Hears
pub mod Order
pub mod Awaited
pub mod Progress
pub mod Silence
mod Tests
use benchkit.Prelude.{ℕ, zero, suc, ◌+◌, ◌/◌, ◌%◌, ltb, if◌then◌else◌, List, [], ◌∷◌}
use benchkit.Load.Rate.{RateData}

-- the number of connections of the worker with an index
abbrev pub share : ℕ → ℕ → ℕ → ℕ
share connections workers index =
    connections / workers + (if ltb index (connections % workers) then 1 else 0)

-- the loop of `#startWorkers` over the workers that are left, from an index on
abbrev pub shares_from : ℕ → ℕ → ℕ → ℕ → List ℕ
shares_from connections workers index zero = []
shares_from connections workers index (suc left) =
    share connections workers index ∷ shares_from connections workers (index + 1) left

-- `#startWorkers`: the connections of each worker in turn
unfoldable pub start_workers : ℕ → ℕ → List ℕ
start_workers connections workers = shares_from connections workers 0 workers

-- what `buildWorkerData` gives for the rate
abbrev pub build_rate_data : ℕ → ℕ → ℕ → RateData
build_rate_data rate workers index = record { rate = rate; offset = index; stride = workers }
