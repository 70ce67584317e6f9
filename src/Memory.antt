-- ===== src/Memory.antt =====
-- src/measurement/process-memory-peak-tracker.ts: the peaks of a process's memory. What
-- `process.memoryUsage` answers is an argument.
mod Tests
pub mod Peak
use benchkit.Prelude.{ℕ, max, Option, none, some, List, [], ◌∷◌}

-- `ProcessMemoryUsage`
pub record MemoryUsage : Type 0 where
  pub rss : ℕ
  pub heap_total : ℕ
  pub heap_used : ℕ
  pub external : ℕ
  pub array_buffers : ℕ

pub record MemoryInterval : Type 0 where
  pub started : MemoryUsage
  pub ended : MemoryUsage
  pub peak : MemoryUsage

pub record PeakTracker : Type 0 where
  pub started : Option MemoryUsage
  pub peak : Option MemoryUsage

abbrev pub new : PeakTracker
new = record { started = none; peak = none }

unfoldable pub start : MemoryUsage → PeakTracker → PeakTracker
start current t = record { started = some current; peak = some current }

-- the loop over `MEMORY_KEYS`
abbrev pub raised : MemoryUsage → MemoryUsage → MemoryUsage
raised peak current = record {
  rss = max peak.rss current.rss;
  heap_total = max peak.heap_total current.heap_total;
  heap_used = max peak.heap_used current.heap_used;
  external = max peak.external current.external;
  array_buffers = max peak.array_buffers current.array_buffers;
}

abbrev pub raised_if : Option MemoryUsage → MemoryUsage → Option MemoryUsage
raised_if none current = none
raised_if (some peak) current = some (raised peak current)

unfoldable pub sample : MemoryUsage → PeakTracker → PeakTracker
sample current t = record t { peak = raised_if t.peak current }

abbrev pub interval : Option MemoryUsage → Option MemoryUsage → MemoryUsage → Option MemoryInterval
interval (some started) (some peak) current =
    some (record { started = started; ended = current; peak = raised peak current })
interval _ _ current = none

-- Where there is no interval, the tracker stays as it is.
unfoldable pub stop : MemoryUsage → PeakTracker → Option MemoryInterval × PeakTracker
stop current t = elim (interval t.started t.peak current) [
  | none ↦ (none, t)
  | some i ↦ (some i, new)
]
