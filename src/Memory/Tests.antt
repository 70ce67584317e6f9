-- ===== src/Memory/Tests.antt =====
-- src/measurement/process-memory-peak-tracker.ts: the theorem at concrete readings.
use benchkit.Prelude.{ℕ, ◌≡◌, some, List, [], ◌∷◌}
use benchkit.Memory.{MemoryUsage, MemoryInterval, new, start, stop}
use benchkit.Memory.Peak.{sample_all, Reports, stop-Reports}

abbrev reading : ℕ → ℕ → MemoryUsage
reading heap buffers = record {
  rss = 100;
  heap_total = 50;
  heap_used = heap;
  external = 3;
  array_buffers = buffers;
}

abbrev readings : List MemoryUsage
readings = reading 20 9 ∷ reading 30 4 ∷ []

stop-Reports_example :
    (i : MemoryInterval) × (stop (reading 25 5) (sample_all readings (start (reading 10 7) new))
      ≡ (some i, new))
    × Reports (reading 10 7) (reading 25 5) readings i
stop-Reports_example = stop-Reports new (reading 10 7) (reading 25 5) readings
