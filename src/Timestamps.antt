-- ===== src/Timestamps.antt =====
-- src/load/shared/timestamp-queue.ts: the ring buffer of send times that a load connection keeps
-- for its operations in flight. A time is a whole number of microseconds.
mod Tests
pub mod Invariant
pub mod Refine
pub mod History
use benchkit.Prelude.{
  ℕ, ◌+◌, ◌-◌, ◌%◌, ◌==◌, if◌then◌else◌, Bool, Option, none, some, List, [], ◌∷◌, length, get_elem?,
  get_or, set, replicate,
}

-- `#latencyStarts` and `#timeoutStarts` are arrays of the capacity's length.
pub record TimestampQueue : Type 0 where
  pub latency_starts : List ℕ
  pub timeout_starts : Option (List ℕ)
  pub head : ℕ
  pub size : ℕ

abbrev pub capacity : TimestampQueue → ℕ
capacity q = length q.latency_starts

unfoldable pub new : ℕ → Bool → TimestampQueue
new n track_timeouts = record {
  latency_starts = replicate n 0;
  timeout_starts = if track_timeouts then some (replicate n 0) else none;
  head = 0;
  size = 0;
}

-- `timeoutStarts?.[i] ?? latencyStarts[i] ?? 0`
abbrev pub timeout_at : Option (List ℕ) → List ℕ → ℕ → ℕ
timeout_at none starts i = get_or starts i 0
timeout_at (some timeouts) starts i = elim (get_elem? timeouts i) [
  | some t ↦ t
  | none ↦ get_or starts i 0
]

unfoldable pub peek_timeout_start : TimestampQueue → Option ℕ
peek_timeout_start q =
    if q.size == 0 then none else some (timeout_at q.timeout_starts q.latency_starts q.head)

-- the index that `push` writes
abbrev pub tail : TimestampQueue → ℕ
tail q = (q.head + q.size) % capacity q

abbrev pub set_timeout : Option (List ℕ) → ℕ → ℕ → Option (List ℕ)
set_timeout none i t = none
set_timeout (some timeouts) i t = some (set timeouts i t)

-- the writes of `push`, behind its test
abbrev pub pushed : TimestampQueue → ℕ → ℕ → TimestampQueue
pushed q latency_start timeout_start = record q {
  latency_starts = set q.latency_starts (tail q) latency_start;
  timeout_starts = set_timeout q.timeout_starts (tail q) timeout_start;
  size = q.size + 1;
}

-- `none` is the thrown 'load timestamp queue overflow'.
unfoldable pub push : TimestampQueue → ℕ → ℕ → Option TimestampQueue
push q latency_start timeout_start =
    if q.size == capacity q then none else some (pushed q latency_start timeout_start)

unfoldable pub shift : TimestampQueue → Option ℕ × TimestampQueue
shift q = if q.size == 0 then (none, q) else (
  some (get_or q.latency_starts q.head 0),
  record q { head = (q.head + 1) % capacity q; size = q.size - 1 },
)

unfoldable pub clear : TimestampQueue → TimestampQueue
clear q = record q { head = 0; size = 0 }
