-- ===== src/Timestamps/Invariant.antt =====
-- src/load/shared/timestamp-queue.ts: the indices stay inside the arrays.
use benchkit.Prelude.{
  ℕ, ◌≤◌, ◌<◌, ◌≡◌, Bool, true, false, Option, none, some, List, arith, length, length-set,
  length-replicate,
}
use benchkit.Timestamps.{TimestampQueue, capacity, new, tail, set_timeout, push, shift, clear}

abbrev pub SameLength : ℕ → Option (List ℕ) → Type 0
SameLength n none = Unit
SameLength n (some timeouts) = length timeouts ≡ n

pub record IsValid (q : TimestampQueue) : Type 0 where
  pub size_in : q.size ≤ capacity q
  pub head_in : 0 < capacity q → q.head < capacity q
  pub aligned : SameLength (capacity q) q.timeout_starts

pub new-IsValid : (n : ℕ) (track : Bool) → IsValid (new n track)
unfolding new
new-IsValid n true = ground (arith, length-replicate {A = ℕ} n 0)
new-IsValid n false = ground (arith, length-replicate {A = ℕ} n 0)

set_timeout-SameLength :
    (n i t : ℕ) (o : Option (List ℕ)) → SameLength n o → SameLength n (set_timeout o i t)
set_timeout-SameLength n i t none h = tt
set_timeout-SameLength n i t (some ts) h = omega (arith, length-set ts i t)

pub push-IsValid :
    (q : TimestampQueue) {q' : TimestampQueue} (latency_start timeout_start : ℕ)
    → IsValid q
    → push q latency_start timeout_start ≡ some q'
    → IsValid q' × (capacity q' ≡ capacity q)
unfolding push
push-IsValid q l t v e = ground (
  arith,
  length-set q.latency_starts (tail q) l,
  set_timeout-SameLength (capacity q) (tail q) t q.timeout_starts,
)

pub shift-IsValid :
    (q : TimestampQueue) → IsValid q → IsValid (shift q).1 × (capacity (shift q).1 ≡ capacity q)
unfolding shift
shift-IsValid q v = ground arith

pub clear-IsValid : (q : TimestampQueue) → IsValid q → IsValid (clear q)
unfolding clear
clear-IsValid q v = ground arith
