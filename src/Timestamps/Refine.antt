-- ===== src/Timestamps/Refine.antt =====
-- src/load/shared/timestamp-queue.ts against a bounded first-in-first-out list of operations.
use mathlib.Core.Option
use native.Mathlib.Nat.{mod-add-mod}
use native.Mathlib.Numerals.{add-one}
use benchkit.Prelude.{
  ℕ, zero, suc, ◌+◌, ◌-◌, ◌%◌, ◌<◌, ◌==◌, if◌then◌else◌, ◌≡◌, ◌≢◌, inl, inr, refl, ap, ap₂, ◌∙◌,
  Bool, true, false, Option, none, some, List, [], ◌∷◌, ◌++◌, arith, length, get_or, set,
  get_or-set_self, get_or-set_ne, get_elem?-set_self, get_elem?-set_ne, length-set, eq-cases,
}
use benchkit.Timestamps.{
  TimestampQueue, capacity, timeout_at, set_timeout, peek_timeout_start, tail, pushed, push, shift,
}
use benchkit.Timestamps.Invariant.{IsValid, SameLength}

-- An operation in flight: what its latency and what its timeout are counted from.
pub record Sent : Type 0 where
  pub latency_start : ℕ
  pub timeout_start : ℕ

abbrev pub tracks : Option (List ℕ) → Bool
tracks none = false
tracks (some _) = true

-- Without a second array the timeout start given to `push` is dropped.
abbrev pub entry : Bool → ℕ → ℕ → Sent
entry false latency timeout = record { latency_start = latency; timeout_start = latency }
entry true latency timeout = record { latency_start = latency; timeout_start = timeout }

abbrev slot : List ℕ → Option (List ℕ) → ℕ → Sent
slot starts timeouts i = record {
  latency_start = get_or starts i 0;
  timeout_start = timeout_at timeouts starts i;
}

-- the `n` operations from index `h` on, in arrays of length `m`
abbrev entries_from : ℕ → List ℕ → Option (List ℕ) → ℕ → ℕ → List Sent
entries_from m starts timeouts h zero = []
entries_from m starts timeouts h (suc n) =
    slot starts timeouts h ∷ entries_from m starts timeouts ((h + 1) % m) n

abbrev pub entries : TimestampQueue → List Sent
entries q = entries_from (capacity q) q.latency_starts q.timeout_starts q.head q.size

next_index : (n h k : ℕ) → h < n → suc k < n → (h + suc k) % n ≢ h
next_index n h k hn hk e = grind arith

slot-set_ne :
    (starts : List ℕ) (timeouts : Option (List ℕ)) {i j : ℕ} (l t : ℕ)
    → i ≢ j
    → slot (set starts i l) (set_timeout timeouts i t) j ≡ slot starts timeouts j
slot-set_ne starts none l t h = ground (arith, get_or-set_ne starts l 0 h)
slot-set_ne starts (some ts) l t h =
    ground (arith, get_or-set_ne starts l 0 h, get_elem?-set_ne ts t h)

slot-set_self :
    (starts : List ℕ) (timeouts : Option (List ℕ)) (i l t : ℕ)
    → i < length starts
    → SameLength (length starts) timeouts
    → slot (set starts i l) (set_timeout timeouts i t) i ≡ entry (tracks timeouts) l t
slot-set_self starts none i l t h a = ground (arith, get_or-set_self starts i l 0 h)
slot-set_self starts (some ts) i l t h a =
    ground (arith, get_or-set_self starts i l 0 h, get_elem?-set_self ts i t (omega arith))

-- A write one past the last operation appends it.
entries_from-set :
    (m : ℕ) (starts : List ℕ) (timeouts : Option (List ℕ)) (l t n h i : ℕ)
    → length starts ≡ m
    → SameLength m timeouts
    → h < m
    → n < m
    → i ≡ (h + n) % m
    → entries_from m (set starts i l) (set_timeout timeouts i t) h (suc n)
      ≡ entries_from m starts timeouts h n ++ entry (tracks timeouts) l t ∷ []
entries_from-set m starts timeouts l t zero h i len a hh hn e =
    let at : i ≡ h = grind arith in
    ap (λ s. s ∷ []) (rw at (slot-set_self starts timeouts h l t (omega arith) (rw (← len) at a)))
entries_from-set m starts timeouts l t (suc n) h i len a hh hn e =
    ap₂ ◌∷◌ (slot-set_ne starts timeouts l t (rw e (next_index m h n hh hn))) (
      entries_from-set m starts timeouts l t n ((h + 1) % m) i len a (omega arith) (omega arith)
        (e ∙ onwards))
  where
    onwards : (h + suc n) % m ≡ ((h + 1) % m + n) % m
    onwards = rw mod-add-mod (ap (λ k. k % m) (omega arith))

-- The code tests `size === 0`; `entries_from` matches on `suc`.
entries_from-cons :
    (m : ℕ) (starts : List ℕ) (timeouts : Option (List ℕ)) (h n : ℕ)
    → n ≢ 0
    → entries_from m starts timeouts h n
      ≡ slot starts timeouts h ∷ entries_from m starts timeouts ((h + 1) % m) (n - 1)
entries_from-cons m starts timeouts h zero p = absurd (p refl)
entries_from-cons m starts timeouts h (suc n) p =
    ap (λ k. entries_from m starts timeouts h (suc k)) (omega arith)

abbrev pub first_timeout : List Sent → Option ℕ
first_timeout [] = none
first_timeout (s ∷ _) = some s.timeout_start

abbrev pub first_latency : List Sent → Option ℕ
first_latency [] = none
first_latency (s ∷ _) = some s.latency_start

abbrev pub rest : List Sent → List Sent
rest [] = []
rest (_ ∷ ss) = ss

entries-pushed :
    (q : TimestampQueue) (l t : ℕ)
    → IsValid q
    → q.size ≢ capacity q
    → entries (pushed q l t) ≡ entries q ++ entry (tracks q.timeout_starts) l t ∷ []
entries-pushed q l t v room =
    rw (length-set q.latency_starts (tail q) l, add-one)
      (entries_from-set (capacity q) q.latency_starts q.timeout_starts l t q.size q.head (tail q)
        refl v.aligned (omega arith) (omega arith) refl)

length-entries_from :
    (m : ℕ) (starts : List ℕ) (timeouts : Option (List ℕ)) (h n : ℕ)
    → length (entries_from m starts timeouts h n) ≡ n
length-entries_from m starts timeouts h zero = refl
length-entries_from m starts timeouts h (suc n) =
    ap suc (length-entries_from m starts timeouts ((h + 1) % m) n)

-- The queue holds as many operations as its size says.
pub length-entries : (q : TimestampQueue) → length (entries q) ≡ q.size
length-entries q = length-entries_from (capacity q) q.latency_starts q.timeout_starts q.head q.size

-- What a bounded list of operations does on a push.
abbrev pub push_list : ℕ → List Sent → Sent → Option (List Sent)
push_list m ss s = if length ss == m then none else some (ss ++ s ∷ [])

-- `push` fails exactly on a full queue, and otherwise appends the operation.
pub push_refines :
    (q : TimestampQueue) (l t : ℕ)
    → IsValid q
    → Option.map entries (push q l t)
      ≡ push_list (capacity q) (entries q) (entry (tracks q.timeout_starts) l t)
unfolding push
push_refines q l t v = rw (length-entries q) (elim (eq-cases q.size (capacity q)) [
  | inl full ↦ ground arith
  | inr room ↦ ground (arith, entries-pushed q l t v room)
])

-- `shift` returns the oldest latency start and drops that operation.
pub shift_refines :
    (q : TimestampQueue)
    → ((shift q).0 ≡ first_latency (entries q)) × (entries (shift q).1 ≡ rest (entries q))
unfolding shift
shift_refines q =
    ground (arith, entries_from-cons (capacity q) q.latency_starts q.timeout_starts q.head q.size)

-- `peekTimeoutStart` returns the oldest timeout start and keeps the queue.
pub peek_refines : (q : TimestampQueue) → peek_timeout_start q ≡ first_timeout (entries q)
unfolding peek_timeout_start
peek_refines q =
    ground (arith, entries_from-cons (capacity q) q.latency_starts q.timeout_starts q.head q.size)
