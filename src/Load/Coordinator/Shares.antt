-- ===== src/Load/Coordinator/Shares.antt =====
-- src/load/shared/load-coordinator.ts: the connections that the workers share.
use native.Mathlib.Nat.{div-add-mod, mod-lt, suc-mul}
use benchkit.Prelude.{ℕ, zero, suc, ◌+◌, ◌*◌, ◌/◌, ◌%◌, ◌≤◌, ◌≡◌, refl, ap, min, length, All, arith}
use benchkit.Latency.{sum}
use benchkit.Load.Coordinator.{shares_from, start_workers}

-- The shares of `left` workers are `base` each, and one more for those before `extra`.
sum-shares_from :
    (connections workers index left : ℕ)
    → let extra = connections % workers in
      sum (shares_from connections workers index left) + min extra index
      ≡ left * (connections / workers) + min extra (index + left)
sum-shares_from connections workers index zero = ground (arith)
sum-shares_from connections workers index (suc left) = ground (
  arith,
  sum-shares_from connections workers (index + 1) left,
  suc-mul left (connections / workers),
)

-- Every worker has its even part of the connections, or one more.
All-shares_from :
    (connections workers index left : ℕ)
    → All
        (λ n. (connections / workers ≤ n) × (n ≤ connections / workers + 1))
        (shares_from connections workers index left)
All-shares_from connections workers index zero = tt
All-shares_from connections workers index (suc left) =
    (ground arith, All-shares_from connections workers (index + 1) left)

length-shares_from :
    (connections workers index left : ℕ)
    → length (shares_from connections workers index left) ≡ left
length-shares_from connections workers index zero = refl
length-shares_from connections workers index (suc left) =
    ap suc (length-shares_from connections workers (index + 1) left)

-- At least one worker: there is one share for each worker, together they are all the connections, and
-- no two differ by more than one, each being the even part or one more.
pub start_workers_share :
    (connections workers : ℕ)
    → 1 ≤ workers
    → (length (start_workers connections workers) ≡ workers)
      × (sum (start_workers connections workers) ≡ connections)
      × All
          (λ n. (connections / workers ≤ n) × (n ≤ connections / workers + 1))
          (start_workers connections workers)
unfolding start_workers
start_workers_share connections workers pos = (
  length-shares_from connections workers 0 workers,
  omega (
    arith,
    sum-shares_from connections workers 0 workers,
    div-add-mod connections workers,
    mod-lt connections pos,
  ),
  All-shares_from connections workers 0 workers,
)
