-- ===== src/Load/Coordinator/Silence.antt =====
-- src/load/shared/load-coordinator.ts: for whom a run waits.
use benchkit.Prelude.{
  ℕ, suc, ◌+◌, ◌<◌, ◌≡◌, Bool, true, false, List, [], ◌∷◌, arith, refl, ltb, Option, none, some,
  if_both, subst, sym, ap, ◌∙◌, if◌then◌else◌, length, get_elem?, Bool-cases, inl, inr,
}
use benchkit.Load.Measurement.{WorkerResult}
use benchkit.Load.Coordinator.Run.{
  Expected, expects_ready, expects_warmup, expects_result, Outcome, pending, got, refused, Reason,
  Wait, all_got, Event, reach, Stage, starting, warming, measuring, returned, thrown, Coordinator,
  Call, begin_warmup, conclude, proceed, settle_with, settle, begin, step, is_running, refusal,
  results,
}
use benchkit.Load.Coordinator.Hears.{Each}
use benchkit.Load.Coordinator.Awaited.{IsSilent, IsUnheard, waits_for-IsUnheard, reach-IsUnheard}
use benchkit.Load.Coordinator.Order.{Heard, after, run_hears_all}
use benchkit.Load.Coordinator.Progress.{is_pending, any_pending, run-IsProgressing}

-- what the waits of a stage are for
abbrev pub expected_in : Stage → Expected
expected_in starting = expects_ready
expected_in warming = expects_warmup
expected_in _ = expects_result

abbrev pub same_stage : Stage → Stage → Bool
same_stage starting starting = true
same_stage warming warming = true
same_stage measuring measuring = true
same_stage _ _ = false

-- The events since the run came to its stage, and so began its waits, the latest first.
module _ (workers warmup : ℕ) (has_memory : Bool) where
  abbrev pub since : List Event → List Event
  since [] = []
  since (e ∷ earlier) =
      let seen = since earlier in
      if same_stage (after workers warmup has_memory (e ∷ earlier)).stage
        (after workers warmup has_memory earlier).stage
      then e ∷ seen
      else []

module _ (workers warmup : ℕ) (old : Stage) (events : List Event) where
  -- The waits have not heard the events, or those of a new stage none.
  abbrev IsUnheardIn : Coordinator → Type 0
  IsUnheardIn c =
      is_running c.stage ≡ true
      → Each (IsUnheard (if same_stage c.stage old then events else []) (expected_in c.stage)) 0
          c.waits

  kept-IsUnheardIn :
      (c : Coordinator)
      → c.stage ≡ old
      → Each (IsUnheard events (expected_in c.stage)) 0 c.waits
      → IsUnheardIn c
  kept-IsUnheardIn c same h running =
      subst (λ b. Each (IsUnheard (if b then events else []) (expected_in c.stage)) 0 c.waits)
        (sym (ap (same_stage c.stage) (sym same) ∙ same_running c.stage running)) h
    where
      same_running : (s : Stage) → is_running s ≡ true → same_stage s s ≡ true
      same_running starting r = refl
      same_running warming r = refl
      same_running measuring r = refl
      same_running (returned rs) r = absurd cc
      same_running (thrown reason) r = absurd cc

  begin_warmup-IsUnheardIn :
      (c : Coordinator) → old ≡ starting → IsUnheardIn ((begin_warmup workers warmup c).0)
  begin_warmup-IsUnheardIn c e =
      if_both (λ (r : Coordinator × List Call). IsUnheardIn r.0) (ltb 0 warmup)
        (λ h. rw e (waits_for-IsUnheard expects_warmup workers 0))
        (λ h. rw e (waits_for-IsUnheard expects_result workers 0))

  conclude-IsUnheardIn :
      (has_memory : Bool) (o : Option (List WorkerResult)) (c : Coordinator)
      → IsUnheardIn c
      → IsUnheardIn ((conclude workers warmup has_memory o c).0)
  conclude-IsUnheardIn has_memory none c h = h
  conclude-IsUnheardIn true (some rs) c h = λ r. absurd cc
  conclude-IsUnheardIn false (some rs) c h = λ r. absurd cc

  proceed-IsUnheardIn :
      (has_memory : Bool) (stage : Stage) (c : Coordinator)
      → old ≡ stage
      → IsUnheardIn c
      → IsUnheardIn ((proceed workers warmup has_memory stage c).0)
  proceed-IsUnheardIn has_memory starting c e h = begin_warmup-IsUnheardIn c e
  proceed-IsUnheardIn has_memory warming c e h =
      λ r. rw e (waits_for-IsUnheard expects_result workers 0)
  proceed-IsUnheardIn has_memory measuring c e h =
      conclude-IsUnheardIn has_memory (results c.waits) c h
  proceed-IsUnheardIn has_memory (returned rs) c e h = h
  proceed-IsUnheardIn has_memory (thrown reason) c e h = h

  settle-IsUnheardIn :
      (has_memory : Bool) (c : Coordinator)
      → old ≡ c.stage
      → IsUnheardIn c
      → IsUnheardIn ((settle workers warmup has_memory c).0)
  unfolding settle
  settle-IsUnheardIn has_memory c e h =
      if_both (λ (r : Coordinator × List Call). IsUnheardIn r.0) (is_running c.stage)
        (from (refusal c.waits)) h
    where
      from : (o : Option Reason) → IsUnheardIn ((settle_with workers warmup has_memory o c).0)
      from (some reason) = λ r. absurd cc
      from none =
          if_both (λ (r : Coordinator × List Call). IsUnheardIn r.0) (all_got c.waits)
            (proceed-IsUnheardIn has_memory c.stage c e h) h

run-IsUnheard :
    (workers warmup : ℕ) (has_memory : Bool) (log : List Event)
    → let c = after workers warmup has_memory log in
      is_running c.stage ≡ true
      → Each (IsUnheard (since workers warmup has_memory log) (expected_in c.stage)) 0 c.waits
unfolding after step begin
run-IsUnheard workers warmup has_memory [] running = waits_for-IsUnheard expects_ready workers 0
run-IsUnheard workers warmup has_memory (e ∷ earlier) running =
    let c = after workers warmup has_memory earlier in
    let seen = since workers warmup has_memory earlier in
    let reached = record c { waits = reach e c.waits } in
    let before : IsUnheardIn workers warmup c.stage (e ∷ seen) reached = λ r.
      kept-IsUnheardIn workers warmup c.stage (e ∷ seen) reached refl
        (reach-IsUnheard seen (expected_in c.stage) e c.waits
          (run-IsUnheard workers warmup has_memory earlier r))
        r in
    settle-IsUnheardIn workers warmup c.stage (e ∷ seen) has_memory reached refl before running

-- a worker whose wait is pending, and that has brought none of the events
abbrev pub IsAwaited : List Event → Expected → List Wait → ℕ → Type 0
IsAwaited events expected ws i =
    (w : Wait) × (get_elem? ws i ≡ some w)
    × (w.expected ≡ expected)
    × (w.outcome ≡ pending)
    × IsSilent expected i events

pending_outcome : (o : Outcome) → is_pending o ≡ true → o ≡ pending
pending_outcome pending p = refl
pending_outcome (got m) p = absurd cc
pending_outcome (refused r) p = absurd cc

any_pending-IsAwaited :
    (events : List Event) (expected : Expected) (k : ℕ) (ws : List Wait)
    → Each (IsUnheard events expected) k ws
    → any_pending ws ≡ true
    → (i : ℕ) × (i < length ws)
      × (w : Wait) × (get_elem? ws i ≡ some w)
      × (w.expected ≡ expected)
      × (w.outcome ≡ pending)
      × IsSilent expected (k + i) events
any_pending-IsAwaited events expected k [] h p = absurd cc
any_pending-IsAwaited events expected k (w ∷ ws) h p = elim (Bool-cases (is_pending w.outcome)) [
  | inl here ↦
      let o = pending_outcome w.outcome here in
      (
        0,
        omega arith,
        w,
        refl,
        h.0.0,
        o,
        subst (λ j. IsSilent expected j events) (omega arith) (h.0.1 o),
      )
  | inr there ↦
      let (i, lt, w', at, kind, o, silent) =
        any_pending-IsAwaited events expected (k + 1) ws h.1 (ground (arith, p, there)) in
      (
        suc i,
        omega (arith, lt),
        w',
        at,
        kind,
        o,
        subst (λ j. IsSilent expected j events) (omega arith) silent,
      )
]

length-waits :
    (workers warmup : ℕ) (log : List Event) (stage : Stage) (ws : List Wait)
    → is_running stage ≡ true
    → Heard workers warmup log stage ws
    → length ws ≡ workers
length-waits workers warmup log starting ws r h = h.0
length-waits workers warmup log warming ws r h = h.0.0
length-waits workers warmup log measuring ws r h = h.0.0
length-waits workers warmup log (returned rs) ws r h = absurd cc
length-waits workers warmup log (thrown reason) ws r h = absurd cc

-- With at least one worker, after any events: a run that has neither returned nor thrown waits for
-- some worker whose wait, for the message of the present stage, is pending, and since the run came to
-- this stage neither that message nor a failure of the worker, a timeout of the wait or an abort has come.
pub run_never_stuck :
    (workers warmup : ℕ) (has_memory : Bool) (log : List Event)
    → 0 < workers
    → let c = after workers warmup has_memory log in
      is_running c.stage ≡ true
      → (i : ℕ) × (i < workers)
        × IsAwaited (since workers warmup has_memory log) (expected_in c.stage) c.waits i
run_never_stuck workers warmup has_memory log some_workers running =
    let c = after workers warmup has_memory log in
    let (i, lt, w, at, kind, o, silent) =
      any_pending-IsAwaited (since workers warmup has_memory log) (expected_in c.stage) 0 c.waits
        (run-IsUnheard workers warmup has_memory log running)
        (run-IsProgressing workers warmup has_memory log some_workers running) in
    let count =
      length-waits workers warmup log c.stage c.waits running
        (run_hears_all workers warmup has_memory log) in
    let quiet : IsSilent (expected_in c.stage) i (since workers warmup has_memory log) =
      subst (λ j. IsSilent (expected_in c.stage) j (since workers warmup has_memory log))
        (omega arith) silent in
    (i, omega (arith, lt, count), (w, at, kind, o, quiet))
