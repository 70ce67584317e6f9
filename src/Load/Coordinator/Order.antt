-- ===== src/Load/Coordinator/Order.antt =====
-- src/load/shared/load-coordinator.ts: the order of a run's phases.
use benchkit.Prelude.{
  ℕ, ◌<◌, ◌≡◌, Bool, true, false, List, [], ◌∷◌, length, arith, refl, ltb, Option, none, some, ◌∙◌,
  if_both, if_cases, subst,
}
use benchkit.Load.Measurement.{WorkerResult}
use benchkit.Load.Worker.{Message, ready, warmup_complete, fatal, result}
use benchkit.Load.Coordinator.Run.{
  Expected, expects_ready, expects_warmup, expects_result, Reason, Wait, matches, all_got, Event,
  reach, Stage, starting, warming, measuring, returned, thrown, Coordinator, Call,
  begin_measurement, begin_warmup, conclude, proceed, settle_with, settle, begin, step, is_running,
  refusal, results,
}
use benchkit.Load.Coordinator.Hears.{
  Posted, Awaits, reach-Awaits, waits_for-Awaits, all_got-Each, Reported, results-Reported,
  Reported-weaken,
}
use mathlib.Core.List.Memᴰ

-- Each worker has posted a message.
abbrev pub AllPosted : ℕ → List Event → Message → Type 0
AllPosted workers log m = (i : ℕ) → i < workers → Posted log i m

abbrev pub AllReady : ℕ → ℕ → List Event → Type 0
AllReady workers warmup log =
    AllPosted workers log ready × (0 < warmup → AllPosted workers log warmup_complete)

-- What has been heard in a stage, with its waits.
abbrev pub Heard : ℕ → ℕ → List Event → Stage → List Wait → Type 0
Heard workers warmup log starting ws = Awaits workers log expects_ready ws
Heard workers warmup log warming ws =
    Awaits workers log expects_warmup ws × AllPosted workers log ready
Heard workers warmup log measuring ws =
    Awaits workers log expects_result ws × AllReady workers warmup log
Heard workers warmup log (returned rs) ws =
    (length rs ≡ workers) × Reported log 0 rs × AllReady workers warmup log
Heard workers warmup log (thrown reason) ws = Unit

ready_of : (m : Message) → matches expects_ready m ≡ true → m ≡ ready
ready_of ready p = refl
ready_of warmup_complete p = absurd cc
ready_of fatal p = absurd cc
ready_of (result r) p = absurd cc

warmup_of : (m : Message) → matches expects_warmup m ≡ true → m ≡ warmup_complete
warmup_of ready p = absurd cc
warmup_of warmup_complete p = refl
warmup_of fatal p = absurd cc
warmup_of (result r) p = absurd cc

all_got-AllPosted :
    (workers : ℕ) (log : List Event) (expected : Expected) (m : Message) (ws : List Wait)
    → ((m' : Message) → matches expected m' ≡ true → m' ≡ m)
    → Awaits workers log expected ws
    → all_got ws ≡ true
    → AllPosted workers log m
all_got-AllPosted workers log expected m ws only h p i lt =
    let (m', posted, kind) =
      all_got-Each log expected 0 ws h.1 p i (omega arith) (omega (arith, h.0, lt)) in
    subst (Posted log i) (only m' kind) posted

module _ (workers warmup : ℕ) (log : List Event) where
  abbrev pub IsKept : Coordinator → Type 0
  IsKept c = Heard workers warmup log c.stage c.waits

  begin_measurement-IsKept :
      (c : Coordinator)
      → AllReady workers warmup log
      → IsKept ((begin_measurement workers warmup c).0)
  begin_measurement-IsKept c h = (waits_for-Awaits workers log expects_result, h)

  begin_warmup-IsKept :
      (c : Coordinator) → AllPosted workers log ready → IsKept ((begin_warmup workers warmup c).0)
  begin_warmup-IsKept c h =
      if_cases (λ (r : Coordinator × List Call). IsKept r.0) (ltb 0 warmup)
        (λ e. (waits_for-Awaits workers log expects_warmup, h))
        (λ e. begin_measurement-IsKept c (h, λ lt. absurd (not_both lt e)))
    where
      not_both : 0 < warmup → ltb 0 warmup ≡ false → ⊥
      not_both lt e = ground arith

  conclude-IsKept :
      (has_memory : Bool) (o : Option (List WorkerResult)) (c : Coordinator)
      → c.stage ≡ measuring
      → results c.waits ≡ o
      → IsKept c
      → IsKept ((conclude workers warmup has_memory o c).0)
  conclude-IsKept has_memory none c m e h = h
  conclude-IsKept true (some rs) c m e h =
      let kept : Heard workers warmup log measuring c.waits =
        subst (λ stage. Heard workers warmup log stage c.waits) m h in
      let reported = results-Reported log 0 c.waits rs kept.0.1 e in
      (reported.0 ∙ kept.0.0, reported.1, kept.1)
  conclude-IsKept false (some rs) c m e h = tt

  proceed-IsKept :
      (has_memory : Bool) (stage : Stage) (c : Coordinator)
      → c.stage ≡ stage
      → all_got c.waits ≡ true
      → IsKept c
      → IsKept ((proceed workers warmup has_memory stage c).0)
  proceed-IsKept has_memory starting c e p h = begin_warmup-IsKept c (
      all_got-AllPosted workers log expects_ready ready c.waits ready_of
        (subst (λ stage. Heard workers warmup log stage c.waits) e h) p)
  proceed-IsKept has_memory warming c e p h =
      let kept : Heard workers warmup log warming c.waits =
        subst (λ stage. Heard workers warmup log stage c.waits) e h in
      begin_measurement-IsKept c (
        kept.1,
        λ lt.
            all_got-AllPosted workers log expects_warmup warmup_complete c.waits warmup_of kept.0 p,
      )
  proceed-IsKept has_memory measuring c e p h =
      conclude-IsKept has_memory (results c.waits) c e refl h
  proceed-IsKept has_memory (returned rs) c e p h = h
  proceed-IsKept has_memory (thrown reason) c e p h = h

  settle-IsKept :
      (has_memory : Bool) (c : Coordinator)
      → IsKept c
      → IsKept ((settle workers warmup has_memory c).0)
  unfolding settle
  settle-IsKept has_memory c h =
      if_both (λ (r : Coordinator × List Call). IsKept r.0) (is_running c.stage)
        (from (refusal c.waits)) h
    where
      from : (o : Option Reason) → IsKept ((settle_with workers warmup has_memory o c).0)
      from (some reason) = tt
      from none =
          if_cases (λ (r : Coordinator × List Call). IsKept r.0) (all_got c.waits)
            (λ p. proceed-IsKept has_memory c.stage c refl p h) (λ p. h)

-- The coordinator after events, the latest first.
module _ (workers warmup : ℕ) (has_memory : Bool) where
  unfoldable pub after : List Event → Coordinator
  after [] = begin workers warmup false
  after (e ∷ earlier) = (step workers warmup has_memory e (after earlier)).0

AllReady-weaken :
    (workers warmup : ℕ) (log : List Event) (e : Event)
    → AllReady workers warmup log
    → AllReady workers warmup (e ∷ log)
AllReady-weaken workers warmup log e h =
    (λ i lt. Memᴰ.tail (h.0 i lt), λ w i lt. Memᴰ.tail (h.1 w i lt))

pub Heard-reach :
    (workers warmup : ℕ) (log : List Event) (e : Event) (stage : Stage) (ws : List Wait)
    → Heard workers warmup log stage ws
    → Heard workers warmup (e ∷ log) stage (reach e ws)
Heard-reach workers warmup log e starting ws h = reach-Awaits workers log e expects_ready ws h
Heard-reach workers warmup log e warming ws h =
    (reach-Awaits workers log e expects_warmup ws h.0, λ i lt. Memᴰ.tail (h.1 i lt))
Heard-reach workers warmup log e measuring ws h =
    (reach-Awaits workers log e expects_result ws h.0, AllReady-weaken workers warmup log e h.1)
Heard-reach workers warmup log e (returned rs) ws h =
    (h.0, Reported-weaken log e 0 rs h.1, AllReady-weaken workers warmup log e h.2)
Heard-reach workers warmup log e (thrown reason) ws h = tt

-- After any events of the workers, the timers and the signal, in any order: while the run warms up,
-- each worker has posted that it is ready; while it measures, each has also posted the end of the
-- warmup, if there is one; and a run that returns has one result for each worker, which the worker
-- at its place has posted, and each worker was ready and warmed up.
pub run_hears_all :
    (workers warmup : ℕ) (has_memory : Bool) (log : List Event)
    → Heard workers warmup log
        (after workers warmup has_memory log).stage
        (after workers warmup has_memory log).waits
unfolding after step begin
run_hears_all workers warmup has_memory [] = waits_for-Awaits workers [] expects_ready
run_hears_all workers warmup has_memory (e ∷ earlier) =
    let c = after workers warmup has_memory earlier in
    settle-IsKept workers warmup (e ∷ earlier) has_memory (record c { waits = reach e c.waits })
      (Heard-reach workers warmup earlier e c.stage c.waits
        (run_hears_all workers warmup has_memory earlier))
