-- ===== src/Load/Coordinator/Progress.antt =====
-- src/load/shared/load-coordinator.ts: what a run waits for.
use benchkit.Prelude.{
  ℕ, zero, suc, ◌+◌, ◌<◌, ◌≡◌, Bool, true, false, ◌&&◌, ◌||◌, List, [], ◌∷◌, arith, refl, ltb,
  Option, none, some, if_both, if_cases, subst, bind, sym, ap, ◌∙◌,
}
use benchkit.Load.Measurement.{WorkerResult}
use benchkit.Load.Worker.{Message, ready, warmup_complete, fatal, result}
use benchkit.Load.Coordinator.Run.{
  Expected, expects_ready, expects_warmup, expects_result, Outcome, pending, got, refused, Reason,
  Wait, matches, all_got, is_got, result_in, refusal_of, Event, reach, Stage, starting, warming,
  measuring, returned, thrown, Coordinator, Call, begin_warmup, conclude, proceed, settle_with,
  settle, begin, step, is_running, refusal, results, waits_for,
}
use benchkit.Load.Coordinator.Hears.{Each, IsHeard, and_true, got_in}
use benchkit.Load.Coordinator.Order.{Heard, Heard-reach, after, run_hears_all}

abbrev pub is_pending : Outcome → Bool
is_pending pending = true
is_pending _ = false

abbrev pub any_pending : List Wait → Bool
any_pending [] = false
any_pending (w ∷ ws) = is_pending w.outcome || any_pending ws

pending_left : (ws : List Wait) → refusal ws ≡ none → all_got ws ≡ false → any_pending ws ≡ true
pending_left [] e p = absurd cc
pending_left (w ∷ ws) e p = from w.outcome e p (pending_left ws)
  where
    from :
        (o : Outcome)
        → elim (refusal_of o) [ some reason ↦ some reason | none ↦ refusal ws ] ≡ none
        → (is_got o && all_got ws) ≡ false
        → (refusal ws ≡ none → all_got ws ≡ false → any_pending ws ≡ true)
        → (is_pending o || any_pending ws) ≡ true
    from pending e p k = refl
    from (got m) e p k = k e p
    from (refused reason) e p k = absurd cc

waits_for-any_pending :
    (n : ℕ) (expected : Expected) → 0 < n → any_pending (waits_for n expected) ≡ true
waits_for-any_pending zero expected h = absurd (omega arith)
waits_for-any_pending (suc n) expected h = refl

result_of : (m : Message) → matches expects_result m ≡ true → (r : WorkerResult) × (m ≡ result r)
result_of ready p = absurd cc
result_of warmup_complete p = absurd cc
result_of fatal p = absurd cc
result_of (result r) p = (r, refl)

all_got-results :
    (log : List Event) (k : ℕ) (ws : List Wait)
    → Each (IsHeard log expects_result) k ws
    → all_got ws ≡ true
    → (rs : List WorkerResult) × (results ws ≡ some rs)
all_got-results log k [] h p = ([], refl)
all_got-results log k (w ∷ ws) h p =
    let both = and_true (is_got w.outcome) (all_got ws) p in
    let (m, o) = got_in w.outcome both.0 in
    let (r, same) = result_of m (h.0.1 m o).1 in
    let (rs, e) = all_got-results log (k + 1) ws h.1 both.1 in
    let found : result_in w.outcome ≡ some r =
      ap result_in o ∙ ap (λ m'. result_in (got m')) same in
    (
      r ∷ rs,
      ap (λ o'. bind o' λ r'. bind (results ws) λ rs'. some (r' ∷ rs')) found
          ∙ ap (λ o'. bind o' λ rs'. some (r ∷ rs')) e,
    )

-- a run that is over, or waits for some worker
abbrev pub IsProgressing : Coordinator → Type 0
IsProgressing c = is_running c.stage ≡ true → any_pending c.waits ≡ true

module _ (workers warmup : ℕ) (some_workers : 0 < workers) where
  begin_warmup-IsProgressing : (c : Coordinator) → IsProgressing ((begin_warmup workers warmup c).0)
  begin_warmup-IsProgressing c =
      if_both (λ (r : Coordinator × List Call). IsProgressing r.0) (ltb 0 warmup)
        (λ h. waits_for-any_pending workers expects_warmup some_workers)
        (λ h. waits_for-any_pending workers expects_result some_workers)

  conclude-IsProgressing :
      (has_memory : Bool) (rs : List WorkerResult) (c : Coordinator)
      → IsProgressing ((conclude workers warmup has_memory (some rs) c).0)
  conclude-IsProgressing true rs c h = absurd cc
  conclude-IsProgressing false rs c h = absurd cc

  proceed-IsProgressing :
      (log : List Event) (has_memory : Bool) (stage : Stage) (c : Coordinator)
      → c.stage ≡ stage
      → all_got c.waits ≡ true
      → is_running c.stage ≡ true
      → Heard workers warmup log stage c.waits
      → IsProgressing ((proceed workers warmup has_memory stage c).0)
  proceed-IsProgressing log has_memory starting c e p running kept = begin_warmup-IsProgressing c
  proceed-IsProgressing log has_memory warming c e p running kept =
      λ h. waits_for-any_pending workers expects_result some_workers
  proceed-IsProgressing log has_memory measuring c e p running kept =
      let (rs, e') = all_got-results log 0 c.waits kept.0.1 p in
      subst (λ o. IsProgressing ((conclude workers warmup has_memory o c).0)) (sym e')
        (conclude-IsProgressing has_memory rs c)
  proceed-IsProgressing log has_memory (returned rs) c e p running kept = absurd cc
  proceed-IsProgressing log has_memory (thrown reason) c e p running kept = absurd cc

  settle-IsProgressing :
      (log : List Event) (has_memory : Bool) (c : Coordinator)
      → Heard workers warmup log c.stage c.waits
      → IsProgressing ((settle workers warmup has_memory c).0)
  unfolding settle
  settle-IsProgressing log has_memory c kept =
      if_cases (λ (r : Coordinator × List Call). IsProgressing r.0) (is_running c.stage)
        (λ running. from (refusal c.waits) refl running) (λ over h. absurd cc)
    where
      from :
          (o : Option Reason)
          → refusal c.waits ≡ o
          → is_running c.stage ≡ true
          → IsProgressing ((settle_with workers warmup has_memory o c).0)
      from (some reason) e running = λ h. absurd cc
      from none e running =
          if_cases (λ (r : Coordinator × List Call). IsProgressing r.0) (all_got c.waits)
            (λ p. proceed-IsProgressing log has_memory c.stage c refl p running kept)
            (λ p h. pending_left c.waits e p)

-- With at least one worker, a run that is not over has a wait that is pending.
pub run-IsProgressing :
    (workers warmup : ℕ) (has_memory : Bool) (log : List Event)
    → 0 < workers
    → IsProgressing (after workers warmup has_memory log)
unfolding after step begin
run-IsProgressing workers warmup has_memory [] some_workers =
    λ h. waits_for-any_pending workers expects_ready some_workers
run-IsProgressing workers warmup has_memory (e ∷ earlier) some_workers =
    let c = after workers warmup has_memory earlier in
    settle-IsProgressing workers warmup some_workers (e ∷ earlier) has_memory
      (record c { waits = reach e c.waits })
      (Heard-reach workers warmup earlier e c.stage c.waits
        (run_hears_all workers warmup has_memory earlier))
