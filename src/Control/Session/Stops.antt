-- ===== src/Control/Session/Stops.antt =====
-- src/target-provider/session.ts: the stop of a session.
use benchkit.Prelude.{
  ℕ, zero, suc, ◌+◌, ◌≤◌, ◌≡◌, Bool, true, false, Option, none, some, List, [], ◌∷◌, ◌++◌, ◌⊎◌, inl,
  inr, set, get_elem?, arith, refl, subst,
}
use benchkit.Control.{
  TargetState, ready, measuring, stopping, stopped, failed, InvalidState, transition,
  can_transition,
}
use benchkit.Control.Session.{
  Error, Stage, awaits_start, awaits_summary, awaits_stop, awaits_close, ended, Command,
  target_stop, metrics_start, metrics_stop, Call, requests, closes, returns, throws, Session, new,
  ask, start_metrics, stop_metrics, stop, on_failure, move, give_up, finish_stop, resume, on_answer,
  result, conclude, on_closed, Event, starts_metrics, stops_metrics, stops, fails, answers, closed,
  on_event, run, invalid_state, request_failed,
}

-- 1 for a method that waits for the answer to `target:stop`
abbrev pub awaits : Stage → ℕ
awaits awaits_stop = 1
awaits _ = 0

abbrev pub awaiting : List Stage → ℕ
awaiting [] = 0
awaiting (stage ∷ stages) = awaits stage + awaiting stages

abbrev pub stop_requests : List Call → ℕ
stop_requests [] = 0
stop_requests (requests target_stop n ∷ calls) = suc (stop_requests calls)
stop_requests (_ ∷ calls) = stop_requests calls

abbrev pub close_calls : List Call → ℕ
close_calls [] = 0
close_calls (closes n ∷ calls) = suc (close_calls calls)
close_calls (_ ∷ calls) = close_calls calls

awaiting-append :
    (xs : List Stage) (stage : Stage) → awaiting (xs ++ stage ∷ []) ≡ awaiting xs + awaits stage
awaiting-append [] stage = omega arith
awaiting-append (x ∷ xs) stage = omega (arith, awaiting-append xs stage)

awaiting-set :
    (xs : List Stage) (n : ℕ) (old stage : Stage)
    → get_elem? xs n ≡ some old
    → awaiting (set xs n stage) + awaits old ≡ awaiting xs + awaits stage
awaiting-set [] n old stage e = absurd cc
awaiting-set (x ∷ xs) zero old stage e = ground (arith, e)
awaiting-set (x ∷ xs) (suc n) old stage e = omega (arith, awaiting-set xs n old stage e)

stop_requests-append :
    (xs ys : List Call) → stop_requests (xs ++ ys) ≡ stop_requests xs + stop_requests ys
stop_requests-append [] ys = omega arith
stop_requests-append (requests target_stop n ∷ xs) ys = omega (arith, stop_requests-append xs ys)
stop_requests-append (requests metrics_start n ∷ xs) ys = stop_requests-append xs ys
stop_requests-append (requests metrics_stop n ∷ xs) ys = stop_requests-append xs ys
stop_requests-append (closes n ∷ xs) ys = stop_requests-append xs ys
stop_requests-append (returns n ∷ xs) ys = stop_requests-append xs ys
stop_requests-append (throws n e ∷ xs) ys = stop_requests-append xs ys

close_calls-append : (xs ys : List Call) → close_calls (xs ++ ys) ≡ close_calls xs + close_calls ys
close_calls-append [] ys = omega arith
close_calls-append (closes n ∷ xs) ys = omega (arith, close_calls-append xs ys)
close_calls-append (requests command n ∷ xs) ys = close_calls-append xs ys
close_calls-append (returns n ∷ xs) ys = close_calls-append xs ys
close_calls-append (throws n e ∷ xs) ys = close_calls-append xs ys

-- In a state: the requests of `target:stop` so far, and the methods that wait for its answer.
abbrev pub Stops : TargetState → ℕ → ℕ → Type 0
Stops stopping r w = (r ≡ 1) × (w ≡ 1)
Stops stopped r w = (r ≡ 1) × (w ≡ 0)
Stops failed r w = (w ≤ r) × (r ≤ 1)
Stops _ r w = (r ≡ 0) × (w ≡ 0)

-- The same, and the client is closed for each request that has been answered.
abbrev Kept : ℕ → ℕ → Session × List Call → Type 0
Kept r c result =
    let (s, calls) = result in
    Stops s.state (r + stop_requests calls) (awaiting s.stages)
    × (r + stop_requests calls ≤ awaiting s.stages + (c + close_calls calls))

abbrev IsKept : ℕ → ℕ → Session → Type 0
IsKept r c s = Stops s.state r (awaiting s.stages) × (r ≤ awaiting s.stages + c)

ask-Kept :
    (r c : ℕ) (to : TargetState) (command : Command) (stage : Stage) (s : Session)
    → awaits stage ≡ 0
    → stop_requests (requests command 0 ∷ []) ≡ 0
    → IsKept r c s
    → Kept r c (ask to command stage s)
ask-Kept r c to command stage s e e' h =
    ground (arith, awaiting-append s.stages stage, awaiting-append s.stages ended, h)

stop-Kept : (r c : ℕ) (s : Session) → IsKept r c s → Kept r c (stop s)
unfolding stop transition can_transition
stop-Kept r c s h = ground (
  arith,
  awaiting-append s.stages ended,
  awaiting-append s.stages awaits_stop,
  awaiting-append s.stages (awaits_close none),
  h,
)

-- A method that did not wait for the answer to `target:stop` moves the session, or ends.
move-Kept :
    (r c : ℕ) (to : TargetState) (n : ℕ) (s : Session)
    → (to ≡ measuring) ⊎ (to ≡ ready)
    → awaiting (set s.stages n ended) ≡ awaiting s.stages
    → IsKept r c s
    → Kept r c (move to n s)
unfolding transition can_transition
move-Kept r c to n s (inl e) e' h = ground (arith, e, e', h)
move-Kept r c to n s (inr e) e' h = ground (arith, e, e', h)

give_up-Kept :
    (r c : ℕ) (e : Error) (n : ℕ) (s : Session)
    → awaiting (set s.stages n (awaits_close (some e))) + 1 ≡ awaiting s.stages
    → IsKept r c s
    → Kept r c (give_up e n s)
unfolding transition can_transition
give_up-Kept r c e n s e' h = ground (arith, e', h)

finish_stop-Kept :
    (r c n : ℕ) (o : InvalidState ⊎ TargetState) (s : Session)
    → transition s.state stopped ≡ o
    → ((o' : Option Error) → awaiting (set s.stages n (awaits_close o')) + 1 ≡ awaiting s.stages)
    → IsKept r c s
    → Kept r c (finish_stop o n s)
unfolding transition can_transition
finish_stop-Kept r c n (inl x) s e k h =
    give_up-Kept r c (invalid_state x) n s (k (some (invalid_state x))) h
finish_stop-Kept r c n (inr u) s e k h = ground (arith, e, k none, h)

idle-Kept : (r c : ℕ) (s : Session) → IsKept r c s → Kept r c (s, [])
idle-Kept r c s h = ground (arith, h)

resume-Kept :
    (r c : ℕ) (is_ok has_summary : Bool) (stage : Stage) (n : ℕ) (s : Session)
    → get_elem? s.stages n ≡ some stage
    → IsKept r c s
    → Kept r c (resume is_ok has_summary stage n s)
resume-Kept r c true has_summary awaits_start n s e h =
    move-Kept r c measuring n s (inl refl)
      (omega (arith, awaiting-set s.stages n awaits_start ended e)) h
resume-Kept r c true true awaits_summary n s e h =
    move-Kept r c ready n s (inr refl)
      (omega (arith, awaiting-set s.stages n awaits_summary ended e)) h
resume-Kept r c true false awaits_summary n s e h =
    ground (arith, awaiting-set s.stages n awaits_summary ended e, h)
resume-Kept r c true has_summary awaits_stop n s e h =
    finish_stop-Kept r c n (transition s.state stopped) s refl
      (λ o. omega (arith, awaiting-set s.stages n awaits_stop (awaits_close o) e)) h
resume-Kept r c false has_summary awaits_start n s e h =
    ground (arith, awaiting-set s.stages n awaits_start ended e, h)
resume-Kept r c false has_summary awaits_summary n s e h =
    ground (arith, awaiting-set s.stages n awaits_summary ended e, h)
resume-Kept r c false has_summary awaits_stop n s e h =
    give_up-Kept r c request_failed n s
      (omega (arith, awaiting-set s.stages n awaits_stop (awaits_close (some request_failed)) e)) h
resume-Kept r c true has_summary (awaits_close o) n s e h = idle-Kept r c s h
resume-Kept r c false has_summary (awaits_close o) n s e h = idle-Kept r c s h
resume-Kept r c true has_summary ended n s e h = idle-Kept r c s h
resume-Kept r c false has_summary ended n s e h = idle-Kept r c s h

conclude-Kept :
    (r c : ℕ) (is_ok : Bool) (stage : Stage) (n : ℕ) (s : Session)
    → get_elem? s.stages n ≡ some stage
    → IsKept r c s
    → Kept r c (conclude is_ok stage n s)
conclude-Kept r c true (awaits_close none) n s e h =
    ground (arith, awaiting-set s.stages n (awaits_close none) ended e, h)
conclude-Kept r c true (awaits_close (some x)) n s e h =
    ground (arith, awaiting-set s.stages n (awaits_close (some x)) ended e, h)
conclude-Kept r c false (awaits_close o) n s e h =
    ground (arith, awaiting-set s.stages n (awaits_close o) ended e, h)
conclude-Kept r c is_ok awaits_start n s e h = idle-Kept r c s h
conclude-Kept r c is_ok awaits_summary n s e h = idle-Kept r c s h
conclude-Kept r c is_ok awaits_stop n s e h = idle-Kept r c s h
conclude-Kept r c is_ok ended n s e h = idle-Kept r c s h

on_failure-Kept : (r c : ℕ) (s : Session) → IsKept r c s → Kept r c (on_failure s, [])
unfolding on_failure transition can_transition
on_failure-Kept r c s h = ground (arith, h)

on_event-Kept : (r c : ℕ) (e : Event) (s : Session) → IsKept r c s → Kept r c (on_event e s)
unfolding on_event start_metrics stop_metrics on_answer on_closed
on_event-Kept r c starts_metrics s h =
    ask-Kept r c measuring metrics_start awaits_start s refl refl h
on_event-Kept r c stops_metrics s h = ask-Kept r c ready metrics_stop awaits_summary s refl refl h
on_event-Kept r c stops s h = stop-Kept r c s h
on_event-Kept r c fails s h = on_failure-Kept r c s h
on_event-Kept r c (answers is_ok has_summary n) s h = from (get_elem? s.stages n) refl
  where
    from :
        (o : Option Stage)
        → get_elem? s.stages n ≡ o
        → Kept r c (elim o [ none ↦ (s, []) | some stage ↦ resume is_ok has_summary stage n s ])
    from none e = idle-Kept r c s h
    from (some stage) e = resume-Kept r c is_ok has_summary stage n s e h
on_event-Kept r c (closed is_ok n) s h = from (get_elem? s.stages n) refl
  where
    from :
        (o : Option Stage)
        → get_elem? s.stages n ≡ o
        → Kept r c (elim o [ none ↦ (s, []) | some stage ↦ conclude is_ok stage n s ])
    from none e = idle-Kept r c s h
    from (some stage) e = conclude-Kept r c is_ok stage n s e h

run-Kept : (r c : ℕ) (es : List Event) (s : Session) → IsKept r c s → Kept r c (run es s)
unfolding run
run-Kept r c [] s h = idle-Kept r c s h
run-Kept r c (e ∷ es) s h =
    let (s', calls) = on_event e s in
    let (s'', more) = run es s' in
    let rest =
      run-Kept (r + stop_requests calls) (c + close_calls calls) es s' (on_event-Kept r c e s h) in
    (
      subst (λ q. Stops s''.state q (awaiting s''.stages))
          (omega (arith, stop_requests-append calls more)) rest.0,
      omega (arith, stop_requests-append calls more, close_calls-append calls more, rest.1),
    )

-- After any calls of a session's methods, answers, failures and ends of `close`: while the session is
-- ready or measuring, no `target:stop` has been requested; while it stops, and when it is stopped, one
-- has; when it failed, at most one. While it stops, a method waits for the answer, so that a session
-- does not stay there when the client answers or gives up; and once the answer is there, the client
-- is closed.
pub target_stop_once :
    (es : List Event)
    → let (s, calls) = run es new in
      Stops s.state (stop_requests calls) (awaiting s.stages)
      × (stop_requests calls ≤ awaiting s.stages + close_calls calls)
target_stop_once es =
    let (s, calls) = run es new in
    let kept = run-Kept 0 0 es new ((refl, refl), omega arith) in
    (subst (λ q. Stops s.state q (awaiting s.stages)) (omega arith) kept.0, omega (arith, kept.1))
