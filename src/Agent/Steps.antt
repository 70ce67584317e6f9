-- ===== src/Agent/Steps.antt =====
-- src/agent/agent.ts: each step answers requests, or leaves them waiting.
use benchkit.Prelude.{
  ℕ, ◌+◌, ◌≡◌, Bool, false, Option, none, some, List, [], ◌∷◌, ◌++◌, ◌⊎◌, inl, inr, arith, refl,
  if_both,
}
use benchkit.Control.{TargetState, ready, InvalidState, transition}
use benchkit.Agent.{
  Purpose, fails_start, completes_stop, closes_agent, Stage, finding_port, awaiting_ready,
  awaiting_start, awaiting_stop, shutting_down, awaiting_exit, Handler, Agent, Call, pluck, waiters,
  resume, reject_each, reject_pending, answered_by, waiter, on_target_message, proceed, with_port,
  ready_or_fail, ready_from, with_ready, with_exit, delete, unterminated,
}
use benchkit.Agent.Debts.{
  answers, debt, waits, Owes, answers-append, waits-pluck, one, terminated-Owes, fail_start-Owes,
  resume-Owes,
}

module _ (n : ℕ) where
  -- Two steps in turn.
  pub chained-Owes :
      (before middle : ℕ) (calls : List Call) (r : Agent × List Call)
      → answers n calls + middle ≡ before
      → Owes n middle r
      → Owes n before (r.0, calls ++ r.1)
  chained-Owes before middle calls r h k = omega (arith, answers-append n calls r.1)

  reject_each-Owes : (ns : List ℕ) (a : Agent) → Owes n (waits n a.handlers) (reject_each ns a)
  reject_each-Owes [] a = omega arith
  reject_each-Owes (m ∷ ns) a =
      chained-Owes (waits n a.handlers) (waits n ((resume false m a).0).handlers)
        (resume false m a).1 (reject_each ns (resume false m a).0) (resume-Owes n false m a)
        (reject_each-Owes ns (resume false m a).0)

  pub reject_pending-Owes : (a : Agent) → Owes n (waits n a.handlers) (reject_pending a)
  unfolding reject_pending
  reject_pending-Owes a = reject_each-Owes (waiters a.pending) (record a { pending = [] })

  pub on_target_message-Owes :
      (id : ℕ) (is_ok : Bool) (a : Agent)
      → Owes n (waits n a.handlers) (on_target_message id is_ok a)
  unfolding on_target_message
  on_target_message-Owes id is_ok a = from (waiter id a.pending)
    where
      from : (o : Option ℕ) → Owes n (waits n a.handlers) (answered_by o is_ok id a)
      from none = omega arith
      from (some number) = resume-Owes n is_ok number (record a { pending = delete id a.pending })

  pub proceed-Owes :
      (next : Handler → Agent → Agent × List Call) (number : ℕ) (a : Agent)
      → ((h : Handler) (a' : Agent)
          → Owes n (debt n h.id h.stage + waits n a'.handlers) (next h a'))
      → Owes n (waits n a.handlers) (proceed next (pluck number a.handlers) a)
  proceed-Owes next number a k = from (pluck number a.handlers) refl
    where
      from :
          (o : Option (Handler × List Handler))
          → pluck number a.handlers ≡ o
          → Owes n (waits n a.handlers) (proceed next o a)
      from none e = omega arith
      from (some r) e =
          omega
            (arith, k r.0 (record a { handlers = r.1 }), waits-pluck n number a.handlers r.0 r.1 e)

  pub with_port-Owes :
      (shutdown_id : ℕ) (found : Bool) (stage : Stage) (h : Handler) (a : Agent)
      → h.stage ≡ stage
      → Owes n (debt n h.id h.stage + waits n a.handlers) (with_port shutdown_id found stage h a)
  with_port-Owes shutdown_id found finding_port h a e = rw e (
      if_both (Owes n (one n h.id + waits n a.handlers)) found (omega arith)
        (fail_start-Owes n shutdown_id h.number h.id a))
  with_port-Owes shutdown_id found awaiting_ready h a e = omega arith
  with_port-Owes shutdown_id found awaiting_start h a e = omega arith
  with_port-Owes shutdown_id found awaiting_stop h a e = omega arith
  with_port-Owes shutdown_id found (shutting_down purpose) h a e = omega arith
  with_port-Owes shutdown_id found (awaiting_exit purpose) h a e = omega arith

  ready_from-Owes :
      (shutdown_id : ℕ) (h : Handler) (o : Option TargetState) (a : Agent)
      → Owes n (one n h.id + waits n a.handlers) (ready_from shutdown_id h o a)
  ready_from-Owes shutdown_id h none a = fail_start-Owes n shutdown_id h.number h.id a
  ready_from-Owes shutdown_id h (some s) a = from (transition s ready)
    where
      from :
          (o : InvalidState ⊎ TargetState)
          → Owes n (one n h.id + waits n a.handlers) (ready_or_fail shutdown_id h o a)
      from (inl e) = fail_start-Owes n shutdown_id h.number h.id a
      from (inr s') = omega arith

  pub with_ready-Owes :
      (shutdown_id : ℕ) (is_ok : Bool) (stage : Stage) (h : Handler) (a : Agent)
      → h.stage ≡ stage
      → Owes n (debt n h.id h.stage + waits n a.handlers) (with_ready shutdown_id is_ok stage h a)
  with_ready-Owes shutdown_id is_ok awaiting_ready h a e = rw e (
      if_both (Owes n (one n h.id + waits n a.handlers)) is_ok
        (ready_from-Owes shutdown_id h a.machine a) (fail_start-Owes n shutdown_id h.number h.id a))
  with_ready-Owes shutdown_id is_ok finding_port h a e = omega arith
  with_ready-Owes shutdown_id is_ok awaiting_start h a e = omega arith
  with_ready-Owes shutdown_id is_ok awaiting_stop h a e = omega arith
  with_ready-Owes shutdown_id is_ok (shutting_down purpose) h a e = omega arith
  with_ready-Owes shutdown_id is_ok (awaiting_exit purpose) h a e = omega arith

  unterminated-Owes :
      (purpose : Purpose) (id : ℕ) (a : Agent)
      → Owes n (debt n id (awaiting_exit purpose) + waits n a.handlers) (unterminated purpose id a)
  unterminated-Owes fails_start id a = omega arith
  unterminated-Owes completes_stop id a = omega arith
  unterminated-Owes closes_agent id a = omega arith

  pub with_exit-Owes :
      (is_ok : Bool) (stage : Stage) (h : Handler) (a : Agent)
      → h.stage ≡ stage
      → Owes n (debt n h.id h.stage + waits n a.handlers) (with_exit is_ok stage h a)
  with_exit-Owes is_ok (awaiting_exit purpose) h a e = rw e (
      if_both (Owes n (debt n h.id (awaiting_exit purpose) + waits n a.handlers)) is_ok
        (terminated-Owes n purpose h.id a) (unterminated-Owes purpose h.id a))
  with_exit-Owes is_ok finding_port h a e = omega arith
  with_exit-Owes is_ok awaiting_ready h a e = omega arith
  with_exit-Owes is_ok awaiting_start h a e = omega arith
  with_exit-Owes is_ok awaiting_stop h a e = omega arith
  with_exit-Owes is_ok (shutting_down purpose) h a e = omega arith
