-- ===== src/Agent/Answers.antt =====
-- src/agent/agent.ts: the answers to requests.
use benchkit.Prelude.{
  ℕ, ◌+◌, ◌≡◌, ◌==◌, if◌then◌else◌, Bool, true, false, ◌&&◌, Option, none, some, List, [], ◌∷◌,
  ◌++◌, arith, refl, if_both,
}
use benchkit.Control.Protocol.{
  RequestValue, Request, ParsedRequest, accepted, rejected, parse_request,
}
use benchkit.Agent.{
  closes_agent, Agent, new, Call, handle, reject_pending, on_target_message, on_command_error,
  with_port, on_port, with_ready, on_ready, with_exit, on_terminated, gone, announce, on_exit,
  on_disconnect, close, delete, refuse, handle_parsed, is_text,
}
use benchkit.Agent.Debts.{
  answers, waits, Owes, answers-append, terminate-Owes, dispatch-Owes, resume-Owes,
}
use benchkit.Agent.Steps.{
  chained-Owes, reject_pending-Owes, on_target_message-Owes, proceed-Owes, with_port-Owes,
  with_ready-Owes, with_exit-Owes,
}

-- What happens to the agent: requests, the target's responses, the errors of commands to it, the ends
-- of the waits of a handler, and what the child process reports.
pub data Event : Type 0 where
  requests : RequestValue → Bool → Event
  target_answers : ℕ → Bool → Event
  command_fails : ℕ → ℕ → Event
  port_ends ready_ends : Bool → ℕ → Event
  termination_ends : Bool → ℕ → Event
  target_errs exits disconnects closes : Event

unfoldable pub on_event : ℕ → Event → Agent → Agent × List Call
on_event shutdown_id (requests v is_valid) a = handle shutdown_id v is_valid a
on_event shutdown_id (target_answers id is_ok) a = on_target_message id is_ok a
on_event shutdown_id (command_fails id number) a = on_command_error id number a
on_event shutdown_id (port_ends found number) a = on_port shutdown_id found number a
on_event shutdown_id (ready_ends is_ok number) a = on_ready shutdown_id is_ok number a
on_event shutdown_id (termination_ends is_ok number) a = on_terminated is_ok number a
on_event shutdown_id target_errs a = reject_pending a
on_event shutdown_id exits a = on_exit a
on_event shutdown_id disconnects a = (on_disconnect a, [])
on_event shutdown_id closes a = close shutdown_id a

unfoldable pub run : ℕ → List Event → Agent → Agent × List Call
run shutdown_id [] a = (a, [])
run shutdown_id (e ∷ es) a =
    let (a', calls) = on_event shutdown_id e a in
    let (a'', more) = run shutdown_id es a' in (a'', calls ++ more)

-- An answer is due to an object with a text for its id and a text for its type.
abbrev pub due : ℕ → RequestValue → Option ℕ → ℕ
due n v none = 0
due n v (some id) = if v.is_record && is_text v.type && id == n then 1 else 0

-- the requests with an id in a sequence of events
abbrev pub arrives : ℕ → Event → ℕ
arrives n (requests v is_valid) = due n v v.id
arrives n _ = 0

abbrev pub received : ℕ → List Event → ℕ
received n [] = 0
received n (e ∷ es) = arrives n e + received n es

announce-Owes : (n : ℕ) (a : Agent) → Owes n (waits n a.handlers) (announce a)
announce-Owes n a = ground arith

on_exit-Owes : (n : ℕ) (a : Agent) → Owes n (waits n a.handlers) (on_exit a)
unfolding on_exit
on_exit-Owes n a =
    let a' = record a { target = gone a.target } in
    chained-Owes n (waits n a.handlers) (waits n ((announce a').0).handlers) (announce a').1
      (reject_pending (announce a').0) (announce-Owes n a') (reject_pending-Owes n (announce a').0)

refuse-Owes :
    (n : ℕ) (o : Option ℕ) (v : RequestValue) (a : Agent)
    → Owes n (due n v o + waits n a.handlers) (refuse o v a)
refuse-Owes n none v a = omega arith
refuse-Owes n (some id) v a = ground arith

parse_request-due :
    (n : ℕ) (v : RequestValue) (r : Request)
    → parse_request v ≡ accepted r
    → due n v v.id ≡ (if r.id == n then 1 else 0)
unfolding parse_request
parse_request-due n v r e = ground arith

handle-Owes :
    (shutdown_id n : ℕ) (v : RequestValue) (is_valid : Bool) (a : Agent)
    → Owes n (due n v v.id + waits n a.handlers) (handle shutdown_id v is_valid a)
unfolding handle
handle-Owes shutdown_id n v is_valid a = from (parse_request v) refl
  where
    from :
        (p : ParsedRequest)
        → parse_request v ≡ p
        → Owes n (due n v v.id + waits n a.handlers) (handle_parsed shutdown_id p v is_valid a)
    from (rejected e) e' = refuse-Owes n v.id v a
    from (accepted r) e' = omega (
      arith,
      parse_request-due n v r e',
      dispatch-Owes n shutdown_id r.type is_valid a.next_number r.id
          (record a { next_number = a.next_number + 1 }),
    )

on_event-Owes :
    (shutdown_id n : ℕ) (e : Event) (a : Agent)
    → Owes n (arrives n e + waits n a.handlers) (on_event shutdown_id e a)
unfolding on_event on_command_error on_port on_ready on_terminated on_disconnect close
on_event-Owes shutdown_id n (requests v is_valid) a = handle-Owes shutdown_id n v is_valid a
on_event-Owes shutdown_id n (target_answers id is_ok) a =
    omega (arith, on_target_message-Owes n id is_ok a)
on_event-Owes shutdown_id n (command_fails id number) a =
    omega (arith, resume-Owes n false number (record a { pending = delete id a.pending }))
on_event-Owes shutdown_id n (port_ends found number) a = omega (
  arith,
  proceed-Owes n (λ h. with_port shutdown_id found h.stage h) number a
      λ h a'. with_port-Owes n shutdown_id found h.stage h a' refl,
)
on_event-Owes shutdown_id n (ready_ends is_ok number) a = omega (
  arith,
  proceed-Owes n (λ h. with_ready shutdown_id is_ok h.stage h) number a
      λ h a'. with_ready-Owes n shutdown_id is_ok h.stage h a' refl,
)
on_event-Owes shutdown_id n (termination_ends is_ok number) a = omega (
  arith,
  proceed-Owes n (λ h. with_exit is_ok h.stage h) number a
      λ h a'. with_exit-Owes n is_ok h.stage h a' refl,
)
on_event-Owes shutdown_id n target_errs a = omega (arith, reject_pending-Owes n a)
on_event-Owes shutdown_id n exits a = omega (arith, on_exit-Owes n a)
on_event-Owes shutdown_id n disconnects a = omega arith
on_event-Owes shutdown_id n closes a =
    if_both (Owes n (0 + waits n a.handlers)) a.closed (omega arith) (
      omega (
        arith,
        terminate-Owes n shutdown_id closes_agent a.next_number 0
            (record a { closed = true; next_number = a.next_number + 1 }),
      ))

run-Owes :
    (shutdown_id n : ℕ) (es : List Event) (a : Agent)
    → Owes n (received n es + waits n a.handlers) (run shutdown_id es a)
unfolding run
run-Owes shutdown_id n [] a = omega arith
run-Owes shutdown_id n (e ∷ es) a =
    let r = on_event shutdown_id e a in
    omega (
      arith,
      on_event-Owes shutdown_id n e a,
      run-Owes shutdown_id n es r.0,
      answers-append n r.1 (run shutdown_id es r.0).1,
    )

-- From a new agent, over any sequence of requests, answers and errors of the target, and ends of
-- waits, the values with an id and a type that were received with an id are as many as the answers
-- with it and the requests that still wait: each is answered once, or waits.
pub answered_once :
    (shutdown_id n : ℕ) (es : List Event)
    → answers n (run shutdown_id es new).1 + waits n ((run shutdown_id es new).0).handlers
      ≡ received n es
answered_once shutdown_id n es = omega (arith, run-Owes shutdown_id n es new)
