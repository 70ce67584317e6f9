-- ===== src/Agent.antt =====
-- src/agent/agent.ts: the agent that runs a target for a client. Its handling of a request waits at
-- several places; a request that waits is a handler with a number, the id of its request and the
-- place. The steps are those between two waits. Texts of ids are numbers.
mod Tests
mod State
mod Requests
pub mod Debts
pub mod Steps
pub mod Answers
unfoldable pub use State.*
unfoldable pub use Requests.*
use benchkit.Prelude.{
  ℕ, ◌+◌, ◌==◌, if◌then◌else◌, Bool, true, false, not, ◌&&◌, ◌||◌, Option, none, some, List, [],
  ◌∷◌, ◌++◌, ◌⊎◌, inl, inr,
}
use benchkit.Control.{
  TargetState, starting, ready, measuring, stopping, stopped, failed, InvalidState, can_transition,
  transition,
}
use benchkit.Control.Protocol.{
  RequestType, target_start, metrics_start, metrics_stop, target_stop, RequestValue, Request,
  ParsedRequest, accepted, rejected, parse_request, TypeField, no_text,
}

-- what a handler does when the promise that it waits for is resolved or rejected
abbrev pub continue : Bool → ℕ → ℕ → Stage → Agent → Agent × List Call
continue is_ok number id awaiting_start a =
    if is_ok then advance id measuring a else respond id false a
continue is_ok number id awaiting_stop a = if is_ok then advance id ready a else respond id false a
continue is_ok number id (shutting_down purpose) a =
    (suspend (record { number = number; id = id; stage = awaiting_exit purpose }) a, [])
continue is_ok number id stage a =
    (suspend (record { number = number; id = id; stage = stage }) a, [])

abbrev pub continue_with : Bool → Option (Handler × List Handler) → Agent → Agent × List Call
continue_with is_ok none a = (a, [])
continue_with is_ok (some r) a =
    continue is_ok (r.0).number (r.0).id (r.0).stage (record a { handlers = r.1 })

unfoldable pub resume : Bool → ℕ → Agent → Agent × List Call
resume is_ok number a = continue_with is_ok (pluck number a.handlers) a

-- `#rejectPendingTarget` settles the promises of all entries
abbrev pub waiters : List (ℕ × ℕ) → List ℕ
waiters [] = []
waiters ((id, h) ∷ rest) = h ∷ waiters rest

abbrev pub reject_each : List ℕ → Agent → Agent × List Call
reject_each [] a = (a, [])
reject_each (n ∷ ns) a =
    let (a', calls) = resume false n a in
    let (a'', more) = reject_each ns a' in (a'', calls ++ more)

-- `#rejectPendingTarget`
unfoldable pub reject_pending : Agent → Agent × List Call
reject_pending a = reject_each (waiters a.pending) (record a { pending = [] })

abbrev pub answered_by : Option ℕ → Bool → ℕ → Agent → Agent × List Call
answered_by none is_ok id a = (a, [])
answered_by (some number) is_ok id a =
    resume is_ok number (record a { pending = delete id a.pending })

-- `#onTargetMessage` of a response
unfoldable pub on_target_message : ℕ → Bool → Agent → Agent × List Call
on_target_message id is_ok a = answered_by (waiter id a.pending) is_ok id a

-- the timer of a command, or the error of its `send`: the entry of its id goes, and its promise is
-- rejected
unfoldable pub on_command_error : ℕ → ℕ → Agent → Agent × List Call
on_command_error id number a = resume false number (record a { pending = delete id a.pending })

-- the handler of a number at the end of a wait that is not for the target's response
abbrev pub proceed :
    (Handler → Agent → Agent × List Call)
    → Option (Handler × List Handler)
    → Agent
    → Agent × List Call
proceed next none a = (a, [])
proceed next (some r) a = next r.0 (record a { handlers = r.1 })

abbrev pub resuspend : Handler → Agent → Agent × List Call
resuspend h a = (suspend h a, [])

abbrev pub fork_target : Handler → Agent → Agent × List Call
fork_target h a = (
  suspend (record h { stage = awaiting_ready })
      (record a { target = some (record { is_connected = true; has_exited = false }) }),
  forks ∷ [],
)

-- `#start` behind `getFreePort`, up to the fork, which may throw as well
abbrev pub with_port : ℕ → Bool → Stage → Handler → Agent → Agent × List Call
with_port shutdown_id found finding_port h a =
    if found then fork_target h a else fail_start shutdown_id h.number h.id a
with_port shutdown_id found _ h a = resuspend h a

unfoldable pub on_port : ℕ → Bool → ℕ → Agent → Agent × List Call
on_port shutdown_id found number a =
    proceed (λ h. with_port shutdown_id found h.stage h) (pluck number a.handlers) a

abbrev pub ready_or_fail : ℕ → Handler → InvalidState ⊎ TargetState → Agent → Agent × List Call
ready_or_fail shutdown_id h (inl e) a = fail_start shutdown_id h.number h.id a
ready_or_fail shutdown_id h (inr s) a = respond h.id true (record a { machine = some s })

abbrev pub ready_from : ℕ → Handler → Option TargetState → Agent → Agent × List Call
ready_from shutdown_id h none a = fail_start shutdown_id h.number h.id a
ready_from shutdown_id h (some s) a = ready_or_fail shutdown_id h (transition s ready) a

-- `#start` behind `#waitForTargetReady`, which is resolved, or rejected by an invalid port, an exit,
-- an error or its timer
abbrev pub with_ready : ℕ → Bool → Stage → Handler → Agent → Agent × List Call
with_ready shutdown_id is_ok awaiting_ready h a =
    if is_ok then ready_from shutdown_id h a.machine a else fail_start shutdown_id h.number h.id a
with_ready shutdown_id is_ok _ h a = resuspend h a

unfoldable pub on_ready : ℕ → Bool → ℕ → Agent → Agent × List Call
on_ready shutdown_id is_ok number a =
    proceed (λ h. with_ready shutdown_id is_ok h.stage h) (pluck number a.handlers) a

-- an error that ends `#terminateTarget`
abbrev pub unterminated : Purpose → ℕ → Agent → Agent × List Call
unterminated closes_agent id a = (a, [])
unterminated _ id a = respond id false a

-- `#terminateTarget` behind the exit of the target or the signals, which may fail
abbrev pub with_exit : Bool → Stage → Handler → Agent → Agent × List Call
with_exit is_ok (awaiting_exit purpose) h a =
    if is_ok then terminated purpose h.id a else unterminated purpose h.id a
with_exit is_ok _ h a = resuspend h a

unfoldable pub on_terminated : Bool → ℕ → Agent → Agent × List Call
on_terminated is_ok number a = proceed (λ h. with_exit is_ok h.stage h) (pluck number a.handlers) a

abbrev pub gone : Option Target → Option Target
gone none = none
gone (some t) = some (record t { is_connected = false; has_exited = true })

abbrev pub disconnected : Option Target → Option Target
disconnected none = none
disconnected (some t) = some (record t { is_connected = false })

abbrev pub announce : Agent → Agent × List Call
announce a =
    if not a.expects_exit && can_reach a.machine failed
    then (record a { machine = some failed }, target_exit ∷ [])
    else (a, [])

-- the target's `exit`: what its listener rejects goes on behind it
unfoldable pub on_exit : Agent → Agent × List Call
on_exit a =
    let (a', calls) = announce (record a { target = gone a.target }) in
    let (a'', more) = reject_pending a' in (a'', calls ++ more)

-- the target's `disconnect`
unfoldable pub on_disconnect : Agent → Agent
on_disconnect a = record a { target = disconnected a.target }

unfoldable pub close : ℕ → Agent → Agent × List Call
close shutdown_id a =
    if a.closed
    then (a, [])
    else terminate shutdown_id closes_agent a.next_number 0
        (record a { closed = true; next_number = a.next_number + 1 })
