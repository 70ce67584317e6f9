-- ===== src/Agent/Tests.antt =====
-- src/agent/agent.ts: runs, and the theorem at a concrete input.
use benchkit.Prelude.{ℕ, ◌+◌, ◌≡◌, refl, true, false, some, List, [], ◌∷◌}
use benchkit.Control.{can_transition, transition}
use benchkit.Control.Protocol.{
  target_start, metrics_start, metrics_stop, target_stop, RequestValue, RequestType, request_type,
  parse_request,
}
use benchkit.Agent.{
  new, responds, commands, forks, target_exit, advance, terminate, fail_start, dispatch, handle,
  resume, reject_pending, on_target_message, on_command_error, on_port, on_ready, on_terminated,
  on_exit, on_disconnect, close,
}
use benchkit.Agent.Debts.{answers, waits}
use benchkit.Agent.Answers.{
  Event, requests, target_answers, command_fails, port_ends, ready_ends, termination_ends, exits,
  on_event, run, received, answered_once,
}

-- Its line opens the agent for the tests that name it.
opened : Unit {0}
unfolding advance terminate fail_start dispatch handle parse_request resume reject_pending
    on_target_message on_command_error on_port on_ready on_terminated on_exit on_disconnect close
    on_event run can_transition transition
opened = tt

abbrev asks : RequestType → ℕ → RequestValue
asks type id = record {
  is_record = true;
  has_version = true;
  id = some id;
  id_length = 1;
  type = request_type type;
}

-- 99 is the id of the shutdown
abbrev session : List Event
session =
    requests (asks target_start 1) true
    ∷ port_ends true 0
    ∷ ready_ends true 0
    ∷ requests (asks metrics_start 2) true
    ∷ target_answers 2 true
    ∷ requests (asks metrics_stop 3) true
    ∷ command_fails 3 2
    ∷ requests (asks target_stop 4) true
    ∷ target_answers 99 true
    ∷ termination_ends true 3
    ∷ []

session_test :
    (run 99 session new).1
    ≡ forks
      ∷ responds 1 true
      ∷ commands 2
      ∷ responds 2 true
      ∷ commands 3
      ∷ responds 3 false
      ∷ commands 99
      ∷ responds 4 true
      ∷ []
unfolding opened
session_test = refl

-- A target that exits in a measurement fails it, and the command that waits.
exit_test :
    (run 99
      (requests (asks target_start 1) true
        ∷ port_ends true 0
        ∷ ready_ends true 0
        ∷ requests (asks metrics_start 2) true
        ∷ exits
        ∷ [])
      new).1
    ≡ forks ∷ responds 1 true ∷ commands 2 ∷ target_exit ∷ responds 2 false ∷ []
unfolding opened
exit_test = refl

-- A stop of the metrics before the target is ready is taken, and makes the start fail.
early_stop_test :
    (run 99
      (requests (asks target_start 1) true
        ∷ port_ends true 0
        ∷ requests (asks metrics_stop 2) true
        ∷ target_answers 2 true
        ∷ ready_ends true 0
        ∷ target_answers 99 true
        ∷ termination_ends true 0
        ∷ [])
      new).1
    ≡ forks ∷ commands 2 ∷ responds 2 true ∷ commands 99 ∷ responds 1 false ∷ []
unfolding opened
early_stop_test = refl

answered_once_example :
    answers 3 (run 99 session new).1 + waits 3 ((run 99 session new).0).handlers
    ≡ received 3 session
answered_once_example = answered_once 99 3 session
