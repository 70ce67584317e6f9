-- ===== src/Agent/State.antt =====
-- src/agent/agent.ts: the agent's state, the commands that wait for the target, and the handlers that
-- wait.
use benchkit.Prelude.{ℕ, ◌==◌, if◌then◌else◌, Bool, false, Option, none, some, List, [], ◌∷◌}
use benchkit.Control.{TargetState, can_transition}

-- What is done behind the termination of the target.
pub data Purpose : Type 0 where
  fails_start completes_stop closes_agent : Purpose

pub data Stage : Type 0 where
  -- `getFreePort`, and `#waitForTargetReady`
  finding_port awaiting_ready : Stage
  -- a response of the target to a command
  awaiting_start awaiting_stop : Stage
  -- `#terminateTarget`: the target's response to the shutdown, and its exit
  shutting_down awaiting_exit : Purpose → Stage

pub record Handler : Type 0 where
  pub number : ℕ
  pub id : ℕ
  pub stage : Stage

-- the child process: whether its channel is connected, and whether it has exited
pub record Target : Type 0 where
  pub is_connected : Bool
  pub has_exited : Bool

-- `pending` is `#pendingTarget`: the id of a command to the target, and the handler that waits for it.
pub record Agent : Type 0 where
  pub machine : Option TargetState
  pub target : Option Target
  pub expects_exit : Bool
  pub closed : Bool
  pub pending : List (ℕ × ℕ)
  pub handlers : List Handler
  pub next_number : ℕ

abbrev pub new : Agent
new = record {
  machine = none;
  target = none;
  expects_exit = false;
  closed = false;
  pending = [];
  handlers = [];
  next_number = 0;
}

pub data Call : Type 0 where
  -- a response with its id and whether its status is `ok`
  responds : ℕ → Bool → Call
  -- a command to the target
  commands : ℕ → Call
  forks target_exit throws : Call

-- `get` and `delete` of the map, and `set`, which replaces the entry of the id
abbrev pub waiter : ℕ → List (ℕ × ℕ) → Option ℕ
waiter id [] = none
waiter id ((i, h) ∷ rest) = if i == id then some h else waiter id rest

abbrev pub delete : ℕ → List (ℕ × ℕ) → List (ℕ × ℕ)
delete id [] = []
delete id ((i, h) ∷ rest) = if i == id then delete id rest else (i, h) ∷ delete id rest

abbrev pub put : ℕ → ℕ → List (ℕ × ℕ) → List (ℕ × ℕ)
put id h [] = (id, h) ∷ []
put id h ((i, k) ∷ rest) = if i == id then (id, h) ∷ rest else (i, k) ∷ put id h rest

-- the handler of a number, and the others
abbrev pub behind : Handler → Option (Handler × List Handler) → Option (Handler × List Handler)
behind h none = none
behind h (some r) = some (r.0, h ∷ r.1)

abbrev pub pluck : ℕ → List Handler → Option (Handler × List Handler)
pluck n [] = none
pluck n (h ∷ hs) = if h.number == n then some (h, hs) else behind h (pluck n hs)

abbrev pub suspend : Handler → Agent → Agent
suspend h a = record a { handlers = h ∷ a.handlers }

abbrev pub can_reach : Option TargetState → TargetState → Bool
can_reach none to = false
can_reach (some s) to = can_transition s to

abbrev pub respond : ℕ → Bool → Agent → Agent × List Call
respond id is_ok a = (a, responds id is_ok ∷ [])
