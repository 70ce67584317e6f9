-- ===== src/Control/Session.antt =====
-- src/target-provider/session.ts: the session of a managed target. A method that waits for the client is
-- cut where it waits; what it waits for is its stage. An answer comes to a method by its number.
pub mod Stops
mod Tests
use benchkit.Prelude.{
  ℕ, Bool, true, false, if◌then◌else◌, Option, none, some, List, [], ◌∷◌, ◌++◌, ◌⊎◌, inl, inr,
  length, set, get_elem?,
}
use benchkit.Control.{
  TargetState, starting, ready, measuring, stopping, stopped, failed, InvalidState, transition,
}

pub data Error : Type 0 where
  invalid_state : InvalidState → Error
  request_failed no_summary close_failed : Error

pub data Stage : Type 0 where
  awaits_start awaits_summary awaits_stop : Stage
  -- the client's `close` in `stop`, with the error that is thrown behind it
  awaits_close : Option Error → Stage
  ended : Stage

pub data Command : Type 0 where
  metrics_start metrics_stop target_stop : Command

-- Each names the method that it is a call or the result of.
pub data Call : Type 0 where
  requests : Command → ℕ → Call
  closes returns : ℕ → Call
  throws : ℕ → Error → Call

-- `stages` has a stage for each method called, in the order of the calls.
pub record Session : Type 0 where
  pub state : TargetState
  pub stages : List Stage

abbrev pub new : Session
new = record { state = ready; stages = [] }

abbrev pub enter : Stage → Session → Session
enter stage s = record s { stages = s.stages ++ stage ∷ [] }

abbrev pub put : ℕ → Stage → Session → Session
put n stage s = record s { stages = set s.stages n stage }

-- `startMetrics` and `stopMetrics` up to their request
abbrev pub ask : TargetState → Command → Stage → Session → Session × List Call
ask to command stage s =
    let n = length s.stages in
    elim (transition s.state to) [
      | inl e ↦ (enter ended s, throws n (invalid_state e) ∷ [])
      | inr u ↦ (enter stage s, requests command n ∷ [])
    ]

unfoldable pub start_metrics : Session → Session × List Call
start_metrics s = ask measuring metrics_start awaits_start s

unfoldable pub stop_metrics : Session → Session × List Call
stop_metrics s = ask ready metrics_stop awaits_summary s

abbrev pub request_stop : Session → Session × List Call
request_stop s =
    let n = length s.stages in
    elim (transition s.state stopping) [
      | inl e ↦ (enter ended s, throws n (invalid_state e) ∷ [])
      | inr u ↦ (record (enter awaits_stop s) { state = u }, requests target_stop n ∷ [])
    ]

abbrev pub stop_in : TargetState → Session → Session × List Call
stop_in stopped s = (enter ended s, returns (length s.stages) ∷ [])
stop_in failed s = (enter (awaits_close none) s, closes (length s.stages) ∷ [])
stop_in _ s = request_stop s

-- `stop` up to what it waits for
unfoldable pub stop : Session → Session × List Call
stop s = stop_in s.state s

-- a transition to `failed` where it is allowed
abbrev pub fail : TargetState → TargetState
fail state = elim (transition state failed) [ inl e ↦ state | inr u ↦ u ]

-- the listener of the client's failure
unfoldable pub on_failure : Session → Session
on_failure s = record s { state = fail s.state }

-- the transition behind an answer, the last thing that `startMetrics` and `stopMetrics` do
abbrev pub move : TargetState → ℕ → Session → Session × List Call
move to n s = elim (transition s.state to) [
  | inl e ↦ (put n ended s, throws n (invalid_state e) ∷ [])
  | inr u ↦ (record (put n ended s) { state = u }, returns n ∷ [])
]

-- the `catch` and the `finally` of `stop`
abbrev pub give_up : Error → ℕ → Session → Session × List Call
give_up e n s = (record (put n (awaits_close (some e)) s) { state = fail s.state }, closes n ∷ [])

abbrev pub finish_stop : InvalidState ⊎ TargetState → ℕ → Session → Session × List Call
finish_stop (inl e) n s = give_up (invalid_state e) n s
finish_stop (inr u) n s = (record (put n (awaits_close none) s) { state = u }, closes n ∷ [])

-- A method goes on behind its request: whether that succeeded, and whether the answer has a summary.
abbrev pub resume : Bool → Bool → Stage → ℕ → Session → Session × List Call
resume true has_summary awaits_start n s = move measuring n s
resume true true awaits_summary n s = move ready n s
resume true false awaits_summary n s = (put n ended s, throws n no_summary ∷ [])
resume true has_summary awaits_stop n s = finish_stop (transition s.state stopped) n s
resume false has_summary awaits_start n s = (put n ended s, throws n request_failed ∷ [])
resume false has_summary awaits_summary n s = (put n ended s, throws n request_failed ∷ [])
resume false has_summary awaits_stop n s = give_up request_failed n s
resume is_ok has_summary stage n s = (s, [])

unfoldable pub on_answer : Bool → Bool → ℕ → Session → Session × List Call
on_answer is_ok has_summary n s = elim (get_elem? s.stages n) [
  | none ↦ (s, [])
  | some stage ↦ resume is_ok has_summary stage n s
]

abbrev pub result : Option Error → ℕ → Call
result none n = returns n
result (some e) n = throws n e

-- A method goes on behind the client's `close`.
abbrev pub conclude : Bool → Stage → ℕ → Session → Session × List Call
conclude is_ok (awaits_close o) n s =
    (put n ended s, (if is_ok then result o n else throws n close_failed) ∷ [])
conclude is_ok stage n s = (s, [])

unfoldable pub on_closed : Bool → ℕ → Session → Session × List Call
on_closed is_ok n s = elim (get_elem? s.stages n) [
  | none ↦ (s, [])
  | some stage ↦ conclude is_ok stage n s
]

pub data Event : Type 0 where
  starts_metrics stops_metrics stops fails : Event
  answers : Bool → Bool → ℕ → Event
  closed : Bool → ℕ → Event

unfoldable pub on_event : Event → Session → Session × List Call
on_event starts_metrics s = start_metrics s
on_event stops_metrics s = stop_metrics s
on_event stops s = stop s
on_event fails s = (on_failure s, [])
on_event (answers is_ok has_summary n) s = on_answer is_ok has_summary n s
on_event (closed is_ok n) s = on_closed is_ok n s

unfoldable pub run : List Event → Session → Session × List Call
run [] s = (s, [])
run (e ∷ es) s =
    let (s', calls) = on_event e s in let (s'', more) = run es s' in (s'', calls ++ more)
