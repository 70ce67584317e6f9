-- ===== src/Agent/Requests.antt =====
-- src/agent/agent.ts: a request up to where its handling waits.
use benchkit.Prelude.{
  ℕ, ◌+◌, if◌then◌else◌, Bool, true, false, not, ◌&&◌, ◌||◌, Option, none, some, List, [], ◌∷◌, ◌⊎◌,
  inl, inr,
}
use benchkit.Control.{
  TargetState, starting, ready, measuring, stopping, stopped, failed, InvalidState, transition,
}
use benchkit.Control.Protocol.{
  RequestType, target_start, metrics_start, metrics_stop, target_stop, RequestValue, ParsedRequest,
  accepted, rejected, parse_request, TypeField, no_text,
}
use benchkit.Agent.State.{
  Agent, Call, Handler, Purpose, Stage, Target, awaiting_exit, awaiting_start, awaiting_stop,
  can_reach, closes_agent, commands, completes_stop, fails_start, finding_port, put, respond,
  shutting_down, suspend, throws,
}

-- a transition with which a request is done; the error that it throws is answered
abbrev pub moved : ℕ → InvalidState ⊎ TargetState → Agent → Agent × List Call
moved id (inl e) a = respond id false a
moved id (inr s) a = respond id true (record a { machine = some s })

abbrev pub advance_from : Option TargetState → ℕ → TargetState → Agent → Agent × List Call
advance_from none id to a = respond id false a
advance_from (some s) id to a = moved id (transition s to) a

unfoldable pub advance : ℕ → TargetState → Agent → Agent × List Call
advance id to a = advance_from a.machine id to a

-- the end of `#terminateTarget`, back in what called it
abbrev pub terminated : Purpose → ℕ → Agent → Agent × List Call
terminated fails_start id a = respond id false a
terminated completes_stop id a = advance id stopped a
terminated closes_agent id a = (a, [])

abbrev pub is_gone : Option Target → Bool
is_gone none = true
is_gone (some t) = t.has_exited

abbrev pub is_connected : Option Target → Bool
is_connected none = false
is_connected (some t) = t.is_connected

-- `#requestTarget` of a connected target: the entry and the command
abbrev pub command : ℕ → Handler → Agent → Agent × List Call
command id h a = (suspend h (record a { pending = put id h.number a.pending }), commands id ∷ [])

-- `#terminateTarget`; the first argument is the id of the shutdown
unfoldable pub terminate : ℕ → Purpose → ℕ → ℕ → Agent → Agent × List Call
terminate shutdown_id purpose number id a =
    if is_gone a.target
    then terminated purpose id a
    else let a' = record a { expects_exit = true } in
      if is_connected a.target
      then (command shutdown_id (record { number = number; id = id; stage = shutting_down purpose })
          a')
      else (suspend (record { number = number; id = id; stage = awaiting_exit purpose }) a', [])

-- the `catch` of `#start`
unfoldable pub fail_start : ℕ → ℕ → ℕ → Agent → Agent × List Call
fail_start shutdown_id number id a =
    terminate shutdown_id fails_start number id
      (if can_reach a.machine failed then record a { machine = some failed } else a)

-- a command behind the test of its transition
abbrev pub ask_target : Stage → TargetState → ℕ → ℕ → Agent → Agent × List Call
ask_target stage to number id a =
    if not (can_reach a.machine to) || not (is_connected a.target)
    then respond id false a
    else command id (record { number = number; id = id; stage = stage }) a

abbrev pub has_machine : Option TargetState → Bool
has_machine none = false
has_machine (some s) = true

abbrev pub has_target : Option Target → Bool
has_target none = false
has_target (some t) = true

-- `#dispatch`; a start is of a payload that `validateStart` takes or refuses
unfoldable pub dispatch : ℕ → RequestType → Bool → ℕ → ℕ → Agent → Agent × List Call
dispatch shutdown_id target_start is_valid number id a =
    if has_machine a.machine || not is_valid then respond id false a else (
      suspend (record { number = number; id = id; stage = finding_port })
          (record a { machine = some starting }),
      [],
    )
dispatch shutdown_id metrics_start is_valid number id a =
    if not (has_machine a.machine) || not (has_target a.target)
    then respond id false a
    else ask_target awaiting_start measuring number id a
dispatch shutdown_id metrics_stop is_valid number id a =
    if not (has_machine a.machine) || not (has_target a.target)
    then respond id false a
    else ask_target awaiting_stop ready number id a
dispatch shutdown_id target_stop is_valid number id a =
    if not (has_target a.target) || not (can_reach a.machine stopping)
    then respond id false a
    else terminate shutdown_id completes_stop number id (record a { machine = some stopping })

abbrev pub is_text : TypeField → Bool
is_text no_text = false
is_text _ = true

-- what `handle` does with a value that is refused: it is answered if it has an id and a type, and
-- else the error is thrown
abbrev pub refuse : Option ℕ → RequestValue → Agent → Agent × List Call
refuse none v a = (a, throws ∷ [])
refuse (some id) v a =
    if v.is_record && is_text v.type then respond id false a else (a, throws ∷ [])

abbrev pub handle_parsed : ℕ → ParsedRequest → RequestValue → Bool → Agent → Agent × List Call
handle_parsed shutdown_id (rejected e) v is_valid a = refuse v.id v a
handle_parsed shutdown_id (accepted r) v is_valid a =
    dispatch shutdown_id r.type is_valid a.next_number r.id
      (record a { next_number = a.next_number + 1 })

unfoldable pub handle : ℕ → RequestValue → Bool → Agent → Agent × List Call
handle shutdown_id v is_valid a = handle_parsed shutdown_id (parse_request v) v is_valid a
