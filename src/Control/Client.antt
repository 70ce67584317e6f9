-- ===== src/Control/Client.antt =====
-- src/target-provider/control-client.ts: the client of the control protocol. A request is named by its
-- number; what is settled is the promise of its response. A handler returns the client and the calls
-- that it makes, in order. A timer that is cleared does not fire.
mod Tests
pub mod Steps
pub mod Settlement
use benchkit.Prelude.{
  ℕ, ◌+◌, ◌==◌, if◌then◌else◌, Bool, true, false, not, ◌&&◌, ◌||◌, Option, none, some, List, [],
  ◌∷◌, ◌++◌, map,
}
use benchkit.Control.Protocol.{
  RequestType, target_start, metrics_start, metrics_stop, target_stop, MessageId, numbered, foreign,
  MessageType, requested, agent_ready, other_type, AgentReady, Envelope, Response, EnvelopeError,
  Parsed, parsed, refused, parse_response,
}

pub data Failure : Type 0 where
  envelope : EnvelopeError → Failure
  -- errors of the stream, of the child process, and of its exit
  undecoded transport_failed transport_exited : Failure
  ready_without_payload unknown_id reported : Failure

pub data Reason : Type 0 where
  failed : Failure → Reason
  timed_out unwritten wrong_answer answered_error : Reason

pub data Call : Type 0 where
  resolves : ℕ → Call
  rejects : ℕ → Reason → Call
  writes : ℕ → RequestType → Call
  ready_resolves : AgentReady → Call
  ready_rejects : Call
  notifies : ℕ → Call
  ends_input : Call
  -- `request` throws before it has a number
  refuses : Call

pub record Client : Type 0 where
  pub pending : List (ℕ × RequestType)
  pub counter : ℕ
  pub listeners : List ℕ
  pub closed : Bool
  pub failure : Option Failure

abbrev pub new : Client
new = record { pending = []; counter = 0; listeners = []; closed = false; failure = none }

-- `get` and `delete` of the map
abbrev pub find : ℕ → List (ℕ × RequestType) → Option RequestType
find n [] = none
find n ((m, type) ∷ rest) = if m == n then some type else find n rest

abbrev pub delete : ℕ → List (ℕ × RequestType) → List (ℕ × RequestType)
delete n [] = []
delete n ((m, type) ∷ rest) = if m == n then delete n rest else (m, type) ∷ delete n rest

abbrev pub reject_all : Reason → List (ℕ × RequestType) → List Call
reject_all reason [] = []
reject_all reason ((n, type) ∷ rest) = rejects n reason ∷ reject_all reason rest

abbrev pub notify_all : List ℕ → List Call
notify_all [] = []
notify_all (l ∷ ls) = notifies l ∷ notify_all ls

abbrev pub has_failed : Option Failure → Bool
has_failed none = false
has_failed (some f) = true

-- `#fail`
unfoldable pub fail : Failure → Client → Client × List Call
fail f c = if has_failed c.failure then (c, []) else (
  record c { failure = some f; pending = [] },
  ready_rejects ∷ (reject_all (failed f) c.pending ++ notify_all c.listeners),
)

abbrev pub same_type : RequestType → RequestType → Bool
same_type target_start target_start = true
same_type metrics_start metrics_start = true
same_type metrics_stop metrics_stop = true
same_type target_stop target_stop = true
same_type _ _ = false

abbrev pub answers_type : RequestType → MessageType → Bool
answers_type type (requested t) = same_type type t
answers_type type _ = false

-- what a response does to the request that it answers
abbrev pub settle : ℕ → RequestType → Response → Call
settle n type r =
    if not (answers_type type r.type)
    then rejects n wrong_answer
    else if r.is_ok
    then resolves n
    else rejects n answered_error

abbrev pub announced : Option AgentReady → Client → Client × List Call
announced none c = fail ready_without_payload c
announced (some payload) c = (c, ready_resolves payload ∷ [])

-- `#onMessage` of an event; an error that it throws goes to `#fail`
abbrev pub on_event : MessageType → Response → Client → Client × List Call
on_event agent_ready r c = if r.is_ok then announced r.payload c else fail reported c
on_event _ r c = if r.is_ok then (c, []) else fail reported c

abbrev pub on_answer : ℕ → Option RequestType → Response → Client → Client × List Call
on_answer n none r c = fail unknown_id c
on_answer n (some type) r c = (record c { pending = delete n c.pending }, settle n type r ∷ [])

abbrev pub on_response : Option MessageId → Response → Client → Client × List Call
on_response none r c = on_event r.type r c
on_response (some foreign) r c = fail unknown_id c
on_response (some (numbered n)) r c = on_answer n (find n c.pending) r c

-- `onMessage` of the decoder
abbrev pub on_parsed : Parsed → Client → Client × List Call
on_parsed (refused e) c = fail (envelope e) c
on_parsed (parsed r) c = on_response r.id r c

unfoldable pub on_message : Envelope → Client → Client × List Call
on_message e c = on_parsed (parse_response e) c

-- an error of `encodeNdjson`, of `write`, or while `drain` is awaited
unfoldable pub on_write_error : ℕ → Client → Client × List Call
on_write_error n c = elim (find n c.pending) [
  | none ↦ (c, [])
  | some type ↦ (record c { pending = delete n c.pending }, rejects n unwritten ∷ [])
]

-- the timer of a request, which is cleared when it is taken from the map
unfoldable pub on_timer : ℕ → Client → Client × List Call
on_timer n c = elim (find n c.pending) [
  | none ↦ (c, [])
  | some type ↦ (record c { pending = delete n c.pending }, rejects n timed_out ∷ [])
]

-- `request`, where the stream can be written to or not, and takes the text or throws
unfoldable pub request : Bool → Bool → RequestType → Client → Client × List Call
request writable taken type c =
    if has_failed c.failure || c.closed || not writable
    then (c, refuses ∷ [])
    else let n = c.counter + 1 in
      let c' = record c { counter = n; pending = c.pending ++ (n, type) ∷ [] } in
      if taken then (c', writes n type ∷ []) else on_write_error n c'

unfoldable pub on_exit : Client → Client × List Call
on_exit c = if c.closed then (c, []) else fail transport_exited c

abbrev pub among : ℕ → List ℕ → Bool
among l [] = false
among l (k ∷ ks) = k == l || among l ks

-- `onFailure`, which adds to a set
unfoldable pub on_failure : ℕ → Client → Client × List Call
on_failure listener c = (
  if among listener c.listeners then c else record c { listeners = c.listeners ++ listener ∷ [] },
  if has_failed c.failure then notifies listener ∷ [] else [],
)

abbrev pub without : ℕ → List ℕ → List ℕ
without l [] = []
without l (k ∷ ks) = if k == l then without l ks else k ∷ without l ks

-- the function that `onFailure` returns
unfoldable pub off_failure : ℕ → Client → Client
off_failure listener c = record c { listeners = without listener c.listeners }

pub data VersionMismatch : Type 0 where
  protocol_mismatch package_mismatch : VersionMismatch

-- the checks of `waitForAgent`, with the client's own versions
unfoldable pub check_versions : ℕ → ℕ → AgentReady → Option VersionMismatch
check_versions protocol benchkit payload =
    if not (payload.protocol_version == protocol)
    then some protocol_mismatch
    else if not (payload.benchkit_version == benchkit)
    then some package_mismatch
    else none

-- `close`, up to the wait for the child process
unfoldable pub close : Bool → Client → Client × List Call
close writable c =
    if c.closed
    then (c, [])
    else (record c { closed = true }, if writable then ends_input ∷ [] else [])
