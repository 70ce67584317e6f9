-- ===== src/Control/Protocol.antt =====
-- src/control/protocol.ts: the envelopes of the control protocol and their validation. A value is
-- given by what the validation asks of it.
use benchkit.Prelude.{
  ℕ, ◌==◌, ltb, if◌then◌else◌, Bool, true, false, not, ◌&&◌, ◌||◌, Option, none, some,
}

pub data RequestType : Type 0 where
  target_start metrics_start metrics_stop target_stop : RequestType

-- An identifier of a message, as the one that sent the requests reads it: the text
-- `${process.pid}-${n}`, or another.
pub data MessageId : Type 0 where
  numbered : ℕ → MessageId
  foreign : MessageId

pub data MessageType : Type 0 where
  requested : RequestType → MessageType
  agent_ready other_type : MessageType

-- the payload of `agent:ready`
pub record AgentReady : Type 0 where
  pub protocol_version : ℕ
  pub benchkit_version : ℕ

pub data IdField : Type 0 where
  null_id no_id : IdField
  text_id : MessageId → IdField

pub data Status : Type 0 where
  ok error no_status : Status

-- A decoded value: whether it is an object, and its fields. `payload` is there if it is an object.
pub record Envelope : Type 0 where
  pub is_record : Bool
  pub has_version : Bool
  pub id : IdField
  pub status : Status
  pub type : Option MessageType
  pub has_error : Bool
  pub payload : Option AgentReady

-- A response, or an event, whose id is null.
pub record Response : Type 0 where
  pub id : Option MessageId
  pub type : MessageType
  pub is_ok : Bool
  pub payload : Option AgentReady

pub data EnvelopeError : Type 0 where
  not_an_object wrong_version wrong_id wrong_status wrong_type no_serialized_error : EnvelopeError

pub data Parsed : Type 0 where
  parsed : Response → Parsed
  refused : EnvelopeError → Parsed

abbrev pub is_text_or_null : IdField → Bool
is_text_or_null no_id = false
is_text_or_null _ = true

abbrev pub id_of : IdField → Option MessageId
id_of (text_id i) = some i
id_of _ = none

abbrev pub is_status : Status → Bool
is_status no_status = false
is_status _ = true

abbrev pub is_error : Status → Bool
is_error error = true
is_error _ = false

-- the checks of `parseResponse` behind those of the id and the status
abbrev pub typed : Envelope → Option MessageType → Parsed
typed e none = refused wrong_type
typed e (some type) =
    if is_error e.status && not e.has_error
    then refused no_serialized_error
    else parsed (record {
      id = id_of e.id;
      type = type;
      is_ok = not (is_error e.status);
      payload = e.payload;
    })

unfoldable pub parse_response : Envelope → Parsed
parse_response e =
    if not e.is_record
    then refused not_an_object
    else if not e.has_version
    then refused wrong_version
    else if not (is_text_or_null e.id)
    then refused wrong_id
    else if not (is_status e.status)
    then refused wrong_status
    else typed e e.type

pub data TypeField : Type 0 where
  request_type : RequestType → TypeField
  other_text no_text : TypeField

-- A decoded value that should be a request. A text of an id is a number, and its length another.
pub record RequestValue : Type 0 where
  pub is_record : Bool
  pub has_version : Bool
  pub id : Option ℕ
  pub id_length : ℕ
  pub type : TypeField

pub record Request : Type 0 where
  pub id : ℕ
  pub type : RequestType

pub data RequestError : Type 0 where
  not_an_object wrong_version wrong_id unknown_type : RequestError

pub data ParsedRequest : Type 0 where
  accepted : Request → ParsedRequest
  rejected : RequestError → ParsedRequest

abbrev pub request_of : ℕ → TypeField → ParsedRequest
request_of id (request_type type) = accepted (record { id = id; type = type })
request_of id _ = rejected unknown_type

-- the checks of `parseRequest` behind those of the object and its version
abbrev pub identified : Option ℕ → ℕ → TypeField → ParsedRequest
identified none length type = rejected wrong_id
identified (some id) length type =
    if length == 0 || ltb 128 length then rejected wrong_id else request_of id type

unfoldable pub parse_request : RequestValue → ParsedRequest
parse_request v =
    if not v.is_record
    then rejected not_an_object
    else if not v.has_version
    then rejected wrong_version
    else identified v.id v.id_length v.type
