-- ===== src/Http1/Parser.antt =====
-- src/load/http1/response-parser.ts: the incremental parser. The options are parameters; the input
-- from `offset` on is a list. A turn of the loop of `push` is `step`, and the loop takes fuel, which
-- the length of the input bounds.
pub mod Invariant
pub mod Run
pub mod Turns
pub mod Segments
pub mod Stream
use Prim.Native.String.{String}
use benchkit.Prelude.{
  ℕ, zero, suc, ◌+◌, ◌-◌, ◌==◌, ltb, if◌then◌else◌, Bool, true, false, not, ◌&&◌, ◌||◌, min, Option,
  none, some, List, [], ◌∷◌, ◌++◌, length, take, drop,
}
use benchkit.Http1.Bytes.{Bytes, byte_at, index_of, line_end, header_end}
use benchkit.Http1.Framing.{
  Label, response_headers, chunk_size_line, response_trailers, ParseError, exceeds,
  upgrade_unsupported, close_delimited_unsupported, chunk_not_followed_by_crlf, out_of_fuel, Parsed,
  ok, err, Framing, parse_headers, parse_chunk_size,
}

pub data ParserState : Type 0 where
  headers fixed_body chunk_size chunk_data chunk_data_crlf trailers : ParserState

-- the parser's fields but `#pending`; `#framing` is written and read within one turn of the loop
pub record Machine : Type 0 where
  pub state : ParserState
  pub body_remaining : ℕ
  pub chunk_remaining : ℕ
  pub status_code : ℕ
  pub trailer_bytes : ℕ

pub record Parser : Type 0 where
  pub machine : Machine
  pub pending : Bytes

-- the fields as `reset` and `#complete` leave them
abbrev pub idle : Machine
idle = record {
  state = headers;
  body_remaining = 0;
  chunk_remaining = 0;
  status_code = 0;
  trailer_bytes = 0;
}

-- `reset`; a new parser too
abbrev pub reset : Parser
reset = record { machine = idle; pending = [] }

-- What a turn of the loop does: `continue` with the rest of the input and the responses completed,
-- `return` with what is kept for the next chunk, or a thrown error.
pub data Turn : Type 0 where
  advance : Machine → Bytes → List ℕ → Turn
  wait : Machine → Bytes → Turn
  fail : Machine → ParseError → Turn

-- What `push` leaves: the parser, the status codes handed to `onResponse` in order, and the error
-- thrown, if any.
pub record Outcome : Type 0 where
  pub parser : Parser
  pub completed : List ℕ
  pub failure : Option ParseError

-- `#complete`
abbrev pub complete : Machine → Bytes → Turn
complete m rest = advance idle rest (m.status_code ∷ [])

-- `#retain`
unfoldable pub retain : ℕ → Machine → Bytes → Label → Turn
retain max_header_bytes m value label =
    if ltb max_header_bytes (length value)
    then fail m (exceeds label max_header_bytes)
    else wait m value

-- the branches behind `parseHeaders`; the status code is stored already
unfoldable pub framed_body : Machine → Bool → Option ℕ → Bytes → Turn
framed_body m true _ rest = advance (record m { state = chunk_size }) rest []
framed_body m false none rest = fail m close_delimited_unsupported
framed_body m false (some n) rest =
    advance (record m { body_remaining = n; state = fixed_body }) rest []

abbrev pub is_empty_body : Option ℕ → Bool
is_empty_body none = false
is_empty_body (some n) = n == 0

unfoldable pub framed : Machine → Framing → Bytes → Turn
framed m f rest =
    if f.informational
    then (if f.status_code == 101 then fail m upgrade_unsupported else advance m rest [])
    else if is_empty_body f.body_length
    then complete m rest
    else framed_body m f.chunked f.body_length rest

unfoldable pub after_headers : Machine → Parsed Framing → Bytes → Turn
after_headers m (err e) rest = fail m e
after_headers m (ok f) rest = framed (record m { status_code = f.status_code }) f rest

unfoldable pub step_headers : String → ℕ → Machine → Bytes → Option ℕ → Turn
step_headers request_method max_header_bytes m input none =
    retain max_header_bytes m input response_headers
step_headers request_method max_header_bytes m input (some i) =
    if ltb max_header_bytes i
    then fail m (exceeds response_headers max_header_bytes)
    else after_headers m (parse_headers (take i input) request_method) (drop (i + 4) input)

unfoldable pub step_fixed_body : Machine → Bytes → Turn
step_fixed_body m input =
    let consumed = min m.body_remaining (length input) in
    let left = m.body_remaining - consumed in
    if left == 0
    then complete m (drop consumed input)
    else advance (record m { body_remaining = left }) (drop consumed input) []

unfoldable pub after_chunk_size : Machine → Parsed ℕ → Bytes → Turn
after_chunk_size m (err e) rest = fail m e
after_chunk_size m (ok n) rest =
    if n == 0
    then advance (record m { chunk_remaining = n; trailer_bytes = 0; state = trailers }) rest []
    else advance (record m { chunk_remaining = n; state = chunk_data }) rest []

unfoldable pub step_chunk_size : ℕ → Machine → Bytes → Option ℕ → Turn
step_chunk_size max_header_bytes m input none = retain max_header_bytes m input chunk_size_line
step_chunk_size max_header_bytes m input (some i) =
    after_chunk_size m (parse_chunk_size (take i input)) (drop (i + 2) input)

unfoldable pub step_chunk_data : Machine → Bytes → Turn
step_chunk_data m input =
    let consumed = min m.chunk_remaining (length input) in
    let left = m.chunk_remaining - consumed in
    if left == 0
    then advance (record m { chunk_remaining = left; state = chunk_data_crlf })
        (drop consumed input) []
    else advance (record m { chunk_remaining = left }) (drop consumed input) []

unfoldable pub step_chunk_data_crlf : Machine → Bytes → Turn
step_chunk_data_crlf m input =
    if ltb (length input) 2
    then wait m input
    else if not (byte_at input 0 == 13) || not (byte_at input 1 == 10)
    then fail m chunk_not_followed_by_crlf
    else advance (record m { state = chunk_size }) (drop 2 input) []

unfoldable pub step_trailers : ℕ → Machine → Bytes → Option ℕ → Turn
step_trailers max_header_bytes m input none = retain max_header_bytes m input response_trailers
step_trailers max_header_bytes m input (some i) =
    let total = m.trailer_bytes + (i + 2) in
    if i == 0
    then complete m (drop 2 input)
    else if ltb max_header_bytes total
    then fail (record m { trailer_bytes = total }) (exceeds response_trailers max_header_bytes)
    else advance (record m { trailer_bytes = total }) (drop (i + 2) input) []

abbrev pub add_completed : List ℕ → Outcome → Outcome
add_completed done o = record o { completed = done ++ o.completed }

abbrev pub stopped : Machine → Bytes → Option ParseError → Outcome
stopped m pending failure = record {
  parser = record { machine = m; pending = pending };
  completed = [];
  failure = failure;
}

module _ (request_method : String) (max_header_bytes : ℕ) where
  unfoldable pub step_in : ParserState → Machine → Bytes → Turn
  step_in headers m input =
      step_headers request_method max_header_bytes m input (index_of header_end input)
  step_in fixed_body m input = step_fixed_body m input
  step_in chunk_size m input = step_chunk_size max_header_bytes m input (index_of line_end input)
  step_in chunk_data m input = step_chunk_data m input
  step_in chunk_data_crlf m input = step_chunk_data_crlf m input
  step_in trailers m input = step_trailers max_header_bytes m input (index_of line_end input)

  abbrev pub step : Machine → Bytes → Turn
  step m input = step_in m.state m input

  -- the loop of `push`
  unfoldable pub run : ℕ → Machine → Bytes → Outcome
  run fuel m [] = stopped m [] none
  run zero m (b ∷ bs) = stopped m [] (some out_of_fuel)
  run (suc fuel) m (b ∷ bs) = elim (step m (b ∷ bs)) [
    | advance m' rest done ↦ add_completed done (run fuel m' rest)
    | wait m' pending ↦ stopped m' pending none
    | fail m' e ↦ stopped m' [] (some e)
  ]

  unfoldable pub push : Parser → Bytes → Outcome
  push p chunk = let input = p.pending ++ chunk in run (length input) p.machine input
