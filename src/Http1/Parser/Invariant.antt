-- ===== src/Http1/Parser/Invariant.antt =====
-- src/load/http1/response-parser.ts: the parser's invariant, kept by each turn of the loop of `push`.
use Prim.Native.String.{String}
use benchkit.Prelude.{
  ℕ, ◌+◌, ◌≤◌, ◌<◌, ◌≡◌, ◌≢◌, ◌⊎◌, inl, inr, refl, ap, ◌∙◌, min, All, arith, length, take, drop,
  length-drop, Option-cases, Bool-cases, ltb,
}
use benchkit.Http1.Bytes.{Bytes, index_of, line_end, header_end}
use benchkit.Http1.Framing.{
  Label, response_headers, chunk_size_line, response_trailers, out_of_fuel, Parsed, ok, err,
  Parsed-cases, Framing, parse_headers, parse_chunk_size,
}
use benchkit.Http1.Framing.Headers.{IsFraming, parse_headers-IsFraming}
use benchkit.Http1.Framing.Fuel.{parse_headers-Ends, parse_chunk_size-Ends}
use benchkit.Http1.Parser.{
  ParserState, headers, fixed_body, chunk_size, chunk_data, chunk_data_crlf, trailers, Machine,
  Turn, advance, wait, fail, retain, framed_body, framed, after_headers, step_headers,
  step_fixed_body, after_chunk_size, step_chunk_size, step_chunk_data, step_chunk_data_crlf,
  step_trailers, step_in, step,
}

-- the status of a final response
abbrev pub IsFinal : ℕ → Type 0
IsFinal status = (200 ≤ status) × (status ≤ 599)

-- Between the headers of a response and its end the parser holds a final status, and what it still
-- expects of a body or a chunk is not nothing.
abbrev pub InState : ℕ → ParserState → Machine → Type 0
InState max_header_bytes headers m = Unit
InState max_header_bytes fixed_body m = IsFinal m.status_code × (0 < m.body_remaining)
InState max_header_bytes chunk_size m = IsFinal m.status_code
InState max_header_bytes chunk_data m = IsFinal m.status_code × (0 < m.chunk_remaining)
InState max_header_bytes chunk_data_crlf m = IsFinal m.status_code
InState max_header_bytes trailers m = IsFinal m.status_code × (m.trailer_bytes ≤ max_header_bytes)

abbrev pub IsValid : ℕ → Machine → Type 0
IsValid max_header_bytes m = InState max_header_bytes m.state m

-- A turn on `input` from `m` that goes on keeps the invariant, completes final responses only and
-- takes at least one byte; one that waits keeps the machine and the whole input, which is within the
-- limit or shorter than a line end; one that fails does not for want of fuel.
abbrev pub TurnIsValid : ℕ → Machine → Bytes → Turn → Type 0
TurnIsValid max_header_bytes m input (advance m' rest done) =
    IsValid max_header_bytes m' × All IsFinal done × (length rest < length input)
TurnIsValid max_header_bytes m input (wait m' pending) =
    (m' ≡ m) × (pending ≡ input) × ((length input ≤ max_header_bytes) ⊎ (length input ≤ 1))
TurnIsValid max_header_bytes m input (fail m' e) = e ≢ out_of_fuel

retain-TurnIsValid :
    (max : ℕ) (m : Machine) (input : Bytes) (label : Label)
    → TurnIsValid max m input (retain max m input label)
unfolding retain
retain-TurnIsValid max m input label = elim (Bool-cases (ltb max (length input))) [
  | inl over ↦ rw over (λ e. cc)
  | inr within ↦ rw within (refl, refl, inl (ground arith))
]

framed-TurnIsValid :
    (method : String) (max : ℕ) (m m' : Machine) (f : Framing) (input rest : Bytes)
    → m'.state ≡ headers
    → m'.status_code ≡ f.status_code
    → IsFraming method f
    → length rest < length input
    → TurnIsValid max m input (framed m' f rest)
unfolding framed framed_body
framed-TurnIsValid method max m m' f input rest at same v h = ground arith

length-drop_lt : (n : ℕ) (xs : Bytes) → 0 < n → 0 < length xs → length (drop n xs) < length xs
length-drop_lt n xs h k = omega (arith, length-drop n xs)

step_headers-TurnIsValid :
    (method : String) (max : ℕ) (m : Machine) (input : Bytes)
    → m.state ≡ headers
    → 0 < length input
    → TurnIsValid max m input (step_headers method max m input (index_of header_end input))
unfolding step_headers after_headers
step_headers-TurnIsValid method max m input at some_input =
    elim (Option-cases (index_of header_end input)) [
      | inl e ↦ rw e (retain-TurnIsValid max m input response_headers)
      | inr (i, e) ↦ rw e (elim (Bool-cases (ltb max i)) [
        | inl over ↦ rw over (λ e. cc)
        | inr within ↦ rw within (parsed i (parse_headers (take i input) method) refl)
      ])
    ]
  where
    parsed :
        (i : ℕ) (r : Parsed Framing)
        → parse_headers (take i input) method ≡ r
        → TurnIsValid max m input (after_headers m r (drop (i + 4) input))
    parsed i (err e) r = λ out. parse_headers-Ends (take i input) method (r ∙ ap err out)
    parsed i (ok f) r =
        framed-TurnIsValid method max m (record m { status_code = f.status_code }) f input
          (drop (i + 4) input) at refl (parse_headers-IsFraming (take i input) method r)
          (length-drop_lt (i + 4) input (omega arith) some_input)

step_fixed_body-TurnIsValid :
    (max : ℕ) (m : Machine) (input : Bytes)
    → m.state ≡ fixed_body
    → IsFinal m.status_code × (0 < m.body_remaining)
    → 0 < length input
    → TurnIsValid max m input (step_fixed_body m input)
unfolding step_fixed_body
step_fixed_body-TurnIsValid max m input at v some_input =
    ground (arith, length-drop (min m.body_remaining (length input)) input)

step_chunk_data-TurnIsValid :
    (max : ℕ) (m : Machine) (input : Bytes)
    → m.state ≡ chunk_data
    → IsFinal m.status_code × (0 < m.chunk_remaining)
    → 0 < length input
    → TurnIsValid max m input (step_chunk_data m input)
unfolding step_chunk_data
step_chunk_data-TurnIsValid max m input at v some_input =
    ground (arith, length-drop (min m.chunk_remaining (length input)) input)

step_chunk_data_crlf-TurnIsValid :
    (max : ℕ) (m : Machine) (input : Bytes)
    → IsFinal m.status_code
    → TurnIsValid max m input (step_chunk_data_crlf m input)
unfolding step_chunk_data_crlf
step_chunk_data_crlf-TurnIsValid max m input v = ground (arith, length-drop 2 input)

step_chunk_size-TurnIsValid :
    (max : ℕ) (m : Machine) (input : Bytes)
    → IsFinal m.status_code
    → 0 < length input
    → TurnIsValid max m input (step_chunk_size max m input (index_of line_end input))
unfolding step_chunk_size after_chunk_size
step_chunk_size-TurnIsValid max m input v some_input =
    elim (Option-cases (index_of line_end input)) [
      | inl e ↦ rw e (retain-TurnIsValid max m input chunk_size_line)
      | inr (i, e) ↦ rw e (elim (Parsed-cases (parse_chunk_size (take i input))) [
        | inl (why, r) ↦ rw r (λ out. parse_chunk_size-Ends (take i input) (r ∙ ap err out))
        | inr (n, r) ↦ rw r (ground (arith, length-drop (i + 2) input))
      ])
    ]

step_trailers-TurnIsValid :
    (max : ℕ) (m : Machine) (input : Bytes)
    → m.state ≡ trailers
    → IsFinal m.status_code × (m.trailer_bytes ≤ max)
    → 0 < length input
    → TurnIsValid max m input (step_trailers max m input (index_of line_end input))
unfolding step_trailers
step_trailers-TurnIsValid max m input at v some_input =
    elim (Option-cases (index_of line_end input)) [
      | inl e ↦ rw e (retain-TurnIsValid max m input response_trailers)
      | inr (i, e) ↦ rw e (ground (arith, length-drop (i + 2) input, length-drop 2 input))
    ]

-- Every turn of the loop from a valid machine on some input is valid.
pub step-TurnIsValid :
    (method : String) (max : ℕ) (m : Machine) (input : Bytes)
    → IsValid max m
    → 0 < length input
    → TurnIsValid max m input (step method max m input)
unfolding step_in
step-TurnIsValid method max m input v h = at m.state refl v
  where
    at :
        (s : ParserState)
        → m.state ≡ s
        → InState max s m
        → TurnIsValid max m input (step_in method max s m input)
    at headers e v = step_headers-TurnIsValid method max m input e h
    at fixed_body e v = step_fixed_body-TurnIsValid max m input e v h
    at chunk_size e v = step_chunk_size-TurnIsValid max m input v h
    at chunk_data e v = step_chunk_data-TurnIsValid max m input e v h
    at chunk_data_crlf e v = step_chunk_data_crlf-TurnIsValid max m input v
    at trailers e v = step_trailers-TurnIsValid max m input e v h
