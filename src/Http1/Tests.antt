-- ===== src/Http1/Tests.antt =====
-- src/load/http1/response-parser.ts and http1-worker-measurement.ts: runs, and the theorems at
-- concrete inputs.
use benchkit.Http1.Measurement.Codes.{counted, record_responses, responses_counted}
use benchkit.Http1.Measurement.{build_result, new_http1}
use benchkit.Load.Measurement.{WorkerResult, result_of, new}
use benchkit.Memory.{MemoryUsage}
use benchkit.Latency.{Latency, finite}
use Prim.Native.Char.{code}
use Prim.Native.String.{String}
use mathlib.Core.List.{flatten}
use benchkit.Prelude.{
  ℕ, ◌≤◌, ◌↔◌, ◌≢◌, List, All, none, false, max_safe_integer, ◌≡◌, refl, inr, some, [], ◌∷◌, ◌++◌,
  arith, leb, Bool, ◌/◌, inl,
}
use benchkit.Http1.Bytes.{
  Bytes, is_prefix, index_of, trim_start, trim_end, trim, lower, equals_lower,
  ascii_equals_ignore_case, add_part, split_on, header_end, hex_digit, before,
}
use benchkit.Http1.Framing.{
  content_length_name, transfer_encoding_name, Framing, ok, response_headers, exceeds,
  parse_decimal, parse_length_part, agree, parse_length_parts, parse_content_length,
  last_token_equals, parse_hex, parse_chunk_size, read_field, read_line, read_lines, is_status_line,
  status_code_of, framing_of, parse_headers,
}
use benchkit.Http1.Parser.{
  reset, add_completed, retain, framed_body, framed, after_headers, step_headers, step_fixed_body,
  after_chunk_size, step_chunk_size, step_chunk_data, step_chunk_data_crlf, step_trailers, step_in,
  run, push,
}
use benchkit.Http1.Framing.Lengths.{Spells, place_value, parse_chunk_size_iff}
use benchkit.Http1.Framing.ContentLength.{Names, Fits, parse_content_length_iff}
use benchkit.Http1.Framing.Blocks.{Field, IsPlain, block}
use benchkit.Http1.Framing.Content.{IsNamed, IsChunked}
use benchkit.Http1.Framing.Reading.{names_differ}
use benchkit.Http1.Framing.Acceptance.{parse_headers-accepts}
use benchkit.Http1.Framing.Responses.{status_line, IsResponse, parse_headers-IsResponse}
use benchkit.Http1.Parser.Run.{ParserIsValid, OutcomeIsValid, push-OutcomeIsValid}
use benchkit.Http1.Parser.Segments.{push-append}
use benchkit.Http1.Parser.Stream.{push_all, push_all-eq-push}

abbrev codes : String → Bytes
codes String.[] = []
codes (String.◌∷◌ c s) = code c ∷ codes s

-- Its line opens every function of the parser for the tests that name it.
opened : Unit {0}
unfolding is_prefix index_of trim_start trim_end trim lower equals_lower ascii_equals_ignore_case
    add_part split_on hex_digit before parse_decimal parse_length_part agree parse_length_parts
    parse_content_length last_token_equals parse_hex parse_chunk_size read_field read_line
    read_lines is_status_line status_code_of framing_of parse_headers retain framed_body framed
    after_headers step_headers step_fixed_body after_chunk_size step_chunk_size step_chunk_data
    step_chunk_data_crlf step_trailers step_in run push push_all
opened = tt

abbrev crlf : Bytes
crlf = 13 ∷ 10 ∷ []

abbrev ok_line : Bytes
ok_line = codes "HTTP/1.1 200 OK" ++ crlf

abbrev fixed : Bytes
fixed = ok_line ++ (codes "content-length: 3" ++ (crlf ++ (crlf ++ codes "abc")))

abbrev chunked : Bytes
chunked =
    ok_line
    ++ (codes "Transfer-Encoding: chunked"
        ++ (crlf
            ++ (crlf
                ++ (codes "4;x"
                    ++ (crlf ++ (codes "wxyz" ++ (crlf ++ (codes "0" ++ (crlf ++ crlf)))))))))

two_responses : (push "GET" 64 reset (fixed ++ chunked)).completed ≡ 200 ∷ 200 ∷ []
unfolding opened
two_responses = refl

abbrev first : Bytes
first = fixed ++ codes "HTTP"

abbrev second : Bytes
second = codes "/1.1 204" ++ header_end

reset-ParserIsValid : ParserIsValid 64 reset
reset-ParserIsValid = record { machine = tt; bounded = inr (omega arith) }

push-append_example :
    let o = push "GET" 64 reset first in
    push "GET" 64 reset (first ++ second)
    ≡ add_completed o.completed (push "GET" 64 o.parser second)
unfolding opened
push-append_example = push-append "GET" 64 reset first second reset-ParserIsValid refl

push_all-eq-push_example :
    push_all "GET" 64 reset first (second ∷ [])
    ≡ push "GET" 64 reset (flatten (first ∷ second ∷ []))
unfolding opened
push_all-eq-push_example =
    push_all-eq-push "GET" 64 reset first (second ∷ []) reset-ParserIsValid refl

push-OutcomeIsValid_example : OutcomeIsValid 64 (push "GET" 64 reset first)
push-OutcomeIsValid_example = push-OutcomeIsValid "GET" 64 reset first reset-ParserIsValid

-- A block within the limit is refused where a chunk ends inside its terminator.
cut_terminator :
    ((push "HEAD" 16 reset (ok_line ++ crlf)).failure ≡ none)
    × ((push "HEAD" 16 reset ok_line).failure ≡ some (exceeds response_headers 16))
unfolding opened
cut_terminator = (refl, refl)

parse_content_length_iff_example :
    (parse_content_length (codes "12, 12") none ≡ ok 12)
    ↔ (Fits 12 none × All (λ p. Names 12 (trim p)) (split_on 44 (codes "12, 12")))
parse_content_length_iff_example = parse_content_length_iff (codes "12, 12") none 12

parse_chunk_size_iff_example : (parse_chunk_size (codes "1F;x") ≡ ok 31) ↔ (
    (trim (before 59 (codes "1F;x")) ≢ [])
    × ((ds : List ℕ) × Spells hex_digit (trim (before 59 (codes "1F;x"))) ds
        × (31 ≡ place_value 16 ds)
        × (31 ≤ max_safe_integer)))
parse_chunk_size_iff_example = parse_chunk_size_iff (codes "1F;x") 31

abbrev some_fields : List Field
some_fields =
    (codes "Server", codes " x")
    ∷ (codes "Content-Length", codes " 12")
    ∷ (codes "content-length ", codes "12,12 ")
    ∷ []

abbrev of_length : Framing
of_length = record {
  status_code = 200;
  informational = false;
  chunked = false;
  body_length = some 12;
}

some_fields-IsPlain : All IsPlain some_fields
some_fields-IsPlain = ground arith

parse_headers-IsResponse_example : IsResponse 200 "GET" some_fields of_length
unfolding opened
parse_headers-IsResponse_example =
    parse_headers-IsResponse 1 200 (codes " OK") some_fields "GET" (omega arith) (ground arith)
      some_fields-IsPlain refl

abbrev coding : Field
coding = (codes "Transfer-Encoding", codes " gzip, Chunked")

coding-IsNamed : IsNamed transfer_encoding_name coding
unfolding opened
coding-IsNamed = refl

coding-IsChunked : IsChunked coding
unfolding opened
coding-IsChunked = refl

parse_headers-accepts_example :
    (f : Framing) × (parse_headers
        (block (status_line 0 201 (codes " Created")) (coding ∷ []))
        "POST"
      ≡ ok f)
parse_headers-accepts_example =
    let no_length : ¬ IsNamed content_length_name coding =
      λ e. names_differ coding e coding-IsNamed in
    parse_headers-accepts 0 201 (codes " Created") (coding ∷ []) "POST" 0 (omega arith)
      (omega arith) (omega arith) (inr (codes "Created", refl)) (ground arith)
      ((omega arith, ground arith, ground arith), tt)
      ((λ e. absurd (no_length e), λ e. coding-IsChunked), tt) (inl (no_length, tt))

abbrev some_responses : List (ℕ × Latency)
some_responses = (200, finite 15) ∷ (404, finite 20) ∷ (200, finite 0) ∷ (503, finite 90) ∷ []

abbrev is_failure : ℕ → Bool
is_failure status = leb 400 status

abbrev no_usage : MemoryUsage
no_usage = record { rss = 1; heap_total = 2; heap_used = 3; external = 4; array_buffers = 5 }

abbrev shared_result : WorkerResult
shared_result = result_of 1000 0 50 no_usage (new 10)

responses_counted_example :
    (counted is_failure
        (build_result shared_result
          (record_responses (λ ms. ms / 10) some_responses (new_http1 10))).status_codes
      ≡ 2)
    × ((build_result shared_result
          (record_responses (λ ms. ms / 10) some_responses (new_http1 10))).non_2xx
        ≡ 2)
responses_counted_example =
    responses_counted (λ ms. ms / 10) 10 shared_result is_failure some_responses
      (
        (omega arith, omega arith),
        (
          (omega arith, omega arith),
          ((omega arith, omega arith), ((omega arith, omega arith), tt)),
        ),
      )
