-- ===== src/Http1/Framing/Headers.antt =====
-- src/load/http1/response-parser.ts: what `parseHeaders` promises of the framing that it returns.
use Prim.Native.String.{String}
use benchkit.Prelude.{ℕ, suc, ◌+◌, ◌≤◌, ◌≡◌, inl, inr, true, false, none, some, arith, length, drop}
use benchkit.Http1.Bytes.{Bytes, index_of, line_end}
use benchkit.Http1.Framing.{
  ok, Fields, no_fields, Framing, is_informational, has_no_body, or_length, Parsed-cases,
  read_lines, status_code_of, framing_of, parse_headers,
}

-- What a framing of a response to `request_method` looks like.
pub record IsFraming (request_method : String) (f : Framing) : Type 0 where
  pub status_low : 100 ≤ f.status_code
  pub status_high : f.status_code ≤ 599
  pub informational_is : f.informational ≡ is_informational f.status_code
  pub chunked_or_length : f.chunked ≡ true → f.body_length ≡ none
  pub no_body : has_no_body f.status_code request_method ≡ true → f.body_length ≡ some 0
  pub body : has_no_body f.status_code request_method ≡ true → f.chunked ≡ false

framing_of-IsFraming :
    (status : ℕ) (method : String) (fields : Fields) (f : Framing)
    → 100 ≤ status
    → status ≤ 599
    → framing_of status method fields ≡ ok f
    → IsFraming method f
unfolding framing_of
framing_of-IsFraming status method fields f lo hi e = ground arith

-- Every framing that `parseHeaders` returns has a status code from 100 to 599, is informational
-- exactly for 1xx, has no body length if it is chunked, and is neither chunked nor of unknown length
-- if the status or the method rules a body out.
pub parse_headers-IsFraming :
    (buffer : Bytes) (method : String) {f : Framing}
    → parse_headers buffer method ≡ ok f
    → IsFraming method f
unfolding parse_headers
parse_headers-IsFraming buffer method {f} e =
    let status = status_code_of buffer in
    let lines =
      read_lines (suc (length buffer)) no_fields
        (drop (or_length (index_of line_end buffer) buffer + 2) buffer) in
    elim (Parsed-cases lines) [
      | inl (why, r) ↦ ground arith
      | inr (fields, r) ↦ ground (arith, framing_of-IsFraming status method fields f)
    ]
