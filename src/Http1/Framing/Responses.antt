-- ===== src/Http1/Framing/Responses.antt =====
-- src/load/http1/response-parser.ts: how the body of a response is framed.
use text.Mathlib.Text.{◌==◌ as str_eq}
use text.Mathlib.TextEquality.{eq_iff}
use Prim.Native.String.{String}
use benchkit.Prelude.{
  ℕ, suc, ◌+◌, ◌/◌, ◌%◌, ◌≤◌, ◌<◌, ◌≡◌, ◌≢◌, ◌⊎◌, ◌↔◌, ◌==◌, ◌||◌, ◌&&◌, ltb, leb, inl, inr, Bool,
  true, false, Option, none, some, List, [], ◌∷◌, ◌++◌, All, arith, length, drop, ap, ◌∙◌, sym,
  subst, Bool-cases, length-append,
}
use benchkit.Http1.Bytes.{Bytes, index_of, line_end}
use benchkit.Http1.Framing.{
  Parsed, ok, Fields, no_fields, Framing, has_no_body, or_length, Parsed-cases, read_lines,
  status_code_of, framing_of, parse_headers, content_length_name, transfer_encoding_name,
}
use benchkit.Http1.Framing.Blocks.{
  Field, Lacks, IsPlain, line_of, block, lines_behind, line_ends_at, drop-line, read_fields,
  read_lines-block,
}
use benchkit.Http1.Framing.Content.{NoneNamed, Length, LastChunked}
use benchkit.Http1.Framing.Reading.{LengthIn, CodingIn, read_fields-In}

-- `HTTP/1.0` or `HTTP/1.1`, a status of three digits, and what follows it
abbrev pub status_line : ℕ → ℕ → Bytes → Bytes
status_line minor status reason =
    72
    ∷ 84
    ∷ 84
    ∷ 80
    ∷ 47
    ∷ 49
    ∷ 46
    ∷ (48 + minor)
    ∷ 32
    ∷ (48 + status / 100)
    ∷ (48 + status / 10 % 10)
    ∷ (48 + status % 10)
    ∷ reason

-- RFC 9112, section 6.3: a response with no body, by its status or the method of its request
abbrev pub HasNoBody : ℕ → String → Type 0
HasNoBody status method = (status < 200) ⊎ (status ≡ 204) ⊎ (status ≡ 304) ⊎ (method ≡ "HEAD")

-- how the headers frame a body: whether it is chunked, and its length
pub data IsFramedAs (fields : List Field) : Bool → Option ℕ → Type 0 where
  by_length :
      (n : ℕ)
      → Length n fields
      → NoneNamed transfer_encoding_name fields
      → IsFramedAs fields false (some n)
  by_chunks :
      LastChunked fields → NoneNamed content_length_name fields → IsFramedAs fields true none
  by_close :
      NoneNamed content_length_name fields
      → NoneNamed transfer_encoding_name fields
      → IsFramedAs fields false none

pub record IsResponse (status : ℕ) (method : String) (fields : List Field) (f : Framing)
    : Type 0 where
  pub status_is : f.status_code ≡ status
  pub status_low : 100 ≤ status
  pub status_high : status ≤ 599
  pub informational_is : (f.informational ≡ true) ↔ (status < 200)
  pub no_body : HasNoBody status method → (f.chunked ≡ false) × (f.body_length ≡ some 0)
  pub body : ¬ HasNoBody status method → IsFramedAs fields f.chunked f.body_length

abbrev has_none : ℕ → Bool → Bool
has_none status is_head =
    (leb 100 status && ltb status 200) || (is_head || (status == 204 || status == 304))

none-has_none :
    (status : ℕ) (is_head : Bool)
    → 100 ≤ status
    → (status < 200) ⊎ (status ≡ 204) ⊎ (status ≡ 304) ⊎ (is_head ≡ true)
    → has_none status is_head ≡ true
none-has_none status is_head l (inl h) = ground arith
none-has_none status is_head l (inr (inl h)) = ground arith
none-has_none status is_head l (inr (inr (inl h))) = ground arith
none-has_none status is_head l (inr (inr (inr h))) = ground arith

some-has_none :
    (status : ℕ) (is_head : Bool)
    → status ≢ 204
    → status ≢ 304
    → ¬ (status < 200)
    → is_head ≡ false
    → has_none status is_head ≡ false
some-has_none status is_head a b c d = ground (arith, a, b, c, d)

no_body-HasNoBody :
    (status : ℕ) (method : String)
    → 100 ≤ status
    → HasNoBody status method
    → has_no_body status method ≡ true
no_body-HasNoBody status method l h = none-has_none status (str_eq method "HEAD") l (named h)
  where
    named :
        HasNoBody status method
        → (status < 200) ⊎ (status ≡ 204) ⊎ (status ≡ 304) ⊎ (str_eq method "HEAD" ≡ true)
    named (inl h) = inl h
    named (inr (inl h)) = inr (inl h)
    named (inr (inr (inl h))) = inr (inr (inl h))
    named (inr (inr (inr h))) = inr (inr (inr ((eq_iff method "HEAD").1 h)))

some_body-HasNoBody :
    (status : ℕ) (method : String) → ¬ HasNoBody status method → has_no_body status method ≡ false
some_body-HasNoBody status method h =
    some-has_none status (str_eq method "HEAD") (λ e. h (inr (inl e))) (λ e. h (inr (inr (inl e))))
      (λ l. h (inl l))
      (elim (Bool-cases (str_eq method "HEAD")) [
        | inl e ↦ absurd (h (inr (inr (inr ((eq_iff method "HEAD").0 e)))))
        | inr e ↦ e
      ])

framing_of-IsFramedAs :
    (status : ℕ) (method : String) (fields : List Field) (out : Fields) (f : Framing)
    → LengthIn no_fields fields out
    → CodingIn no_fields fields out
    → framing_of status method out ≡ ok f
    → has_no_body status method ≡ false
    → IsFramedAs fields f.chunked f.body_length
unfolding framing_of
framing_of-IsFramedAs status method fields out f (inl l) (inl c) e body =
    let chunked : f.chunked ≡ false = ground (arith, l.1, l.2, c.1, c.2, e, body) in
    let size : f.body_length ≡ none = ground (arith, l.1, l.2, c.1, c.2, e, body) in
    rw (chunked, size) (by_close l.0 c.0)
framing_of-IsFramedAs status method fields out f (inl l) (inr c) e body =
    let coded : out.chunked ≡ true = ground (arith, l.1, l.2, c.0, e, body) in
    let chunked : f.chunked ≡ true = ground (arith, l.1, l.2, c.0, coded, e, body) in
    let size : f.body_length ≡ none = ground (arith, l.1, l.2, c.0, coded, e, body) in
    rw (chunked, size) (by_chunks (c.1 coded) l.0)
framing_of-IsFramedAs status method fields out f (inr l) (inl c) e body =
    let chunked : f.chunked ≡ false = ground (arith, l.1, l.2, c.1, c.2, e, body) in
    let size : f.body_length ≡ some l.0 = ground (arith, l.1, l.2, c.1, c.2, e, body) in
    rw (chunked, size) (by_length l.0 l.4 c.0)
framing_of-IsFramedAs status method fields out f (inr l) (inr c) e body =
    absurd (ground (arith, l.1, l.2, c.0, e, body))

framing_of-IsResponse :
    (status : ℕ) (method : String) (fields : List Field) (out : Fields) (f : Framing)
    → 100 ≤ status
    → status ≤ 599
    → LengthIn no_fields fields out
    → CodingIn no_fields fields out
    → framing_of status method out ≡ ok f
    → IsResponse status method fields f
unfolding framing_of
framing_of-IsResponse status method fields out f low high l c e = record {
  status_is = ground (arith, e);
  status_low = low;
  status_high = high;
  informational_is = (λ i. ground (arith, e), λ i. ground (arith, e));
  no_body = λ h.
      let none_left = no_body-HasNoBody status method low h in
      (ground (arith, e, none_left), ground (arith, e, none_left));
  body = λ h.
      framing_of-IsFramedAs status method fields out f l c e (some_body-HasNoBody status method h);
}

pub status_code_of-line :
    (minor status : ℕ) (reason rest : Bytes)
    → status < 1000
    → status_code_of (status_line minor status reason ++ rest) ≡ status
unfolding status_code_of
status_code_of-line minor status reason rest h = omega (arith, h)

pub status_line-Lacks :
    (minor status : ℕ) (reason : Bytes)
    → Lacks 13 reason
    → Lacks 13 (status_line minor status reason)
status_line-Lacks minor status reason h = ground (arith, h)

length-lines_behind : (fields : List Field) → length fields ≤ length (lines_behind fields)
length-lines_behind [] = omega arith
length-lines_behind (f ∷ fields) =
    let bytes = lines_behind fields in
    omega (arith, length-lines_behind fields, length-append (line_of f) bytes)

abbrev pub lines_in : Bytes → Parsed Fields
lines_in buffer =
    read_lines (suc (length buffer)) no_fields
      (drop (or_length (index_of line_end buffer) buffer + 2) buffer)

-- What an accepted block has passed.
accepted :
    (buffer : Bytes) (method : String) (f : Framing)
    → parse_headers buffer method ≡ ok f
    → (out : Fields) × (lines_in buffer ≡ ok out)
      × (100 ≤ status_code_of buffer)
      × (status_code_of buffer ≤ 599)
      × (framing_of (status_code_of buffer) method out ≡ ok f)
unfolding parse_headers
accepted buffer method f e =
    let status = status_code_of buffer in
    elim (Parsed-cases (lines_in buffer)) [
      | inl (why, r) ↦ absurd (ground (arith, e, r))
      | inr (out, r) ↦ (out, r, ground (arith, e, r), ground (arith, e, r), ground (arith, e, r))
    ]

pub lines_in-block :
    (line : Bytes) (fields : List Field)
    → Lacks 13 line
    → All IsPlain fields
    → lines_in (block line fields) ≡ read_fields no_fields fields
lines_in-block line fields lacks plain =
    let buffer = block line fields in
    let fuel : length fields < suc (length buffer) =
      omega (arith, length-lines_behind fields, length-append line (lines_behind fields)) in
    ap (λ end. read_lines (suc (length buffer)) no_fields (drop (end + 2) buffer))
      (line_ends_at line fields lacks)
    ∙ (ap (read_lines (suc (length buffer)) no_fields) (drop-line line fields)
        ∙ read_lines-block (suc (length buffer)) no_fields fields fuel plain)

-- The header block of a response, of HTTP/1.0 or 1.1, a status below 1000, what follows it, and headers
-- whose names are not empty and hold no colon, with no carriage return but at the ends of the lines: if
-- it is accepted, the status is from 100 to 599 and is that of the framing, which is informational
-- exactly for 1xx; a response with status 1xx, 204 or 304, or to HEAD, has no body; and the body of
-- any other is chunked if the last Transfer-Encoding is, and then no header names a length; it has the
-- length that all Content-Length headers name, if there is one; and its length is unknown if there is
-- neither.
pub parse_headers-IsResponse :
    (minor status : ℕ) (reason : Bytes) (fields : List Field) (method : String) {f : Framing}
    → status < 1000
    → Lacks 13 reason
    → All IsPlain fields
    → parse_headers (block (status_line minor status reason) fields) method ≡ ok f
    → IsResponse status method fields f
parse_headers-IsResponse minor status reason fields method {f} small plain plain_fields e =
    let line = status_line minor status reason in
    let (out, r, low, high, framed) = accepted (block line fields) method f e in
    let code = status_code_of-line minor status reason (lines_behind fields) small in
    let content = read_fields-In no_fields fields out (
      sym (lines_in-block line fields (status_line-Lacks minor status reason plain) plain_fields)
      ∙ r) in
    framing_of-IsResponse status method fields out f (subst (λ s. 100 ≤ s) code low)
      (subst (λ s. s ≤ 599) code high) content.0 content.1
      (subst (λ s. framing_of s method out ≡ ok f) code framed)
