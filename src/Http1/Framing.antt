-- ===== src/Http1/Framing.antt =====
-- src/load/http1/response-parser.ts: `parseHeaders`, `parseContentLength` and `parseChunkSize`.
-- A thrown `Error` is a value of `ParseError`, with a constructor for each message. Loops over the
-- header lines take fuel; `out_of_fuel` marks its end and is proved not to occur.
pub mod Lengths
pub mod Fuel
pub mod ContentLength
pub mod Blocks
pub mod Content
pub mod Reading
pub mod Responses
pub mod Acceptance
pub mod Headers
use text.Mathlib.Text.{◌==◌ as str_eq}
use Prim.Native.String.{String}
use benchkit.Prelude.{
  ℕ, zero, suc, ◌+◌, ◌-◌, ◌*◌, ◌^◌, ◌==◌, ltb, leb, ◌≡◌, refl, ◌⊎◌, inl, inr, if◌then◌else◌, Bool,
  true, false, not, ◌&&◌, ◌||◌, Option, none, some, List, [], ◌∷◌, length, take, drop,
  max_safe_integer,
}
use benchkit.Http1.Bytes.{
  Bytes, byte_at, index_of, line_end, is_digit, hex_digit, trim, ascii_equals_ignore_case, split_on,
  before,
}

pub data Label : Type 0 where
  response_headers chunk_size_line response_trailers : Label

pub data ParseError : Type 0 where
  exceeds : Label → ℕ → ParseError
  upgrade_unsupported close_delimited_unsupported chunk_not_followed_by_crlf : ParseError
  invalid_status_line invalid_header invalid_content_length : ParseError
  unsupported_transfer_encoding both_length_headers : ParseError
  invalid_chunk_size chunk_size_unsafe out_of_fuel : ParseError

pub data Parsed {ℓ} (A : Type ℓ) : Type ℓ where
  ok : A → Parsed A
  err : ParseError → Parsed A

infixl 5 ◌>>=◌
abbrev pub ◌>>=◌ {ℓ κ} : {A : Type ℓ} {B : Type κ} → Parsed A → (A → Parsed B) → Parsed B
ok a >>= f = f a
err e >>= f = err e

pub Parsed-cases {ℓ} :
    {A : Type ℓ} (r : Parsed A) → ((e : ParseError) × (r ≡ err e)) ⊎ ((a : A) × (r ≡ ok a))
Parsed-cases (ok a) = inr (a, refl)
Parsed-cases (err e) = inl (e, refl)

-- The digit loop of `parseContentLength`. The quotient that the code compares with is rounded to an
-- eighth, which moves it past no whole number: the comparison is that of the exact products.
unfoldable pub parse_decimal : ℕ → Bytes → Parsed ℕ
parse_decimal parsed [] = ok parsed
parse_decimal parsed (b ∷ bs) =
    if not (is_digit b) || ltb (max_safe_integer - (b - 48)) (parsed * 10)
    then err invalid_content_length
    else parse_decimal (parsed * 10 + (b - 48)) bs

-- One comma-separated part. A leading zero is refused where more digits follow.
unfoldable pub parse_length_part : Bytes → Parsed ℕ
parse_length_part part =
    if length part == 0 || (ltb 1 (length part) && byte_at part 0 == 48)
    then err invalid_content_length
    else parse_decimal 0 part

-- `value !== null && value !== parsed`
unfoldable pub agree : Option ℕ → ℕ → Parsed ℕ
agree none parsed = ok parsed
agree (some value) parsed = if value == parsed then ok parsed else err invalid_content_length

-- the loop over the parts
unfoldable pub parse_length_parts : Option ℕ → List Bytes → Parsed ℕ
parse_length_parts none [] = err invalid_content_length
parse_length_parts (some value) [] = ok value
parse_length_parts value (p ∷ ps) = do
  parsed ← parse_length_part (trim p)
  same ← agree value parsed
  parse_length_parts (some same) ps

unfoldable pub parse_content_length : Bytes → Option ℕ → Parsed ℕ
parse_content_length range previous = parse_length_parts previous (split_on 44 range)

abbrev pub last_part : List Bytes → Bytes
last_part [] = []
last_part (p ∷ []) = p
last_part (p ∷ q ∷ ps) = last_part (q ∷ ps)

unfoldable pub last_token_equals : Bytes → Bytes → Bool
last_token_equals range expected =
    ascii_equals_ignore_case (trim (last_part (split_on 44 range))) expected

-- The digit loop of `parseChunkSize`; the quotient by 16 is exact.
unfoldable pub parse_hex : ℕ → Bytes → Parsed ℕ
parse_hex size [] = ok size
parse_hex size (b ∷ bs) = elim (hex_digit b) [
  | none ↦ err invalid_chunk_size
  | some digit ↦
      if ltb (max_safe_integer - digit) (size * 16)
      then err chunk_size_unsafe
      else parse_hex (size * 16 + digit) bs
]

-- The argument is the line; what follows a `;` is a chunk extension.
unfoldable pub parse_chunk_size : Bytes → Parsed ℕ
parse_chunk_size line =
    let digits = trim (before 59 line) in
    if length digits == 0 then err invalid_chunk_size else parse_hex 0 digits

abbrev pub content_length_name : Bytes
content_length_name =
    b'c' ∷ b'o' ∷ b'n' ∷ b't' ∷ b'e' ∷ b'n' ∷ b't' ∷ b'-' ∷ b'l' ∷ b'e' ∷ b'n' ∷ b'g' ∷ b't' ∷ b'h'
    ∷ []

abbrev pub transfer_encoding_name : Bytes
transfer_encoding_name =
    b't' ∷ b'r' ∷ b'a' ∷ b'n' ∷ b's' ∷ b'f' ∷ b'e' ∷ b'r' ∷ b'-' ∷ b'e' ∷ b'n' ∷ b'c' ∷ b'o' ∷ b'd'
    ∷ b'i' ∷ b'n' ∷ b'g' ∷ []

abbrev pub chunked_token : Bytes
chunked_token = b'c' ∷ b'h' ∷ b'u' ∷ b'n' ∷ b'k' ∷ b'e' ∷ b'd' ∷ []

-- the local variables of `parseHeaders`
pub record Fields : Type 0 where
  pub content_length : Option ℕ
  pub has_content_length : Bool
  pub has_transfer_encoding : Bool
  pub chunked : Bool

abbrev pub no_fields : Fields
no_fields = record {
  content_length = none;
  has_content_length = false;
  has_transfer_encoding = false;
  chunked = false;
}

-- what one header line does to them
unfoldable pub read_field : Fields → Bytes → Bytes → Parsed Fields
read_field fields name value =
    if ascii_equals_ignore_case name content_length_name
    then (do
      n ← parse_content_length value fields.content_length
      ok (record fields { content_length = some n; has_content_length = true }))
    else if ascii_equals_ignore_case name transfer_encoding_name
    then ok (record fields {
      has_transfer_encoding = true;
      chunked = last_token_equals value chunked_token;
    })
    else ok fields

abbrev pub or_length : Option ℕ → Bytes → ℕ
or_length none rest = length rest
or_length (some i) rest = i

-- The line at the start of `rest`, which ends at `end`, with its colon at `separator`.
unfoldable pub read_line : Fields → Bytes → ℕ → Option ℕ → Parsed Fields
read_line fields rest end none = err invalid_header
read_line fields rest end (some separator) =
    if separator == 0 || leb end separator
    then err invalid_header
    else read_field fields (trim (take separator rest))
        (trim (drop (separator + 1) (take end rest)))

-- the loop over the header lines
unfoldable pub read_lines : ℕ → Fields → Bytes → Parsed Fields
read_lines fuel fields [] = ok fields
read_lines zero fields (b ∷ bs) = err out_of_fuel
read_lines (suc fuel) fields (b ∷ bs) =
    let end = or_length (index_of line_end (b ∷ bs)) (b ∷ bs) in
    do
      next ← read_line fields (b ∷ bs) end (index_of (58 ∷ []) (b ∷ bs))
      read_lines fuel next (drop (end + 2) (b ∷ bs))

unfoldable pub is_status_line : Bytes → ℕ → Bool
is_status_line buffer end =
    leb 12 end
    && byte_at buffer 0 == 72
    && byte_at buffer 1 == 84
    && byte_at buffer 2 == 84
    && byte_at buffer 3 == 80
    && byte_at buffer 4 == 47
    && byte_at buffer 5 == 49
    && byte_at buffer 6 == 46
    && (byte_at buffer 7 == 48 || byte_at buffer 7 == 49)
    && byte_at buffer 8 == 32
    && is_digit (byte_at buffer 9)
    && is_digit (byte_at buffer 10)
    && is_digit (byte_at buffer 11)
    && not (ltb 12 end && not (byte_at buffer 12 == 32))

unfoldable pub status_code_of : Bytes → ℕ
status_code_of buffer =
    (byte_at buffer 9 - 48) * 100 + (byte_at buffer 10 - 48) * 10 + (byte_at buffer 11 - 48)

-- `ResponseFraming`
pub record Framing : Type 0 where
  pub status_code : ℕ
  pub informational : Bool
  pub chunked : Bool
  pub body_length : Option ℕ

abbrev pub is_informational : ℕ → Bool
is_informational status = leb 100 status && ltb status 200

abbrev pub has_no_body : ℕ → String → Bool
has_no_body status request_method =
    is_informational status || (str_eq request_method "HEAD" || (status == 204 || status == 304))

-- what stands behind the loop of `parseHeaders`
unfoldable pub framing_of : ℕ → String → Fields → Parsed Framing
framing_of status request_method fields =
    if fields.has_transfer_encoding && not fields.chunked
    then err unsupported_transfer_encoding
    else if fields.chunked && fields.has_content_length
    then err both_length_headers
    else ok (record {
      status_code = status;
      informational = is_informational status;
      chunked = not (has_no_body status request_method) && fields.chunked;
      body_length =
          if has_no_body status request_method
          then some 0
          else if fields.chunked
          then none
          else if fields.has_content_length
          then fields.content_length
          else none;
    })

unfoldable pub parse_headers : Bytes → String → Parsed Framing
parse_headers buffer request_method =
    let end = or_length (index_of line_end buffer) buffer in
    let status = status_code_of buffer in
    if not (is_status_line buffer end)
    then err invalid_status_line
    else if ltb status 100 || ltb 599 status
    then err invalid_status_line
    else (do
      fields ← read_lines (suc (length buffer)) no_fields (drop (end + 2) buffer)
      framing_of status request_method fields)
