-- ===== src/Http1/Framing/Acceptance.antt =====
-- src/load/http1/response-parser.ts: which header blocks `parseHeaders` accepts.
use Prim.Native.String.{String}
use benchkit.Prelude.{
  ℕ, ◌+◌, ◌/◌, ◌%◌, ◌≤◌, ◌<◌, ◌≡◌, ◌⊎◌, inl, inr, true, false, some, List, [], ◌∷◌, ◌++◌, All,
  arith, length, refl, ap, ◌∙◌, sym, subst, Bool-cases, ◌&&◌, ltb, not, ◌==◌,
}
use benchkit.Http1.Bytes.{
  Bytes, index_of, line_end, split_on, byte_at, trim, ascii_equals_ignore_case,
}
use benchkit.Http1.Framing.{
  ok, Parsed-cases, last_part, Fields, no_fields, Framing, or_length, is_status_line,
  status_code_of, read_field, last_token_equals, framing_of, parse_headers, content_length_name,
  transfer_encoding_name, chunked_token,
}
use benchkit.Http1.Framing.Blocks.{
  Field, Lacks, IsPlain, block, lines_behind, line_ends_at, read_fields,
}
use benchkit.Http1.Framing.ContentLength.{Fits, parse_content_length_iff}
use benchkit.Http1.Framing.Content.{
  IsNamed, NoneNamed, SomeNamed, HasLength, IsChunked, equals-IsNamed, same_lower,
}
use benchkit.Http1.Framing.Reading.{LengthIn, CodingIn, read_fields-In}
use benchkit.Http1.Framing.Responses.{
  status_line, status_line-Lacks, status_code_of-line, lines_in, lines_in-block,
}

-- Headers that name lengths name this one, and those that name a coding end with chunked.
abbrev pub AreClear : ℕ → List Field → Type 0
AreClear n fields =
    All
      (λ f.
        (IsNamed content_length_name f → HasLength n f)
        × (IsNamed transfer_encoding_name f → IsChunked f))
      fields

-- Every coding that is read so far is chunked.
abbrev IsClean : Fields → Type 0
IsClean s = s.has_transfer_encoding ≡ true → s.chunked ≡ true

last_token_equals-IsChunked :
    (f : Field) → IsChunked f → last_token_equals (trim f.1) chunked_token ≡ true
unfolding last_token_equals
last_token_equals-IsChunked f coded =
    let token = trim (last_part (split_on 44 (trim f.1))) in
    subst (λ t. ascii_equals_ignore_case token t ≡ true) coded (same_lower token)

read_field-accepts :
    (n : ℕ) (seen : Fields) (f : Field)
    → Fits n seen.content_length
    → IsClean seen
    → (IsNamed content_length_name f → HasLength n f)
    → (IsNamed transfer_encoding_name f → IsChunked f)
    → (next : Fields) × (read_field seen (trim f.0) (trim f.1) ≡ ok next)
      × Fits n next.content_length
      × IsClean next
unfolding read_field
read_field-accepts n seen f fits clean sized coded =
    let name = trim f.0 in
    let value = trim f.1 in
    elim (Bool-cases (ascii_equals_ignore_case name content_length_name)) [
      | inl is_length ↦
          let named = equals-IsNamed name content_length_name is_length in
          let parsed =
            (parse_content_length_iff value seen.content_length n).1 (fits, sized named) in
          (
            record seen { content_length = some n; has_content_length = true },
            ground (arith, is_length, parsed),
            refl,
            clean,
          )
      | inr no_length ↦ elim (Bool-cases (ascii_equals_ignore_case name transfer_encoding_name)) [
        | inl is_coding ↦
            let named = equals-IsNamed name transfer_encoding_name is_coding in
            (
              record seen {
                has_transfer_encoding = true;
                chunked = last_token_equals value chunked_token;
              },
              ground (arith, no_length, is_coding),
              fits,
              λ _. last_token_equals-IsChunked f (coded named),
            )
        | inr no_coding ↦ (seen, ground (arith, no_length, no_coding), fits, clean)
      ]
    ]

read_fields-accepts :
    (n : ℕ) (seen : Fields) (fields : List Field)
    → Fits n seen.content_length
    → IsClean seen
    → AreClear n fields
    → (out : Fields) × (read_fields seen fields ≡ ok out) × IsClean out
read_fields-accepts n seen [] fits clean clear = (seen, refl, clean)
read_fields-accepts n seen (f ∷ fields) fits clean clear =
    let (next, e, fits', clean') = read_field-accepts n seen f fits clean clear.0.0 clear.0.1 in
    let (out, e', clean'') = read_fields-accepts n next fields fits' clean' clear.1 in
    (out, rw e e', clean'')

none-SomeNamed :
    (name : Bytes) (fields : List Field) → NoneNamed name fields → ¬ SomeNamed name fields
none-SomeNamed name [] h s = s
none-SomeNamed name (f ∷ fields) h (inl here) = h.0 here
none-SomeNamed name (f ∷ fields) h (inr there) = none-SomeNamed name fields h.1 there

none-middle :
    (name : Bytes) (earlier : List Field) (f : Field) (later : List Field)
    → NoneNamed name (earlier ++ f ∷ later)
    → ¬ IsNamed name f
none-middle name [] f later h = h.0
none-middle name (g ∷ earlier) f later h = none-middle name earlier f later h.1

-- Not both kinds of headers are there.
abbrev pub AreApart : List Field → Type 0
AreApart fields = NoneNamed content_length_name fields ⊎ NoneNamed transfer_encoding_name fields

framing_of-ok :
    (status : ℕ) (method : String) (out : Fields)
    → (out.has_transfer_encoding ≡ true → out.chunked ≡ true)
    → (out.chunked && out.has_content_length) ≡ false
    → (f : Framing) × (framing_of status method out ≡ ok f)
unfolding framing_of
framing_of-ok status method out clean apart = elim (Parsed-cases (framing_of status method out)) [
  | inl (why, r) ↦ absurd (elim (Bool-cases out.has_transfer_encoding) [
    | inl t ↦ ground (arith, r, t, clean t, apart)
    | inr t ↦ ground (arith, r, t, apart)
  ])
  | inr r ↦ r
]

kinds_apart :
    (fields : List Field) (out : Fields)
    → IsClean out
    → AreApart fields
    → LengthIn no_fields fields out
    → CodingIn no_fields fields out
    → (out.chunked && out.has_content_length) ≡ false
kinds_apart fields out clean apart (inl l) c = ground (arith, l.2)
kinds_apart fields out clean apart (inr l) (inl c) = ground (arith, c.2)
kinds_apart fields out clean (inl no_length) (inr l) (inr c) =
    absurd (none-SomeNamed content_length_name fields no_length l.4.0)
kinds_apart fields out clean (inr no_coding) (inr l) (inr c) =
    let last = c.1 (clean c.0) in
    absurd (
      none-middle transfer_encoding_name last.0 last.1 last.2
        (subst (NoneNamed transfer_encoding_name) last.3 no_coding) last.4)

-- what may follow the status
abbrev pub IsReason : Bytes → Type 0
IsReason reason = (reason ≡ []) ⊎ ((text : Bytes) × (reason ≡ 32 ∷ text))

digits_of :
    (status : ℕ) → status < 1000 → (status / 100 ≤ 9) × (status / 10 % 10 ≤ 9) × (status % 10 ≤ 9)
digits_of status h = (omega (arith, h), omega (arith, h), omega (arith, h))

is_status_line-digits :
    (minor a b c end : ℕ) (tail : Bytes)
    → minor ≤ 1
    → a ≤ 9
    → b ≤ 9
    → c ≤ 9
    → 12 ≤ end
    → (ltb 12 end && not (byte_at tail 0 == 32)) ≡ false
    → is_status_line
        (72
          ∷ 84
          ∷ 84
          ∷ 80
          ∷ 47
          ∷ 49
          ∷ 46
          ∷ (48 + minor)
          ∷ 32
          ∷ (48 + a)
          ∷ (48 + b)
          ∷ (48 + c)
          ∷ tail)
        end
      ≡ true
unfolding is_status_line
is_status_line-digits minor a b c end tail m ha hb hc l t = ground (arith, m, ha, hb, hc, l, t)

is_status_line-line :
    (minor status : ℕ) (reason rest : Bytes)
    → minor ≤ 1
    → status < 1000
    → IsReason reason
    → is_status_line
        (status_line minor status reason ++ rest)
        (length (status_line minor status reason))
      ≡ true
is_status_line-line minor status reason rest m small follows =
    let d = digits_of status small in
    is_status_line-digits minor (status / 100) (status / 10 % 10) (status % 10)
      (length (status_line minor status reason)) (reason ++ rest) m d.0 d.1 d.2 (omega arith)
      (space follows)
  where
    space :
        IsReason reason
        → (ltb 12 (length (status_line minor status reason))
            && not (byte_at (reason ++ rest) 0 == 32))
          ≡ false
    space (inl r) = rw r refl
    space (inr (text, r)) = rw r (ground arith)

parse_headers-ok :
    (buffer : Bytes) (method : String) (out : Fields) (f : Framing)
    → is_status_line buffer (or_length (index_of line_end buffer) buffer) ≡ true
    → 100 ≤ status_code_of buffer
    → status_code_of buffer ≤ 599
    → lines_in buffer ≡ ok out
    → framing_of (status_code_of buffer) method out ≡ ok f
    → parse_headers buffer method ≡ ok f
unfolding parse_headers
parse_headers-ok buffer method out f line low high r framed =
    ground (arith, line, low, high, r, framed)

-- The header block of a response, of HTTP/1.0 or 1.1, a status from 100 to 599, nothing or a space and
-- more behind it, and headers whose names are not empty and hold no colon, with no carriage return but
-- at the ends of the lines: it is accepted if all Content-Length headers name one length, all
-- Transfer-Encoding headers end with chunked, and there are not headers of both kinds.
pub parse_headers-accepts :
    (minor status : ℕ) (reason : Bytes) (fields : List Field) (method : String) (n : ℕ)
    → minor ≤ 1
    → 100 ≤ status
    → status ≤ 599
    → IsReason reason
    → Lacks 13 reason
    → All IsPlain fields
    → AreClear n fields
    → AreApart fields
    → (f : Framing) × (parse_headers (block (status_line minor status reason) fields) method ≡ ok f)
parse_headers-accepts minor status reason fields method n m low high follows plain plain_fields
      clear apart =
    let line = status_line minor status reason in
    let buffer = block line fields in
    let lacks = status_line-Lacks minor status reason plain in
    let small : status < 1000 = omega (arith, high) in
    let code = status_code_of-line minor status reason (lines_behind fields) small in
    let (out, e, clean) = read_fields-accepts n no_fields fields tt (λ b. absurd cc) clear in
    let content = read_fields-In no_fields fields out e in
    let (f, framed) =
      framing_of-ok (status_code_of buffer) method out clean
        (kinds_apart fields out clean apart content.0 content.1) in
    (
      f,
      parse_headers-ok buffer method out f
          (ap (is_status_line buffer) (line_ends_at line fields lacks)
            ∙ is_status_line-line minor status reason (lines_behind fields) m small follows)
          (subst (λ s. 100 ≤ s) (sym code) low) (subst (λ s. s ≤ 599) (sym code) high)
          (lines_in-block line fields lacks plain_fields ∙ e) framed,
    )
