-- ===== src/Http1/Framing/Reading.antt =====
-- src/load/http1/response-parser.ts: what `parseHeaders` keeps of the headers.
use benchkit.Prelude.{
  ℕ, ◌≡◌, refl, ◌∙◌, Bool, true, some, List, [], ◌∷◌, All, arith, inl, inr, ◌⊎◌, Bool-cases, ap,
  sym, subst,
}
use benchkit.Http1.Bytes.{byte_at, trim, ascii_equals_ignore_case, split_on}
use benchkit.Http1.Framing.{
  ok, Fields, Parsed-cases, last_part, last_token_equals, content_length_name,
  transfer_encoding_name, chunked_token, parse_content_length, read_field,
}
use benchkit.Http1.Framing.Blocks.{Field, read_fields}
use benchkit.Http1.Framing.ContentLength.{Fits, parse_content_length_iff}
use benchkit.Http1.Framing.Content.{
  IsNamed, NoneNamed, HasLength, Length, IsChunked, LastChunked, equals-IsNamed, differs-IsNamed,
}

-- what the headers do to the lengths read before
abbrev pub LengthIn : Fields → List Field → Fields → Type 0
LengthIn seen fields out =
    (NoneNamed content_length_name fields
      × (out.content_length ≡ seen.content_length)
      × (out.has_content_length ≡ seen.has_content_length))
    ⊎ ((n : ℕ) × (out.content_length ≡ some n)
        × (out.has_content_length ≡ true)
        × Fits n seen.content_length
        × Length n fields)

abbrev pub CodingIn : Fields → List Field → Fields → Type 0
CodingIn seen fields out =
    (NoneNamed transfer_encoding_name fields
      × (out.has_transfer_encoding ≡ seen.has_transfer_encoding)
      × (out.chunked ≡ seen.chunked))
    ⊎ ((out.has_transfer_encoding ≡ true) × (out.chunked ≡ true → LastChunked fields))

-- What one header does: it names a length, or a coding, or nothing.
data Effect (seen : Fields) (f : Field) (next : Fields) : Type 0 where
  names_length :
      (n : ℕ)
      → IsNamed content_length_name f
      → HasLength n f
      → Fits n seen.content_length
      → next ≡ record seen { content_length = some n; has_content_length = true }
      → Effect seen f next
  names_coding :
      (is_chunked : Bool)
      → IsNamed transfer_encoding_name f
      → (is_chunked ≡ true → IsChunked f)
      → next ≡ record seen { has_transfer_encoding = true; chunked = is_chunked }
      → Effect seen f next
  names_nothing :
      ¬ IsNamed content_length_name f
      → ¬ IsNamed transfer_encoding_name f
      → next ≡ seen
      → Effect seen f next

read_field-Effect :
    (seen : Fields) (f : Field) (next : Fields)
    → read_field seen (trim f.0) (trim f.1) ≡ ok next
    → Effect seen f next
unfolding read_field last_token_equals
read_field-Effect seen f next e =
    let name = trim f.0 in
    let value = trim f.1 in
    elim (Bool-cases (ascii_equals_ignore_case name content_length_name)) [
      | inl is_length ↦ elim (Parsed-cases (parse_content_length value seen.content_length)) [
        | inl (why, r) ↦ absurd (ground (arith, e, is_length, r))
        | inr (n, r) ↦
            let named = (parse_content_length_iff value seen.content_length n).0 r in
            names_length n (equals-IsNamed name content_length_name is_length) named.1 named.0
              (ground (arith, e, is_length, r))
      ]
      | inr no_length ↦ elim (Bool-cases (ascii_equals_ignore_case name transfer_encoding_name)) [
        | inl is_coding ↦
            names_coding (last_token_equals value chunked_token)
              (equals-IsNamed name transfer_encoding_name is_coding)
              (equals-IsNamed (trim (last_part (split_on 44 value))) chunked_token)
              (ground (arith, e, no_length, is_coding))
        | inr no_coding ↦
            names_nothing (differs-IsNamed name content_length_name no_length)
              (differs-IsNamed name transfer_encoding_name no_coding)
              (ground (arith, e, no_length, no_coding))
      ]
    ]

pub names_differ : (f : Field) → IsNamed content_length_name f → ¬ IsNamed transfer_encoding_name f
names_differ f a b =
    let apart : 99 ≡ 116 = ap (λ bs. byte_at bs 0) (sym a ∙ b) in absurd (omega (arith, apart))

none-All :
    (n : ℕ) (fields : List Field)
    → NoneNamed content_length_name fields
    → All (λ f. IsNamed content_length_name f → HasLength n f) fields
none-All n [] h = tt
none-All n (f ∷ fields) h = (λ named. absurd (h.0 named), none-All n fields h.1)

length-In :
    (seen : Fields) (f : Field) (next : Fields) (fields : List Field) (out : Fields)
    → Effect seen f next
    → LengthIn next fields out
    → LengthIn seen (f ∷ fields) out
length-In seen f next fields out (names_length n named has fits e) (inl (none_left, c, h)) = inr (
  n,
  c ∙ ap (λ (s : Fields). s.content_length) e,
  h ∙ ap (λ (s : Fields). s.has_content_length) e,
  fits,
  (inl named, (λ _. has, none-All n fields none_left)),
)
length-In seen f next fields out (names_length n named has fits e) (inr (m, c, h, fits', l)) =
    let same : n ≡ m = subst (Fits m) (ap (λ (s : Fields). s.content_length) e) fits' in
    inr (
      m,
      c,
      h,
      subst (λ k. Fits k seen.content_length) same fits,
      (inl named, (λ _. subst (λ k. HasLength k f) same has, l.1)),
    )
length-In seen f next fields out (names_coding is_chunked named coded e) (inl (none_left, c, h)) =
    inl (
      (λ other. names_differ f other named, none_left),
      c ∙ ap (λ (s : Fields). s.content_length) e,
      h ∙ ap (λ (s : Fields). s.has_content_length) e,
    )
length-In seen f next fields out (names_coding is_chunked named coded e) (inr (m, c, h, fits', l)) =
    inr (
      m,
      c,
      h,
      subst (Fits m) (ap (λ (s : Fields). s.content_length) e) fits',
      (inr l.0, (λ other. absurd (names_differ f other named), l.1)),
    )
length-In seen f next fields out (names_nothing no_length no_coding e) (inl (none_left, c, h)) =
    inl (
      (no_length, none_left),
      c ∙ ap (λ (s : Fields). s.content_length) e,
      h ∙ ap (λ (s : Fields). s.has_content_length) e,
    )
length-In seen f next fields out (names_nothing no_length no_coding e) (inr (m, c, h, fits', l)) =
    inr (
      m,
      c,
      h,
      subst (Fits m) (ap (λ (s : Fields). s.content_length) e) fits',
      (inr l.0, (λ other. absurd (no_length other), l.1)),
    )

behind-LastChunked :
    (f : Field) (fields : List Field) → LastChunked fields → LastChunked (f ∷ fields)
behind-LastChunked f fields h = (f ∷ h.0, h.1, h.2, ap (◌∷◌ f) h.3, h.4, h.5, h.6)

coding-In :
    (seen : Fields) (f : Field) (next : Fields) (fields : List Field) (out : Fields)
    → Effect seen f next
    → CodingIn next fields out
    → CodingIn seen (f ∷ fields) out
coding-In seen f next fields out effect (inr (t, k)) =
    inr (t, λ c. behind-LastChunked f fields (k c))
coding-In seen f next fields out (names_length n named has fits e) (inl (none_left, t, c)) = inl (
  (names_differ f named, none_left),
  t ∙ ap (λ (s : Fields). s.has_transfer_encoding) e,
  c ∙ ap (λ (s : Fields). s.chunked) e,
)
coding-In seen f next fields out (names_coding is_chunked named coded e) (inl (none_left, t, c)) =
    inr (
      t ∙ ap (λ (s : Fields). s.has_transfer_encoding) e,
      λ p. (
        [],
        f,
        fields,
        refl,
        named,
        coded (sym (ap (λ (s : Fields). s.chunked) e) ∙ (sym c ∙ p)),
        none_left,
      ),
    )
coding-In seen f next fields out (names_nothing no_length no_coding e) (inl (none_left, t, c)) =
    inl (
      (no_coding, none_left),
      t ∙ ap (λ (s : Fields). s.has_transfer_encoding) e,
      c ∙ ap (λ (s : Fields). s.chunked) e,
    )

pub read_fields-In :
    (seen : Fields) (fields : List Field) (out : Fields)
    → read_fields seen fields ≡ ok out
    → LengthIn seen fields out × CodingIn seen fields out
read_fields-In seen [] out e = (inl (tt, cc, cc), inl (tt, cc, cc))
read_fields-In seen (f ∷ fields) out e =
    elim (Parsed-cases (read_field seen (trim f.0) (trim f.1))) [
      | inl (why, r) ↦ absurd (ground (arith, e, r))
      | inr (next, r) ↦
          let effect = read_field-Effect seen f next r in
          let later = read_fields-In next fields out (ground (arith, e, r)) in
          (
            length-In seen f next fields out effect later.0,
            coding-In seen f next fields out effect later.1,
          )
    ]
