-- ===== src/Http1/Framing/ContentLength.antt =====
-- src/load/http1/response-parser.ts: `parseContentLength` accepts a header value exactly when all of
-- its parts name one length, the length of the earlier headers.
use benchkit.Prelude.{
  ℕ, ◌≤◌, ◌<◌, ◌≡◌, ◌≢◌, ◌↔◌, refl, inl, inr, Option, none, some, List, [], ◌∷◌, All, arith, length,
  max_safe_integer,
}
use benchkit.Http1.Bytes.{Bytes, byte_at, trim, split_on}
use benchkit.Http1.Framing.{
  ok, Parsed-cases, parse_length_part, agree, parse_length_parts, parse_content_length,
}
use benchkit.Http1.Framing.Lengths.{Spells, decimal_digit, place_value, parse_decimal_iff}

-- `part` spells the safe integer `n` in decimal, with no leading zero.
pub record Names (n : ℕ) (part : Bytes) : Type 0 where
  pub digits : List ℕ
  pub some_digit : 0 < length part
  pub no_leading_zero : 1 < length part → byte_at part 0 ≢ 48
  pub spelt : Spells decimal_digit part digits
  pub value_is : n ≡ place_value 10 digits
  pub safe : n ≤ max_safe_integer

parse_length_part-Names : (part : Bytes) (n : ℕ) → parse_length_part part ≡ ok n → Names n part
unfolding parse_length_part
parse_length_part-Names part n e =
    let r = (parse_decimal_iff part n).0 (ground arith) in
    record {
      digits = r.0;
      some_digit = ground arith;
      no_leading_zero = λ h z. ground arith;
      spelt = r.1;
      value_is = r.2;
      safe = r.3;
    }

Names-parse_length_part : (part : Bytes) (n : ℕ) → Names n part → parse_length_part part ≡ ok n
unfolding parse_length_part
Names-parse_length_part part n v =
    ground (arith, (parse_decimal_iff part n).1 (v.digits, v.spelt, v.value_is, v.safe))

abbrev pub Fits : ℕ → Option ℕ → Type 0
Fits n none = Unit
Fits n (some value) = value ≡ n

parse_length_parts_sound :
    (previous : Option ℕ) (ps : List Bytes) (n : ℕ)
    → parse_length_parts previous ps ≡ ok n
    → Fits n previous × All (λ p. Names n (trim p)) ps
unfolding parse_length_parts agree
parse_length_parts_sound none [] n e = ground arith
parse_length_parts_sound (some value) [] n e = (ground arith, tt)
parse_length_parts_sound none (p ∷ ps) n e = elim (Parsed-cases (parse_length_part (trim p))) [
  | inl (why, r) ↦ absurd (ground arith)
  | inr (m, r) ↦
      let later = parse_length_parts_sound (some m) ps n (ground arith) in
      (tt, (parse_length_part-Names (trim p) n (ground arith), later.1))
]
parse_length_parts_sound (some value) (p ∷ ps) n e =
    elim (Parsed-cases (parse_length_part (trim p))) [
      | inl (why, r) ↦ absurd (ground arith)
      | inr (m, r) ↦
          let later = parse_length_parts_sound (some m) ps n (ground arith) in
          (ground arith, (parse_length_part-Names (trim p) n (ground arith), later.1))
    ]

parse_length_parts_complete :
    (value : ℕ) (ps : List Bytes)
    → All (λ p. Names value (trim p)) ps
    → parse_length_parts (some value) ps ≡ ok value
unfolding parse_length_parts agree
parse_length_parts_complete value [] h = refl
parse_length_parts_complete value (p ∷ ps) h =
    ground
      (arith, Names-parse_length_part (trim p) value h.0, parse_length_parts_complete value ps h.1)

parse_length_parts_complete_none :
    (n : ℕ) (p : Bytes) (ps : List Bytes)
    → All (λ p. Names n (trim p)) (p ∷ ps)
    → parse_length_parts none (p ∷ ps) ≡ ok n
unfolding parse_length_parts agree
parse_length_parts_complete_none n p ps h =
    ground (arith, Names-parse_length_part (trim p) n h.0, parse_length_parts_complete n ps h.1)

split_on-ne-nil : (sep : ℕ) (bs : Bytes) → split_on sep bs ≢ []
unfolding split_on
split_on-ne-nil sep [] e = cc
split_on-ne-nil sep (b ∷ bs) e = ground arith

-- `parseContentLength` returns `n` exactly when every comma-separated part of the value, trimmed,
-- is the decimal of the safe integer `n` with no leading zero, and no earlier header named another.
pub parse_content_length_iff :
    (range : Bytes) (previous : Option ℕ) (n : ℕ)
    → (parse_content_length range previous ≡ ok n)
      ↔ (Fits n previous × All (λ p. Names n (trim p)) (split_on 44 range))
unfolding parse_content_length
parse_content_length_iff range previous n =
    within (split_on 44 range) previous (split_on-ne-nil 44 range)
  where
    within :
        (ps : List Bytes) (previous : Option ℕ)
        → ps ≢ []
        → (parse_length_parts previous ps ≡ ok n)
          ↔ (Fits n previous × All (λ p. Names n (trim p)) ps)
    within [] previous ne = absurd (ne refl)
    within (p ∷ ps) none ne =
        (parse_length_parts_sound none (p ∷ ps) n, λ r. parse_length_parts_complete_none n p ps r.1)
    within (p ∷ ps) (some value) ne = (
      parse_length_parts_sound (some value) (p ∷ ps) n,
      λ r. rw r.0 (parse_length_parts_complete n (p ∷ ps) r.1),
    )
