-- ===== src/Http1/Framing/Lengths.antt =====
-- src/load/http1/response-parser.ts: the digit loops of `parseContentLength` and `parseChunkSize`
-- against the positional value of the digits.
use native.Mathlib.Nat.{pow-suc, pow-zero}
use benchkit.Prelude.{
  ℕ, ◌+◌, ◌-◌, ◌*◌, ◌^◌, ◌≤◌, ◌<◌, ◌==◌, if◌then◌else◌, ◌≡◌, ◌≢◌, refl, inl, inr, Option, none,
  some, List, [], ◌∷◌, arith, length, Option-cases, ◌∙◌, ap, sym, ◌↔◌, max_safe_integer,
}
use benchkit.Http1.Bytes.{Bytes, is_digit, hex_digit, trim, before}
use benchkit.Http1.Framing.{ok, err, invalid_chunk_size, parse_decimal, parse_hex, parse_chunk_size}

abbrev pub place_value : ℕ → List ℕ → ℕ
place_value base [] = 0
place_value base (d ∷ ds) = d * base ^ length ds + place_value base ds

-- Horner's scheme, as both loops run it.
abbrev horner : ℕ → ℕ → List ℕ → ℕ
horner base acc [] = acc
horner base acc (d ∷ ds) = horner base (acc * base + d) ds

regroup : (acc base d p v : ℕ) → (acc * base + d) * p + v ≡ acc * (p * base) + (d * p + v)
regroup acc base d p v = grind arith

horner-place_value :
    (base acc : ℕ) (ds : List ℕ) → horner base acc ds ≡ acc * base ^ length ds + place_value base ds
horner-place_value base acc [] = simp pow-zero (omega arith)
horner-place_value base acc (d ∷ ds) =
    horner-place_value base (acc * base + d) ds
    ∙ rw pow-suc (regroup acc base d (base ^ length ds) (place_value base ds))

horner-le : (base acc : ℕ) (ds : List ℕ) → 1 ≤ base → acc ≤ horner base acc ds
horner-le base acc [] h = omega arith
horner-le base acc (d ∷ ds) h = grind (arith, horner-le base (acc * base + d) ds h)

abbrev pub decimal_digit : ℕ → Option ℕ
decimal_digit b = if is_digit b then some (b - 48) else none

-- `bs` spells the digits `ds`.
abbrev pub Spells : (ℕ → Option ℕ) → Bytes → List ℕ → Type 0
Spells digit [] [] = Unit
Spells digit (b ∷ bs) (d ∷ ds) = (digit b ≡ some d) × Spells digit bs ds
Spells digit _ _ = ⊥

parse_decimal-ok :
    (acc : ℕ) (bs : Bytes) (n : ℕ)
    → acc ≤ max_safe_integer
    → parse_decimal acc bs ≡ ok n
    → (ds : List ℕ) × Spells decimal_digit bs ds × (n ≡ horner 10 acc ds) × (n ≤ max_safe_integer)
unfolding parse_decimal
parse_decimal-ok acc [] n h e = ([], tt, ground arith, ground arith)
parse_decimal-ok acc (b ∷ bs) n h e =
    let r = parse_decimal-ok (acc * 10 + (b - 48)) bs n (ground arith) (ground arith) in
    ((b - 48) ∷ r.0, (ground arith, r.1), r.2, r.3)

decimal_of_digits :
    (acc : ℕ) (bs : Bytes) (ds : List ℕ)
    → Spells decimal_digit bs ds
    → horner 10 acc ds ≤ max_safe_integer
    → parse_decimal acc bs ≡ ok (horner 10 acc ds)
unfolding parse_decimal
decimal_of_digits acc [] [] s h = refl
decimal_of_digits acc [] (d ∷ ds) s h = absurd s
decimal_of_digits acc (b ∷ bs) [] s h = absurd s
decimal_of_digits acc (b ∷ bs) (d ∷ ds) s h =
    ground (arith, horner-le 10 (acc * 10 + d) ds, decimal_of_digits (acc * 10 + d) bs ds s.1 h)

hex_digit-lt : (b d : ℕ) → hex_digit b ≡ some d → d < 16
unfolding hex_digit
hex_digit-lt b d e = ground arith

parse_hex-ok :
    (acc : ℕ) (bs : Bytes) (n : ℕ)
    → acc ≤ max_safe_integer
    → parse_hex acc bs ≡ ok n
    → (ds : List ℕ) × Spells hex_digit bs ds × (n ≡ horner 16 acc ds) × (n ≤ max_safe_integer)
unfolding parse_hex
parse_hex-ok acc [] n h e = ([], tt, ground arith, ground arith)
parse_hex-ok acc (b ∷ bs) n h e = elim (Option-cases (hex_digit b)) [
  | inl bad ↦ absurd (ground arith)
  | inr (d, good) ↦
      let r =
        parse_hex-ok (acc * 16 + d) bs n (ground (arith, hex_digit-lt b d good))
          (ground (arith, hex_digit-lt b d good)) in
      (d ∷ r.0, (good, r.1), r.2, r.3)
]

hex_of_digits :
    (acc : ℕ) (bs : Bytes) (ds : List ℕ)
    → Spells hex_digit bs ds
    → horner 16 acc ds ≤ max_safe_integer
    → parse_hex acc bs ≡ ok (horner 16 acc ds)
unfolding parse_hex
hex_of_digits acc [] [] s h = refl
hex_of_digits acc [] (d ∷ ds) s h = absurd s
hex_of_digits acc (b ∷ bs) [] s h = absurd s
hex_of_digits acc (b ∷ bs) (d ∷ ds) s h =
    ground (arith, horner-le 16 (acc * 16 + d) ds, hex_of_digits (acc * 16 + d) bs ds s.1 h)

horner_zero : (base : ℕ) (ds : List ℕ) → horner base 0 ds ≡ place_value base ds
horner_zero base ds = horner-place_value base 0 ds ∙ omega arith

-- The digit loop of `parseContentLength` returns `n` exactly when the bytes spell decimal digits
-- whose value is `n`, and `n` is a safe integer.
pub parse_decimal_iff :
    (bs : Bytes) (n : ℕ)
    → (parse_decimal 0 bs ≡ ok n) ↔ (
        (ds : List ℕ) × Spells decimal_digit bs ds
        × (n ≡ place_value 10 ds)
        × (n ≤ max_safe_integer))
parse_decimal_iff bs n = (
  λ e. let r = parse_decimal-ok 0 bs n (omega arith) e in (r.0, r.1, r.2 ∙ horner_zero 10 r.0, r.3),
  λ r.
      decimal_of_digits 0 bs r.0 r.1 (omega (arith, r, horner_zero 10 r.0))
      ∙ ap ok (horner_zero 10 r.0 ∙ sym r.2),
)

-- The digit loop of `parseChunkSize` likewise, for hexadecimal digits of either case.
pub parse_hex_iff :
    (bs : Bytes) (n : ℕ)
    → (parse_hex 0 bs ≡ ok n)
      ↔ ((ds : List ℕ) × Spells hex_digit bs ds × (n ≡ place_value 16 ds) × (n ≤ max_safe_integer))
parse_hex_iff bs n = (
  λ e. let r = parse_hex-ok 0 bs n (omega arith) e in (r.0, r.1, r.2 ∙ horner_zero 16 r.0, r.3),
  λ r.
      hex_of_digits 0 bs r.0 r.1 (omega (arith, r, horner_zero 16 r.0))
      ∙ ap ok (horner_zero 16 r.0 ∙ sym r.2),
)

-- `parseChunkSize` returns `n` exactly when what stands before a `;`, trimmed, is not empty and
-- spells hexadecimal digits whose value is `n`, and `n` is a safe integer.
pub parse_chunk_size_iff :
    (line : Bytes) (n : ℕ)
    → (parse_chunk_size line ≡ ok n) ↔ (
        (trim (before 59 line) ≢ [])
        × ((ds : List ℕ) × Spells hex_digit (trim (before 59 line)) ds
            × (n ≡ place_value 16 ds)
            × (n ≤ max_safe_integer)))
unfolding parse_chunk_size
parse_chunk_size_iff line n = within (trim (before 59 line))
  where
    within :
        (part : Bytes)
        → ((if length part == 0 then err invalid_chunk_size else parse_hex 0 part) ≡ ok n) ↔ (
            (part ≢ [])
            × ((ds : List ℕ) × Spells hex_digit part ds
                × (n ≡ place_value 16 ds)
                × (n ≤ max_safe_integer)))
    within [] = ((λ e. absurd (ground arith)), (λ r. absurd (r.0 refl)))
    within (b ∷ bs) = (
      (λ e. ((λ p. cc), (parse_hex_iff (b ∷ bs) n).0 (ground arith))),
      (λ r. ground (arith, (parse_hex_iff (b ∷ bs) n).1 r.1)),
    )
