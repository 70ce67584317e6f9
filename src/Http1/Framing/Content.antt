-- ===== src/Http1/Framing/Content.antt =====
-- src/load/http1/response-parser.ts: what the headers of a response say of its body.
use benchkit.Prelude.{
  ℕ, ◌≡◌, ◌≢◌, refl, true, false, List, [], ◌∷◌, ◌++◌, All, arith, map, ◌⊎◌, ap, suc, length,
}
use benchkit.Http1.Bytes.{Bytes, trim, lower, equals_lower, ascii_equals_ignore_case, split_on}
use benchkit.Http1.Framing.{last_part, content_length_name, transfer_encoding_name, chunked_token}
use benchkit.Http1.Framing.Blocks.{Field}
use benchkit.Http1.Framing.ContentLength.{Names}

-- The header's name, without the whitespace around it and in lower case
abbrev pub IsNamed : Bytes → Field → Type 0
IsNamed name f = map lower (trim f.0) ≡ name

abbrev pub NoneNamed : Bytes → List Field → Type 0
NoneNamed name fields = All (λ f. ¬ IsNamed name f) fields

abbrev pub SomeNamed : Bytes → List Field → Type 0
SomeNamed name [] = ⊥
SomeNamed name (f ∷ fields) = IsNamed name f ⊎ SomeNamed name fields

-- Every part of the value is the decimal of the length.
abbrev pub HasLength : ℕ → Field → Type 0
HasLength n f = All (λ p. Names n (trim p)) (split_on 44 (trim f.1))

-- Headers name a length, and they agree on it.
abbrev pub Length : ℕ → List Field → Type 0
Length n fields =
    SomeNamed content_length_name fields
    × All (λ f. IsNamed content_length_name f → HasLength n f) fields

-- The last part of the value is `chunked`.
abbrev pub IsChunked : Field → Type 0
IsChunked f = map lower (trim (last_part (split_on 44 (trim f.1)))) ≡ chunked_token

-- The last `Transfer-Encoding` is chunked.
abbrev pub LastChunked : List Field → Type 0
LastChunked fields =
    (earlier : List Field) × (f : Field) × (later : List Field) × (fields ≡ earlier ++ f ∷ later)
    × IsNamed transfer_encoding_name f
    × IsChunked f
    × NoneNamed transfer_encoding_name later

equals_lower-lower : (bs es : Bytes) → equals_lower bs es ≡ true → map lower bs ≡ es
unfolding equals_lower
equals_lower-lower [] [] e = refl
equals_lower-lower [] (x ∷ es) e = absurd cc
equals_lower-lower (b ∷ bs) [] e = absurd cc
equals_lower-lower (b ∷ bs) (x ∷ es) e = ground (arith, e, equals_lower-lower bs es)

equals_lower_same : (bs : Bytes) → equals_lower bs (map lower bs) ≡ true
unfolding equals_lower
equals_lower_same [] = refl
equals_lower_same (b ∷ bs) = ground (arith, equals_lower_same bs)

length-map-lower : (bs : Bytes) → length (map lower bs) ≡ length bs
length-map-lower [] = refl
length-map-lower (b ∷ bs) = ap suc (length-map-lower bs)

pub same_lower : (bs : Bytes) → ascii_equals_ignore_case bs (map lower bs) ≡ true
unfolding ascii_equals_ignore_case
same_lower bs = ground (arith, length-map-lower bs, equals_lower_same bs)

pub equals-IsNamed : (bs es : Bytes) → ascii_equals_ignore_case bs es ≡ true → map lower bs ≡ es
unfolding ascii_equals_ignore_case
equals-IsNamed bs es e = ground (arith, e, equals_lower-lower bs es)

pub differs-IsNamed : (bs es : Bytes) → ascii_equals_ignore_case bs es ≡ false → map lower bs ≢ es
differs-IsNamed bs es e same =
    absurd (ground (arith, e, same_lower bs, ap (ascii_equals_ignore_case bs) same))
