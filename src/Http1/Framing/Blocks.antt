-- ===== src/Http1/Framing/Blocks.antt =====
-- src/load/http1/response-parser.ts: a header block as its lines, and how `parseHeaders` takes it apart.
use benchkit.Prelude.{
  ℕ, zero, suc, ◌+◌, ◌-◌, ◌<◌, ◌≤◌, ◌≡◌, ◌≢◌, refl, ap, ◌∙◌, some, none, List, [], ◌∷◌, ◌++◌, All,
  arith, length, take, drop, length-append, append-nil, drop-append_ge, append_assoc,
}
use benchkit.Http1.Bytes.{Bytes, is_prefix, index_of, line_end, trim}
use benchkit.Http1.Framing.{
  Parsed, ok, err, ◌>>=◌, Fields, or_length, read_field, read_line, read_lines,
}

-- a header's name and value
abbrev pub Field : Type 0
Field = Bytes × Bytes

abbrev pub line_of : Field → Bytes
line_of f = f.0 ++ 58 ∷ f.1

-- The lines behind a first one, each with the end of the line before it; the last has no end.
abbrev pub lines_behind : List Field → Bytes
lines_behind [] = []
lines_behind (f ∷ fields) = 13 ∷ 10 ∷ (line_of f ++ lines_behind fields)

abbrev pub lines_of : List Field → Bytes
lines_of [] = []
lines_of (f ∷ fields) = line_of f ++ lines_behind fields

abbrev pub block : Bytes → List Field → Bytes
block status_line fields = status_line ++ lines_behind fields

-- The byte is not among the bytes.
abbrev pub Lacks : ℕ → Bytes → Type 0
Lacks b bs = All (λ c. c ≢ b) bs

-- A name of some bytes with no colon in it, and no carriage return in name and value.
abbrev pub IsPlain : Field → Type 0
IsPlain f = (0 < length f.0) × Lacks 58 f.0 × Lacks 13 (line_of f)

index_of-colon :
    (name rest : Bytes)
    → Lacks 58 name
    → index_of (58 ∷ []) (name ++ 58 ∷ rest) ≡ some (length name)
unfolding index_of is_prefix
index_of-colon [] rest h = refl
index_of-colon (b ∷ bs) rest h = ground (arith, h.0, index_of-colon bs rest h.1)

index_of-plain : (line : Bytes) → Lacks 13 line → index_of line_end line ≡ none
unfolding index_of is_prefix
index_of-plain [] h = refl
index_of-plain (b ∷ bs) h = ground (arith, h.0, index_of-plain bs h.1)

index_of-line_end :
    (line rest : Bytes)
    → Lacks 13 line
    → index_of line_end (line ++ 13 ∷ 10 ∷ rest) ≡ some (length line)
unfolding index_of is_prefix
index_of-line_end [] rest h = refl
index_of-line_end (b ∷ bs) rest h = ground (arith, h.0, index_of-line_end bs rest h.1)

pub line_ends_at :
    (line : Bytes) (fields : List Field)
    → Lacks 13 line
    → or_length (index_of line_end (line ++ lines_behind fields)) (line ++ lines_behind fields)
      ≡ length line
line_ends_at line [] h = rw (append-nil line, index_of-plain line h) refl
line_ends_at line (f ∷ fields) h =
    rw (index_of-line_end line (line_of f ++ lines_behind fields) h) refl

drop_line : (line rest : Bytes) → drop (length line + 2) (line ++ 13 ∷ 10 ∷ rest) ≡ rest
drop_line line rest =
    let two : length line + 2 - length line ≡ 2 = omega arith in
    drop-append_ge (length line + 2) line (13 ∷ 10 ∷ rest) (omega arith)
    ∙ ap (λ k. drop k (13 ∷ 10 ∷ rest)) two

drop_over : (n : ℕ) (bs : Bytes) → length bs ≤ n → drop n bs ≡ []
drop_over n [] h = drop_nil n
  where
    drop_nil : (n : ℕ) → drop {A = ℕ} n [] ≡ []
    drop_nil zero = refl
    drop_nil (suc n) = refl
drop_over zero (b ∷ bs) h = absurd (omega (arith, h))
drop_over (suc n) (b ∷ bs) h = drop_over n bs (omega (arith, h))

drop_all : (line : Bytes) → drop (length line + 2) (line ++ []) ≡ []
drop_all line =
    ap (drop (length line + 2)) (append-nil line) ∙ drop_over (length line + 2) line (omega arith)

pub drop-line :
    (line : Bytes) (fields : List Field)
    → drop (length line + 2) (line ++ lines_behind fields) ≡ lines_of fields
drop-line line [] = drop_all line
drop-line line (f ∷ fields) = drop_line line (line_of f ++ lines_behind fields)

take-append : (xs ys : Bytes) → take (length xs) (xs ++ ys) ≡ xs
take-append [] ys = refl
take-append (x ∷ xs) ys = ap (◌∷◌ x) (take-append xs ys)

drop-colon : (name value : Bytes) → drop (length name + 1) (name ++ 58 ∷ value) ≡ value
drop-colon name value =
    let one : length name + 1 - length name ≡ 1 = omega arith in
    drop-append_ge (length name + 1) name (58 ∷ value) (omega arith)
    ∙ ap (λ k. drop k (58 ∷ value)) one

-- `read_field` of the headers in turn
abbrev pub read_fields : Fields → List Field → Parsed Fields
read_fields seen [] = ok seen
read_fields seen (f ∷ fields) =
    read_field seen (trim f.0) (trim f.1) >>= λ next. read_fields next fields

read_line-line :
    (seen : Fields) (f : Field) (rest : Bytes)
    → IsPlain f
    → read_line seen (line_of f ++ rest) (length (line_of f)) (some (length f.0))
      ≡ read_field seen (trim f.0) (trim f.1)
unfolding read_line
read_line-line seen f rest h =
    let line = line_of f in
    let whole : take (length line) (line ++ rest) ≡ line = take-append line rest in
    let name : take (length f.0) (line ++ rest) ≡ f.0 =
      ap (take (length f.0)) (append_assoc f.0 (58 ∷ f.1) rest)
      ∙ take-append f.0 (58 ∷ (f.1 ++ rest)) in
    ground (arith, h.0, whole, name, drop-colon f.0 f.1, length-append f.0 (58 ∷ f.1))

colon_at :
    (f : Field) (rest : Bytes)
    → IsPlain f
    → index_of (58 ∷ []) (line_of f ++ rest) ≡ some (length f.0)
colon_at f rest h =
    ap (index_of (58 ∷ [])) (append_assoc f.0 (58 ∷ f.1) rest)
    ∙ index_of-colon f.0 (f.1 ++ rest) h.1

read_lines-cons :
    (fuel : ℕ) (seen : Fields) (bs : Bytes)
    → 0 < length bs
    → read_lines (suc fuel) seen bs ≡ (
        read_line seen bs (or_length (index_of line_end bs) bs) (index_of (58 ∷ []) bs) >>= λ next.
        read_lines fuel next (drop (or_length (index_of line_end bs) bs + 2) bs))
unfolding read_lines
read_lines-cons fuel seen [] h = absurd (omega (arith, h))
read_lines-cons fuel seen (b ∷ bs) h = refl

bind-each :
    {A B : Type 0} (r : Parsed A) (f g : A → Parsed B) → ((a : A) → f a ≡ g a) → r >>= f ≡ r >>= g
bind-each (ok a) f g h = h a
bind-each (err e) f g h = refl

pub read_lines-block :
    (fuel : ℕ) (seen : Fields) (fields : List Field)
    → length fields < fuel
    → All IsPlain fields
    → read_lines fuel seen (lines_of fields) ≡ read_fields seen fields
unfolding read_lines
read_lines-block fuel seen [] l h = refl
read_lines-block zero seen (f ∷ fields) l h = absurd (omega (arith, l))
read_lines-block (suc fuel) seen (f ∷ fields) l h =
    let rest = lines_behind fields in
    let line = line_of f in
    let bs = line ++ rest in
    let some_byte : 0 < length bs =
      omega (arith, h.0.0, length-append line rest, length-append f.0 (58 ∷ f.1)) in
    read_lines-cons fuel seen bs some_byte
    ∙ (ap
          (λ end. read_line seen bs end (index_of (58 ∷ []) bs) >>= λ next.
            read_lines fuel next (drop (end + 2) bs))
          (line_ends_at line fields h.0.2)
        ∙ (ap
              (λ colon. read_line seen bs (length line) colon >>= λ next.
                read_lines fuel next (drop (length line + 2) bs))
              (colon_at f rest h.0)
            ∙ (ap (λ r. r >>= λ next. read_lines fuel next (drop (length line + 2) bs))
                  (read_line-line seen f rest h.0)
                ∙ (ap
                      (λ bs'.
                        read_field seen (trim f.0) (trim f.1) >>= λ next. read_lines fuel next bs')
                      (drop-line line fields)
                    ∙ bind-each (read_field seen (trim f.0) (trim f.1))
                        (λ next. read_lines fuel next (lines_of fields))
                        (λ next. read_fields next fields)
                        (λ next. read_lines-block fuel next fields (omega (arith, l)) h.1)))))
