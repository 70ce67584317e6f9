-- ===== src/Control/Ndjson/RoundTrip.antt =====
-- src/control/ndjson.ts: what is encoded is decoded.
use benchkit.Prelude.{
  ℕ, ◌≤◌, ◌≡◌, refl, ap, ◌∙◌, Bool, true, false, Option, some, List, [], ◌∷◌, ◌++◌, append_assoc,
  map, arith, All,
}
use benchkit.Control.Ndjson.{
  Text, on_message, fresh, add_calls, newline, cut, strip_return, has_newline, encode, goes,
  take_line, after_line, drain, push, Chunk, to_string, byte_length,
}
use benchkit.Control.Ndjson.Segments.{line_result, decode, decode-step, push-decode}

-- What the decoder relies on of JSON: a printed message is one line of text that is read back.
pub record IsJson (A : Type 0) (parse : Text → Option A) (is_blank : Text → Bool) (print : A → Text)
    : Type 0 where
  pub reads_back : (a : A) → parse (print a) ≡ some a
  pub one_line : (a : A) → has_newline (print a) ≡ false
  pub no_return : (a : A) → strip_return (print a) ≡ print a
  pub not_blank : (a : A) → is_blank (print a) ≡ false

cut-line :
    (line rest : Text) → has_newline line ≡ false → cut (line ++ newline ∷ rest) ≡ some (line, rest)
unfolding cut
cut-line [] rest h = refl
cut-line (b ∷ bs) rest h = ground (arith, h, cut-line bs rest)

abbrev pub encode_all : {A : Type 0} → (A → Text) → List A → Text
encode_all print [] = []
encode_all print (a ∷ xs) = encode print a ++ encode_all print xs

module _ {A : Type 0} (max_line_bytes : ℕ) (parse : Text → Option A) (is_blank : Text → Bool)
    (returns : A → Bool) (print : A → Text) (json : IsJson A parse is_blank print) where
  -- A message that fits a line and whose callback returns.
  abbrev pub IsFrame : A → Type 0
  IsFrame a = (byte_length (print a) ≤ max_line_bytes) × (returns a ≡ true)

  take_line-print :
      (a : A)
      → IsFrame a
      → line_result max_line_bytes parse is_blank returns (print a) ≡ goes (on_message a ∷ [])
  unfolding take_line
  take_line-print a h = ground (arith, h, json.reads_back a, json.no_return a, json.not_blank a)

  decode-encode_all :
      (xs : List A)
      → All IsFrame xs
      → decode max_line_bytes parse is_blank returns (encode_all print xs)
        ≡ (fresh, map on_message xs)
  unfolding drain byte_length
  decode-encode_all [] h = ground arith
  decode-encode_all (a ∷ xs) h =
      let rest = encode_all print xs in
      ap (decode max_line_bytes parse is_blank returns) (append_assoc (print a) (newline ∷ []) rest)
      ∙ (decode-step max_line_bytes parse is_blank returns (print a ++ newline ∷ rest) (print a)
            rest (cut-line (print a) rest (json.one_line a))
          ∙ (ap (λ r. after_line r (decode max_line_bytes parse is_blank returns rest))
                (take_line-print a h.0)
              ∙ ap (add_calls (on_message a ∷ [])) (decode-encode_all xs h.1)))

  -- A new decoder that is given, as a string or a buffer, the encoding of messages, each of which fits a
  -- line and has a callback that returns, delivers exactly the messages in order, and is as new.
  pub push-encode_all :
      (xs : List A) (chunk : Chunk)
      → to_string chunk ≡ encode_all print xs
      → All IsFrame xs
      → push max_line_bytes parse is_blank returns fresh chunk ≡ (fresh, map on_message xs)
  push-encode_all xs chunk e h =
      push-decode max_line_bytes parse is_blank returns fresh chunk refl
      ∙ (ap (decode max_line_bytes parse is_blank returns) e ∙ decode-encode_all xs h)
