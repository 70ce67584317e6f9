-- ===== src/Control/Ndjson/Tests.antt =====
-- src/control/ndjson.ts: the theorems at concrete chunks.
use benchkit.Prelude.{
  ℕ, ◌+◌, ◌-◌, ◌≡◌, refl, Bool, true, false, Option, some, none, [], ◌∷◌, ◌++◌, map, arith,
}
use benchkit.Control.Ndjson.{
  Text, Bytes, buffer, decode_utf8, read, read_byte, byte_length, on_message, fresh, add_calls,
  push, drain, cut, strip_return, take_line,
}
use benchkit.Control.Ndjson.Segments
use benchkit.Control.Ndjson.RoundTrip.{IsJson, encode_all, push-encode_all}

-- messages of one character
abbrev print : ℕ → Text
print n = (n + 48) ∷ []

abbrev parse : Text → Option ℕ
parse (b ∷ []) = some (b - 48)
parse _ = none

abbrev is_blank : Text → Bool
is_blank [] = true
is_blank _ = false

abbrev returns : ℕ → Bool
returns n = true

json : IsJson ℕ parse is_blank print
unfolding strip_return
json = record {
  reads_back = λ n. ground arith;
  one_line = λ n. ground arith;
  no_return = λ n. ground arith;
  not_blank = λ n. refl;
}

push-encode_all_example :
    push 8 parse is_blank returns fresh (buffer (encode_all print (3 ∷ 4 ∷ [])))
    ≡ (fresh, map on_message (3 ∷ 4 ∷ []))
unfolding decode_utf8 read read_byte byte_length
push-encode_all_example =
    push-encode_all 8 parse is_blank returns print json (3 ∷ 4 ∷ [])
      (buffer (encode_all print (3 ∷ 4 ∷ []))) refl ((omega arith, refl), ((omega arith, refl), tt))

-- The second buffer starts with a character of two bytes, which a return and a newline follow.
abbrev first : Bytes
first = 51 ∷ 10 ∷ []

abbrev second : Bytes
second = 195 ∷ 169 ∷ 13 ∷ 10 ∷ 10 ∷ []

push-append_chunks_example :
    let o = push 8 parse is_blank returns fresh (buffer first) in
    push 8 parse is_blank returns fresh (buffer (first ++ second))
    ≡ add_calls o.1 (push 8 parse is_blank returns o.0 (buffer second))
unfolding push drain cut strip_return take_line decode_utf8 read read_byte byte_length
push-append_chunks_example =
    Segments.push-append_chunks 8 parse is_blank returns fresh (buffer (first ++ second))
      (buffer first) (buffer second) (refl, refl) refl

-- A character of two bytes, of four bytes, and one that is cut off
decodes :
    (decode_utf8 (195 ∷ 169 ∷ []) ≡ 233 ∷ [])
    × (decode_utf8 (240 ∷ 159 ∷ 152 ∷ 128 ∷ []) ≡ 55357 ∷ 56832 ∷ [])
    × (decode_utf8 (226 ∷ 130 ∷ 65 ∷ []) ≡ 65533 ∷ 65 ∷ [])
unfolding decode_utf8 read read_byte
decodes = (refl, refl, refl)

-- Two buffers that share a character are not decoded as the whole.
shared_character :
    let o = push 8 parse is_blank returns fresh (buffer (195 ∷ [])) in
    ((push 8 parse is_blank returns o.0 (buffer (169 ∷ []))).0.buffered ≡ 65533 ∷ 65533 ∷ [])
    × ((push 8 parse is_blank returns fresh (buffer (195 ∷ 169 ∷ []))).0.buffered ≡ 233 ∷ [])
unfolding push drain cut strip_return take_line decode_utf8 read read_byte byte_length
shared_character = (refl, refl)
