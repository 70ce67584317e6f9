-- ===== src/Http1/Framing/Fuel.antt =====
-- src/load/http1/response-parser.ts: the loop over the header lines ends, since each turn takes at
-- least one byte of the rest.
use Prim.Native.String.{String}
use benchkit.Prelude.{
  ℕ, zero, suc, ◌+◌, ◌-◌, ◌*◌, take, ◌<◌, ◌≢◌, inl, inr, Option, none, some, List, [], ◌∷◌, arith,
  length, drop, length-drop, Option-cases,
}
use benchkit.Http1.Bytes.{Bytes, hex_digit, trim, before, index_of, line_end, split_on}
use benchkit.Http1.Framing.{
  err, Parsed-cases, out_of_fuel, parse_decimal, parse_length_part, agree, parse_length_parts,
  parse_content_length, parse_hex, parse_chunk_size, Fields, read_field, read_line, read_lines,
  framing_of, parse_headers, or_length, no_fields,
}

parse_decimal-Ends : (acc : ℕ) (bs : Bytes) → parse_decimal acc bs ≢ err out_of_fuel
unfolding parse_decimal
parse_decimal-Ends acc [] e = cc
parse_decimal-Ends acc (b ∷ bs) e = ground (arith, parse_decimal-Ends (acc * 10 + (b - 48)) bs)

parse_hex-Ends : (acc : ℕ) (bs : Bytes) → parse_hex acc bs ≢ err out_of_fuel
unfolding parse_hex
parse_hex-Ends acc [] e = cc
parse_hex-Ends acc (b ∷ bs) e = elim (Option-cases (hex_digit b)) [
  | inl bad ↦ ground arith
  | inr (d, good) ↦ ground (arith, parse_hex-Ends (acc * 16 + d) bs)
]

parse_length_part-Ends : (part : Bytes) → parse_length_part part ≢ err out_of_fuel
unfolding parse_length_part
parse_length_part-Ends part e = ground (arith, parse_decimal-Ends 0 part)

parse_length_parts-Ends :
    (previous : Option ℕ) (ps : List Bytes) → parse_length_parts previous ps ≢ err out_of_fuel
unfolding parse_length_parts agree
parse_length_parts-Ends none [] e = cc
parse_length_parts-Ends (some value) [] e = cc
parse_length_parts-Ends none (p ∷ ps) e = elim (Parsed-cases (parse_length_part (trim p))) [
  | inl (why, r) ↦ ground (arith, parse_length_part-Ends (trim p))
  | inr (m, r) ↦ ground (arith, parse_length_parts-Ends (some m) ps)
]
parse_length_parts-Ends (some value) (p ∷ ps) e = elim (Parsed-cases (parse_length_part (trim p))) [
  | inl (why, r) ↦ ground (arith, parse_length_part-Ends (trim p))
  | inr (m, r) ↦ ground (arith, parse_length_parts-Ends (some m) ps)
]

-- `parseChunkSize` takes no fuel.
pub parse_chunk_size-Ends : (line : Bytes) → parse_chunk_size line ≢ err out_of_fuel
unfolding parse_chunk_size
parse_chunk_size-Ends line e = ground (arith, parse_hex-Ends 0 (trim (before 59 line)))

read_field-Ends :
    (fields : Fields) (name value : Bytes) → read_field fields name value ≢ err out_of_fuel
unfolding read_field parse_content_length
read_field-Ends fields name value e =
    ground (arith, parse_length_parts-Ends fields.content_length (split_on 44 value))

read_line-Ends :
    (fields : Fields) (rest : Bytes) (end : ℕ) (separator : Option ℕ)
    → read_line fields rest end separator ≢ err out_of_fuel
unfolding read_line
read_line-Ends fields rest end none e = cc
read_line-Ends fields rest end (some i) e =
    ground
      (arith, read_field-Ends fields (trim (take i rest)) (trim (drop (i + 1) (take end rest))))

read_lines-Ends :
    (fuel : ℕ) (fields : Fields) (rest : Bytes)
    → length rest < fuel
    → read_lines fuel fields rest ≢ err out_of_fuel
unfolding read_lines
read_lines-Ends fuel fields [] h e = cc
read_lines-Ends zero fields (b ∷ bs) h e = absurd (omega arith)
read_lines-Ends (suc fuel) fields (b ∷ bs) h e =
    let end = or_length (index_of line_end (b ∷ bs)) (b ∷ bs) in
    let colon = index_of (58 ∷ []) (b ∷ bs) in
    elim (Parsed-cases (read_line fields (b ∷ bs) end colon)) [
      | inl (why, r) ↦ ground (arith, read_line-Ends fields (b ∷ bs) end colon)
      | inr (next, r) ↦ ground (
        arith,
        read_lines-Ends fuel next (drop (end + 2) (b ∷ bs))
            (omega (arith, length-drop (end + 2) (b ∷ bs))),
      )
    ]

-- The fuel that `parse_headers` gives its loop is never used up.
pub parse_headers-Ends :
    (buffer : Bytes) (method : String) → parse_headers buffer method ≢ err out_of_fuel
unfolding parse_headers framing_of
parse_headers-Ends buffer method e =
    let from = or_length (index_of line_end buffer) buffer + 2 in
    let rest = drop from buffer in
    elim (Parsed-cases (read_lines (suc (length buffer)) no_fields rest)) [
      | inl (why, r) ↦ ground (
        arith,
        read_lines-Ends (suc (length buffer)) no_fields rest
            (omega (arith, length-drop from buffer)),
      )
      | inr (fields, r) ↦ ground arith
    ]
