-- ===== src/Control/Ndjson/Strings.antt =====
-- src/control/ndjson.ts: what `chunk.toString()` and `Buffer.byteLength` do. A string is the list of its
-- UTF-16 code units. A byte sequence that is no UTF-8 becomes U+FFFD, one for each part of a character
-- that is cut off, as the Encoding Standard has it.
use benchkit.Prelude.{
  ℕ, zero, suc, ◌+◌, ◌-◌, ◌*◌, ◌/◌, ◌%◌, ◌==◌, ltb, leb, if◌then◌else◌, Bool, false, ◌&&◌, List, [],
  ◌∷◌, ◌++◌,
}

abbrev pub Bytes : Type 0
Bytes = List ℕ

abbrev pub Text : Type 0
Text = List ℕ

abbrev pub is_high_surrogate : ℕ → Bool
is_high_surrogate u = leb 55296 u && leb u 56319

abbrev pub is_low_surrogate : ℕ → Bool
is_low_surrogate u = leb 56320 u && leb u 57343

-- The bytes of a code unit; a low surrogate behind a high one makes a character of 4 bytes.
abbrev pub width : Bool → ℕ → ℕ
width paired u =
    if ltb u 128 then 1 else if ltb u 2048 then 2 else if paired && is_low_surrogate u then 1 else 3

abbrev pub byte_length_from : Bool → Text → ℕ
byte_length_from paired [] = 0
byte_length_from paired (u ∷ us) = width paired u + byte_length_from (is_high_surrogate u) us

-- `Buffer.byteLength`
unfoldable pub byte_length : Text → ℕ
byte_length t = byte_length_from false t

-- A character of which bytes are missing: how many behind the next, the bits so far, and the range of
-- the next byte.
pub data Partial : Type 0 where
  complete : Partial
  missing : ℕ → ℕ → ℕ → ℕ → Partial

abbrev pub replacement : ℕ
replacement = 65533

abbrev pub units : ℕ → Text
units point =
    if ltb point 65536
    then point ∷ []
    else (55296 + (point - 65536) / 1024) ∷ (56320 + (point - 65536) % 1024) ∷ []

-- the first byte of a character
abbrev pub lead : ℕ → Partial × Text
lead b =
    if ltb b 128
    then (complete, b ∷ [])
    else if leb 194 b && leb b 223
    then (missing 0 (b - 192) 128 191, [])
    else if leb 224 b && leb b 239
    then (missing 1 (b - 224) (if b == 224 then 160 else 128) (if b == 237 then 159 else 191), [])
    else if leb 240 b && leb b 244
    then (missing 2 (b - 240) (if b == 240 then 144 else 128) (if b == 244 then 143 else 191), [])
    else (complete, replacement ∷ [])

abbrev pub go_on : ℕ → ℕ → Partial × Text
go_on zero point = (complete, units point)
go_on (suc n) point = (missing n point 128 191, [])

abbrev pub behind : Text → Partial × Text → Partial × Text
behind t r = (r.0, t ++ r.1)

unfoldable pub read_byte : Partial → ℕ → Partial × Text
read_byte complete b = lead b
read_byte (missing n point low high) b =
    if leb low b && leb b high
    then go_on n (point * 64 + (b - 128))
    else behind (replacement ∷ []) (lead b)

unfoldable pub read : Partial → Bytes → Partial × Text
read p [] = (p, [])
read p (b ∷ bs) = let (p', t) = read_byte p b in behind t (read p' bs)

abbrev pub rest_of : Partial → Text
rest_of complete = []
rest_of (missing n point low high) = replacement ∷ []

unfoldable pub decode_utf8 : Bytes → Text
decode_utf8 bs = let (p, t) = read complete bs in t ++ rest_of p

pub data Chunk : Type 0 where
  string : Text → Chunk
  buffer : Bytes → Chunk

-- `chunk.toString()`
abbrev pub to_string : Chunk → Text
to_string (string t) = t
to_string (buffer bs) = decode_utf8 bs
