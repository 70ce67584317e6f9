-- ===== src/Http1/Bytes.antt =====
-- src/load/http1/response-parser.ts: what the parser does with byte ranges. A range `[start, end)`
-- of the buffer is the list of its bytes; the rest of the input from an offset is a list too.
pub mod Search
use mathlib.Core.Option
use benchkit.Prelude.{
  ℕ, suc, ◌+◌, ◌-◌, ◌==◌, ltb, leb, if◌then◌else◌, Bool, true, false, ◌&&◌, ◌||◌, Option, none,
  some, List, [], ◌∷◌, length, get_or,
}

abbrev pub Bytes : Type 0
Bytes = List ℕ

-- `buffer[i]`; every use compares it to something that 0, like `undefined`, is not.
abbrev pub byte_at : Bytes → ℕ → ℕ
byte_at buffer i = get_or buffer i 0

unfoldable pub is_prefix : Bytes → Bytes → Bool
is_prefix [] ys = true
is_prefix (x ∷ xs) [] = false
is_prefix (x ∷ xs) (y ∷ ys) = x == y && is_prefix xs ys

-- `buffer.indexOf(pattern)` for a pattern that is not empty; `none` is -1.
unfoldable pub index_of : Bytes → Bytes → Option ℕ
unfolding is_prefix
index_of pattern [] = none
index_of pattern (x ∷ xs) =
    if is_prefix pattern (x ∷ xs) then some 0 else Option.map suc (index_of pattern xs)

abbrev pub line_end : Bytes
line_end = 13 ∷ 10 ∷ []

abbrev pub header_end : Bytes
header_end = 13 ∷ 10 ∷ 13 ∷ 10 ∷ []

-- `isOptionalWhitespace`
abbrev pub is_optional_whitespace : ℕ → Bool
is_optional_whitespace b = b == 32 || b == 9

abbrev pub is_digit : ℕ → Bool
is_digit b = leb 48 b && leb b 57

unfoldable pub hex_digit : ℕ → Option ℕ
hex_digit b =
    if leb 48 b && leb b 57
    then some (b - 48)
    else if leb 65 b && leb b 70
    then some (b - 55)
    else if leb 97 b && leb b 102
    then some (b - 87)
    else none

-- the loop that moves a range's start past whitespace
unfoldable pub trim_start : Bytes → Bytes
trim_start [] = []
trim_start (b ∷ bs) = if is_optional_whitespace b then trim_start bs else b ∷ bs

-- the loop that moves a range's end before whitespace
unfoldable pub trim_end : Bytes → Bytes
trim_end [] = []
trim_end (b ∷ bs) = elim (trim_end bs) [
  | [] ↦ if is_optional_whitespace b then [] else b ∷ []
  | c ∷ cs ↦ b ∷ c ∷ cs
]

unfoldable pub trim : Bytes → Bytes
unfolding trim_start trim_end
trim bs = trim_end (trim_start bs)

unfoldable pub lower : ℕ → ℕ
lower b = if leb 65 b && leb b 90 then b + 32 else b

-- the loop of `asciiEqualsIgnoreCase` on ranges of one length
unfoldable pub equals_lower : Bytes → Bytes → Bool
unfolding lower
equals_lower [] [] = true
equals_lower (b ∷ bs) (e ∷ es) = lower b == e && equals_lower bs es
equals_lower _ _ = false

unfoldable pub ascii_equals_ignore_case : Bytes → Bytes → Bool
unfolding equals_lower
ascii_equals_ignore_case range expected =
    if length range == length expected then equals_lower range expected else false

-- the byte before a first part and the parts of what follows it
unfoldable pub add_part : Bool → ℕ → List Bytes → List Bytes
add_part true b parts = [] ∷ parts
add_part false b [] = (b ∷ []) ∷ []
add_part false b (p ∷ ps) = (b ∷ p) ∷ ps

-- the parts of a range between the bytes `sep`: one more than there are such bytes
unfoldable pub split_on : ℕ → Bytes → List Bytes
unfolding add_part
split_on sep [] = [] ∷ []
split_on sep (b ∷ bs) = add_part (b == sep) b (split_on sep bs)

-- what stands before the first byte `sep`, or the whole range
unfoldable pub before : ℕ → Bytes → Bytes
before sep [] = []
before sep (b ∷ bs) = if b == sep then [] else b ∷ before sep bs
