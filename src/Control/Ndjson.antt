-- ===== src/Control/Ndjson.antt =====
-- src/control/ndjson.ts: the decoder of newline-delimited JSON. `JSON.parse`, the test that `trim()`
-- leaves nothing, and the callback for messages, which may throw, are parameters.
mod Strings
pub mod Segments
pub mod RoundTrip
mod Tests
unfoldable pub use Strings.*
use benchkit.Prelude.{
  ℕ, zero, suc, ◌==◌, ltb, if◌then◌else◌, Bool, true, false, not, ◌&&◌, Option, none, some, List,
  [], ◌∷◌, ◌++◌, length,
}

-- the messages of the `ProtocolError`s
pub data FrameError : Type 0 where
  frame_too_long partial_frame invalid_json : FrameError

-- the calls of `onMessage` and `onError`
pub data DecoderCall (A : Type 0) : Type 0 where
  on_message : A → DecoderCall A
  on_error : FrameError → DecoderCall A

pub record Decoder : Type 0 where
  pub buffered : Text
  pub failed : Bool

abbrev pub fresh : Decoder
fresh = record { buffered = []; failed = false }

-- a decoder with the calls that it made, in order
abbrev pub Decoded : Type 0 → Type 0
Decoded A = Decoder × List (DecoderCall A)

abbrev pub add_calls : {A : Type 0} → List (DecoderCall A) → Decoded A → Decoded A
add_calls calls d = (d.0, calls ++ d.1)

-- `#fail` of a decoder that has not failed
abbrev pub fail : {A : Type 0} → FrameError → Decoded A
fail e = (record { buffered = []; failed = true }, on_error e ∷ [])

abbrev pub newline : ℕ
newline = 10

abbrev pub with_byte : ℕ → Option (Text × Text) → Option (Text × Text)
with_byte b none = none
with_byte b (some (line, rest)) = some (b ∷ line, rest)

-- the buffer up to its first newline and behind it; `none` where there is no newline
unfoldable pub cut : Text → Option (Text × Text)
cut [] = none
cut (b ∷ bs) = let later = cut bs in if b == newline then some ([], bs) else with_byte b later

-- `.replace(/\r$/, '')`
unfoldable pub strip_return : Text → Text
strip_return [] = []
strip_return (b ∷ []) = if b == 13 then [] else b ∷ []
strip_return (b ∷ c ∷ cs) = b ∷ strip_return (c ∷ cs)

abbrev pub has_newline : Text → Bool
has_newline [] = false
has_newline (b ∷ bs) = let later = has_newline bs in if b == newline then true else later

-- what a line leads to: an error, or calls
pub data LineResult (A : Type 0) : Type 0 where
  stops : FrameError → LineResult A
  goes : List (DecoderCall A) → LineResult A

abbrev pub after_line : {A : Type 0} → LineResult A → Decoded A → Decoded A
after_line (stops e) rest = fail e
after_line (goes calls) rest = add_calls calls rest

-- `encodeNdjson`; `print` is `JSON.stringify`.
abbrev pub encode : {A : Type 0} → (A → Text) → A → Text
encode print message = print message ++ newline ∷ []

module _ {A : Type 0} (max_line_bytes : ℕ) (parse : Text → Option A) (is_blank : Text → Bool)
    (returns : A → Bool) where
  -- `#parseLine`; an error thrown by `onMessage` is caught with those of `JSON.parse`, and the message
  -- was delivered.
  abbrev pub parsed : Option A → LineResult A
  parsed none = stops invalid_json
  parsed (some a) = if returns a then goes (on_message a ∷ []) else stops invalid_json

  -- the body of the loop for a line
  unfoldable pub take_line : Text → LineResult A
  take_line line =
      if ltb max_line_bytes (byte_length line)
      then stops frame_too_long
      else if is_blank line
      then goes []
      else parsed (parse line)

  -- the test behind the loop
  abbrev pub keep : Text → Decoded A
  keep b =
      if ltb max_line_bytes (byte_length b)
      then fail frame_too_long
      else (record { buffered = b; failed = false }, [])

  -- the loop of `push`; the length of the buffer is fuel enough
  unfoldable pub drain : ℕ → Text → Decoded A
  drain zero b = keep b
  drain (suc fuel) b = elim (cut b) [
    | none ↦ keep b
    | some (line, rest) ↦ after_line (take_line (strip_return line)) (drain fuel rest)
  ]

  unfoldable pub push : Decoder → Chunk → Decoded A
  push d chunk =
      let b = d.buffered ++ to_string chunk in
      if d.failed
      then (d, [])
      else if ltb max_line_bytes (byte_length b) && not (has_newline b)
      then fail frame_too_long
      else drain (length b) b

  -- `end`
  unfoldable pub finish : Decoder → Decoded A
  finish d =
      if not d.failed && not (is_blank d.buffered)
      then fail partial_frame
      else (record d { buffered = [] }, [])
