-- ===== src/Http1/Parser/Turns.antt =====
-- src/load/http1/response-parser.ts: a turn of the loop that goes on does the same when more bytes
-- follow, or runs out of input within a body and is taken up where it stopped.
use Prim.Native.String.{String}
use benchkit.Prelude.{
  ℕ, ◌+◌, ◌-◌, ◌≤◌, ◌<◌, ◌≡◌, inl, inr, ap, ◌∙◌, ltb, min, [], ◌∷◌, ◌++◌, arith, length,
  length-append, take, drop, take-append_le, drop-append_le, drop-append_ge, drop_all, Option-cases,
  Bool-cases,
}
use benchkit.Http1.Bytes.{Bytes, index_of, line_end, header_end}
use benchkit.Http1.Bytes.Search.{index_of-length, index_of-append}
use benchkit.Http1.Framing.{
  Label, response_headers, chunk_size_line, response_trailers, Parsed, ok, err, Framing,
  parse_headers, parse_chunk_size,
}
use benchkit.Http1.Parser.{
  Machine, Turn, advance, wait, fail, retain, framed_body, framed, after_headers, step_headers,
  step_fixed_body, after_chunk_size, step_chunk_size, step_chunk_data, step_chunk_data_crlf,
  step_trailers,
}

-- The turn `t` on a first segment goes over, by `more`, to the turn on it and what follows.
abbrev pub Extends : Bytes → Turn → Turn → Type 0
Extends ys (advance m' rest done) more = more ≡ advance m' (rest ++ ys) done
Extends ys (wait m' pending) more = Unit
Extends ys (fail m' e) more = Unit

retain-Extends :
    (max : ℕ) (m : Machine) (xs ys : Bytes) (label : Label) (more : Turn)
    → Extends ys (retain max m xs label) more
unfolding retain
retain-Extends max m xs ys label more = elim (Bool-cases (ltb max (length xs))) [
  | inl over ↦ rw over tt
  | inr within ↦ rw within tt
]

after_headers-Extends :
    (m : Machine) (r : Parsed Framing) (rest ys : Bytes)
    → Extends ys (after_headers m r rest) (after_headers m r (rest ++ ys))
unfolding after_headers framed framed_body
after_headers-Extends m (err e) rest ys = tt
after_headers-Extends m (ok f) rest ys = ground arith

pub step_headers-Extends :
    (method : String) (max : ℕ) (m : Machine) (xs ys : Bytes)
    → Extends ys
        (step_headers method max m xs (index_of header_end xs))
        (step_headers method max m (xs ++ ys) (index_of header_end (xs ++ ys)))
unfolding step_headers
step_headers-Extends method max m xs ys = elim (Option-cases (index_of header_end xs)) [
  | inl e ↦ rw e (retain-Extends max m xs ys response_headers _)
  | inr (i, e) ↦
      let fits = index_of-length header_end xs i e in
      rw
        (
          e,
          index_of-append header_end xs ys i e,
          take-append_le i xs ys (omega arith),
          drop-append_le (i + 4) xs ys (omega arith),
        )
        (elim (Bool-cases (ltb max i)) [
          | inl over ↦ rw over tt
          | inr within ↦
              rw within
                (after_headers-Extends m (parse_headers (take i xs) method) (drop (i + 4) xs) ys)
        ])
]

after_chunk_size-Extends :
    (m : Machine) (r : Parsed ℕ) (rest ys : Bytes)
    → Extends ys (after_chunk_size m r rest) (after_chunk_size m r (rest ++ ys))
unfolding after_chunk_size
after_chunk_size-Extends m (err e) rest ys = tt
after_chunk_size-Extends m (ok n) rest ys = ground arith

pub step_chunk_size-Extends :
    (max : ℕ) (m : Machine) (xs ys : Bytes)
    → Extends ys
        (step_chunk_size max m xs (index_of line_end xs))
        (step_chunk_size max m (xs ++ ys) (index_of line_end (xs ++ ys)))
unfolding step_chunk_size
step_chunk_size-Extends max m xs ys = elim (Option-cases (index_of line_end xs)) [
  | inl e ↦ rw e (retain-Extends max m xs ys chunk_size_line _)
  | inr (i, e) ↦
      let fits = index_of-length line_end xs i e in
      rw
        (
          e,
          index_of-append line_end xs ys i e,
          take-append_le i xs ys (omega arith),
          drop-append_le (i + 2) xs ys (omega arith),
        )
        (after_chunk_size-Extends m (parse_chunk_size (take i xs)) (drop (i + 2) xs) ys)
]

pub step_trailers-Extends :
    (max : ℕ) (m : Machine) (xs ys : Bytes)
    → Extends ys
        (step_trailers max m xs (index_of line_end xs))
        (step_trailers max m (xs ++ ys) (index_of line_end (xs ++ ys)))
unfolding step_trailers
step_trailers-Extends max m xs ys = elim (Option-cases (index_of line_end xs)) [
  | inl e ↦ rw e (retain-Extends max m xs ys response_trailers _)
  | inr (i, e) ↦
      let fits = index_of-length line_end xs i e in
      rw
        (
          e,
          index_of-append line_end xs ys i e,
          drop-append_le 2 xs ys (omega arith),
          drop-append_le (i + 2) xs ys (omega arith),
        )
        (ground arith)
]

pub step_chunk_data_crlf-Extends :
    (m : Machine) (xs ys : Bytes)
    → Extends ys (step_chunk_data_crlf m xs) (step_chunk_data_crlf m (xs ++ ys))
unfolding step_chunk_data_crlf
step_chunk_data_crlf-Extends m [] ys = tt
step_chunk_data_crlf-Extends m (a ∷ []) ys = tt
step_chunk_data_crlf-Extends m (a ∷ b ∷ xs) ys = ground arith

-- A body or a chunk of `need` bytes, of which the first segment holds a part: what is consumed of
-- both segments is what is consumed of the second when the rest is still to come.
drop-min_part :
    (need : ℕ) (xs ys : Bytes)
    → length xs < need
    → drop (min need (length (xs ++ ys))) (xs ++ ys) ≡ drop (min (need - length xs) (length ys)) ys
drop-min_part need xs ys h =
    drop-append_ge (min need (length (xs ++ ys))) xs ys (omega (arith, length-append xs ys))
    ∙ ap (λ k. drop k ys) (omega (arith, length-append xs ys))

drop-min_whole :
    (need : ℕ) (xs ys : Bytes)
    → need ≤ length xs
    → drop (min need (length (xs ++ ys))) (xs ++ ys) ≡ drop (min need (length xs)) xs ++ ys
drop-min_whole need xs ys h =
    ap (λ k. drop k (xs ++ ys)) (omega (arith, length-append xs ys))
    ∙ drop-append_le (min need (length xs)) xs ys (omega arith)

pub step_fixed_body-whole :
    (m : Machine) (xs ys : Bytes)
    → m.body_remaining ≤ length xs
    → Extends ys (step_fixed_body m xs) (step_fixed_body m (xs ++ ys))
unfolding step_fixed_body
step_fixed_body-whole m xs ys h =
    ground (arith, length-append xs ys, drop-min_whole m.body_remaining xs ys)

pub step_fixed_body-part :
    (m : Machine) (xs ys : Bytes)
    → length xs < m.body_remaining
    → let m' = record m { body_remaining = m.body_remaining - length xs } in
      (step_fixed_body m xs ≡ advance m' [] [])
      × (step_fixed_body m (xs ++ ys) ≡ step_fixed_body m' ys)
unfolding step_fixed_body
step_fixed_body-part m xs ys h = ground (
  arith,
  length-append xs ys,
  drop-min_part m.body_remaining xs ys,
  drop_all (min m.body_remaining (length xs)) xs,
)

pub step_chunk_data-whole :
    (m : Machine) (xs ys : Bytes)
    → m.chunk_remaining ≤ length xs
    → Extends ys (step_chunk_data m xs) (step_chunk_data m (xs ++ ys))
unfolding step_chunk_data
step_chunk_data-whole m xs ys h =
    ground (arith, length-append xs ys, drop-min_whole m.chunk_remaining xs ys)

pub step_chunk_data-part :
    (m : Machine) (xs ys : Bytes)
    → length xs < m.chunk_remaining
    → let m' = record m { chunk_remaining = m.chunk_remaining - length xs } in
      (step_chunk_data m xs ≡ advance m' [] [])
      × (step_chunk_data m (xs ++ ys) ≡ step_chunk_data m' ys)
unfolding step_chunk_data
step_chunk_data-part m xs ys h = ground (
  arith,
  length-append xs ys,
  drop-min_part m.chunk_remaining xs ys,
  drop_all (min m.chunk_remaining (length xs)) xs,
)
