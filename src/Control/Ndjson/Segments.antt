-- ===== src/Control/Ndjson/Segments.antt =====
-- src/control/ndjson.ts: how a stream is cut into chunks does not show.
use benchkit.Prelude.{
  ℕ, zero, suc, ◌+◌, ◌≤◌, ◌≡◌, refl, subst, sym, ap, ◌∙◌, Bool, true, false, not, ◌&&◌, ltb, Option,
  none, some, [], ◌∷◌, ◌++◌, append_assoc, length, arith, inl, inr, Option-cases, Bool-cases,
  append-nil,
}
use benchkit.Control.Ndjson.{
  Text, Decoder, Decoded, add_calls, fail, frame_too_long, cut, strip_return, has_newline,
  LineResult, stops, goes, take_line, after_line, keep, drain, push, Chunk, string, buffer,
  to_string, byte_length, Partial, complete, read, read_byte, behind, rest_of, decode_utf8, Bytes,
}

length-cut :
    (b : Text) {line rest : Text}
    → cut b ≡ some (line, rest)
    → length line + length rest + 1 ≡ length b
unfolding cut
length-cut [] e = absurd (ground (arith, e))
length-cut (x ∷ bs) {line} {rest} e = elim (Option-cases (cut bs)) [
  | inl none_left ↦ ground (arith, e, none_left)
  | inr (r, found) ↦ ground (arith, e, found, length-cut bs {line = r.0} {rest = r.1} found)
]

cut-append :
    (b ys : Text) {line rest : Text}
    → cut b ≡ some (line, rest)
    → cut (b ++ ys) ≡ some (line, rest ++ ys)
unfolding cut
cut-append [] ys e = absurd (ground (arith, e))
cut-append (x ∷ bs) ys {line} {rest} e = elim (Option-cases (cut bs)) [
  | inl none_left ↦ ground (arith, e, none_left)
  | inr (r, found) ↦ ground (arith, e, found, cut-append bs ys {line = r.0} {rest = r.1} found)
]

cut-none : (b : Text) → has_newline b ≡ false → cut b ≡ none
unfolding cut
cut-none [] e = refl
cut-none (x ∷ bs) e = ground (arith, e, cut-none bs)

cut-short : (b : Text) → length b ≤ 0 → cut b ≡ none
unfolding cut
cut-short [] h = refl
cut-short (x ∷ bs) h = absurd (omega (arith, h))

read-append :
    (p : Partial) (xs ys : Bytes)
    → read p (xs ++ ys) ≡ ((read (read p xs).0 ys).0, (read p xs).1 ++ (read (read p xs).0 ys).1)
unfolding read
read-append p [] ys = refl
read-append p (x ∷ xs) ys =
    let (p', t) = read_byte p x in
    let (p'', u) = read p' xs in
    ap (behind t) (read-append p' xs ys)
    ∙ ap (λ v. ((read p'' ys).0, v)) (sym (append_assoc t u (read p'' ys).1))

-- No character of the bytes is incomplete at their end.
abbrev pub EndsWhole : Bytes → Type 0
EndsWhole bs = (read complete bs).0 ≡ complete

decode_utf8-append :
    (xs ys : Bytes) → EndsWhole xs → decode_utf8 (xs ++ ys) ≡ decode_utf8 xs ++ decode_utf8 ys
unfolding decode_utf8
decode_utf8-append xs ys whole =
    let t = (read complete xs).1 in
    let r = read complete ys in
    ap (λ q. q.1 ++ rest_of q.0) (read-append complete xs ys)
    ∙ (ap (λ p. (t ++ (read p ys).1) ++ rest_of (read p ys).0) whole
        ∙ (append_assoc t r.1 (rest_of r.0)
            ∙ (ap (λ u. u ++ (r.1 ++ rest_of r.0)) (sym (append-nil t))
                ∙ ap (λ p. (t ++ rest_of p) ++ (r.1 ++ rest_of r.0)) (sym whole))))

-- how a stream is cut into two chunks
abbrev pub IsCut : Chunk → Chunk → Chunk → Type 0
IsCut (string t) (string u) (string v) = t ≡ u ++ v
IsCut (buffer t) (buffer u) (buffer v) = (t ≡ u ++ v) × EndsWhole u
IsCut _ _ _ = ⊥

to_string-IsCut :
    (whole first second : Chunk)
    → IsCut whole first second
    → to_string whole ≡ to_string first ++ to_string second
to_string-IsCut (string t) (string u) (string v) h = h
to_string-IsCut (buffer t) (buffer u) (buffer v) h = ap decode_utf8 h.0 ∙ decode_utf8-append u v h.1
to_string-IsCut (string t) (string u) (buffer v) h = absurd h
to_string-IsCut (string t) (buffer u) second h = absurd h
to_string-IsCut (buffer t) (string u) second h = absurd h
to_string-IsCut (buffer t) (buffer u) (string v) h = absurd h

module _ {A : Type 0} (max_line_bytes : ℕ) (parse : Text → Option A) (is_blank : Text → Bool)
    (returns : A → Bool) where
  abbrev pub loop : ℕ → Text → Decoded A
  loop = drain max_line_bytes parse is_blank returns

  drain-none :
      (fuel : ℕ) (b : Text)
      → cut b ≡ none
      → loop fuel b ≡ keep max_line_bytes parse is_blank returns b
  unfolding drain
  drain-none zero b e = refl
  drain-none (suc fuel) b e = ground (arith, e)

  drain-some :
      (fuel : ℕ) (b line rest : Text)
      → cut b ≡ some (line, rest)
      → loop (suc fuel) b
        ≡ after_line
            (take_line max_line_bytes parse is_blank returns (strip_return line))
            (loop fuel rest)
  unfolding drain
  drain-some fuel b line rest e = ground (arith, e)

  abbrev pub line_result : Text → LineResult A
  line_result line = take_line max_line_bytes parse is_blank returns (strip_return line)

  abbrev pub feed : Decoder → Chunk → Decoded A
  feed = push max_line_bytes parse is_blank returns

  drain-fuel : (k n : ℕ) (b : Text) → length b ≤ k → length b ≤ n → loop k b ≡ loop n b
  drain-fuel zero n b hk hn =
      drain-none zero b (cut-short b hk) ∙ sym (drain-none n b (cut-short b hk))
  drain-fuel (suc k) zero b hk hn =
      drain-none (suc k) b (cut-short b hn) ∙ sym (drain-none zero b (cut-short b hn))
  drain-fuel (suc k) (suc n) b hk hn = elim (Option-cases (cut b)) [
    | inl e ↦ drain-none (suc k) b e ∙ sym (drain-none (suc n) b e)
    | inr ((line, rest), e) ↦
        drain-some k b line rest e
        ∙ (ap (after_line (line_result line)) (
              drain-fuel k n rest (omega (arith, hk, length-cut b e))
                (omega (arith, hn, length-cut b e)))
            ∙ sym (drain-some n b line rest e))
  ]

  -- the decoder's loop with fuel enough
  abbrev pub decode : Text → Decoded A
  decode b = loop (length b) b

  -- What is left of a buffer is gone on with.
  abbrev Continues : Text → Decoded A → Decoded A → Type 0
  Continues ys o whole = o.0.failed ≡ false → whole ≡ add_calls o.1 (decode (o.0.buffered ++ ys))

  keep-Continues :
      (b ys : Text) → Continues ys (keep max_line_bytes parse is_blank returns b) (decode (b ++ ys))
  keep-Continues b ys h = ground (arith, h)

  after_line-Continues :
      (r : LineResult A) (ys : Text) (o whole : Decoded A)
      → Continues ys o whole
      → Continues ys (after_line r o) (after_line r whole)
  after_line-Continues (stops e) ys o whole h bad = absurd (ground (arith, bad))
  after_line-Continues (goes calls) ys o whole h good =
      ap (add_calls calls) (h good)
      ∙ ap (λ cs. ((decode (o.0.buffered ++ ys)).0, cs))
          (sym (append_assoc calls o.1 (decode (o.0.buffered ++ ys)).1))

  uncut-Continues :
      (k : ℕ) (b ys : Text) → cut b ≡ none → Continues ys (loop k b) (decode (b ++ ys))
  uncut-Continues k b ys e =
      subst (λ o. Continues ys o (decode (b ++ ys))) (sym (drain-none k b e)) (keep-Continues b ys)

  -- A line that the buffer starts with is taken, and the rest is decoded.
  pub decode-step :
      (b line rest : Text)
      → cut b ≡ some (line, rest)
      → decode b ≡ after_line (line_result line) (decode rest)
  decode-step b line rest e =
      let n = length b in
      drain-fuel n (suc n) b (omega arith) (omega arith)
      ∙ (drain-some n b line rest e
          ∙ ap (after_line (line_result line))
              (drain-fuel n (length rest) rest (omega (arith, length-cut b e)) (omega arith)))

  drain-Continues :
      (k : ℕ) (b ys : Text) → length b ≤ k → Continues ys (loop k b) (decode (b ++ ys))
  drain-Continues zero b ys hk = uncut-Continues zero b ys (cut-short b hk)
  drain-Continues (suc k) b ys hk = elim (Option-cases (cut b)) [
    | inl e ↦ uncut-Continues (suc k) b ys e
    | inr ((line, rest), e) ↦
        subst (λ w. Continues ys (loop (suc k) b) w)
          (sym (decode-step (b ++ ys) line (rest ++ ys) (cut-append b ys e)))
          (subst (λ o. Continues ys o (after_line (line_result line) (decode (rest ++ ys))))
            (sym (drain-some k b line rest e))
            (after_line-Continues (line_result line) ys (loop k rest) (decode (rest ++ ys))
              (drain-Continues k rest ys (omega (arith, hk, length-cut b e)))))
  ]

  kept_too_long :
      (b : Text)
      → ltb max_line_bytes (byte_length b) ≡ true
      → fail frame_too_long ≡ keep max_line_bytes parse is_blank returns b
  kept_too_long b t = ground (arith, t)

  too_long :
      (b : Text)
      → (ltb max_line_bytes (byte_length b) && not (has_newline b)) ≡ true
      → fail frame_too_long ≡ decode b
  too_long b t =
      kept_too_long b (ground (arith, t))
      ∙ sym (drain-none (length b) b (cut-none b (ground (arith, t))))

  pub push-decode :
      (d : Decoder) (chunk : Chunk)
      → d.failed ≡ false
      → feed d chunk ≡ decode (d.buffered ++ to_string chunk)
  unfolding push
  push-decode d chunk e =
      let b = d.buffered ++ to_string chunk in
      elim (Bool-cases (ltb max_line_bytes (byte_length b) && not (has_newline b))) [
        | inl t ↦ rw (e, t) (too_long b t)
        | inr f ↦ rw (e, f) refl
      ]

  push-failed : (d : Decoder) (chunk : Chunk) → d.failed ≡ true → feed d chunk ≡ (d, [])
  unfolding push
  push-failed d chunk e = ground (arith, e)

  failed_first :
      (d : Decoder) (chunk : Chunk) → d.failed ≡ true → (feed d chunk).0.failed ≡ false → ⊥
  failed_first d chunk bad good =
      absurd (ground (arith, bad, good, ap (λ o. o.0.failed) (push-failed d chunk bad)))

  push-append_text :
      (d : Decoder) (whole first second : Chunk)
      → to_string whole ≡ to_string first ++ to_string second
      → (feed d first).0.failed ≡ false
      → feed d whole ≡ add_calls (feed d first).1 (feed (feed d first).0 second)
  push-append_text d whole first second joined good = elim (Bool-cases d.failed) [
    | inl bad ↦ absurd (failed_first d first bad good)
    | inr e ↦
        let b = d.buffered ++ to_string first in
        let o = decode b in
        let step : o.0.failed ≡ false → feed d whole ≡ add_calls o.1 (feed o.0 second) = λ fine.
          push-decode d whole e
          ∙ (ap (λ t. decode (d.buffered ++ t)) joined
              ∙ (ap decode (sym (append_assoc d.buffered (to_string first) (to_string second)))
                  ∙ (drain-Continues (length b) b (to_string second) (omega arith) fine
                      ∙ ap (add_calls o.1) (sym (push-decode o.0 second fine))))) in
        subst (λ o. o.0.failed ≡ false → feed d whole ≡ add_calls o.1 (feed o.0 second))
          (sym (push-decode d first e)) step good
  ]

  -- A stream that is cut in two, as strings anywhere and as buffers between two characters: when the
  -- first chunk is accepted, pushing it and then the second does what pushing both as one chunk does,
  -- with the same calls in the same order, and the same decoder.
  pub push-append_chunks :
      (d : Decoder) (whole first second : Chunk)
      → IsCut whole first second
      → (feed d first).0.failed ≡ false
      → feed d whole ≡ add_calls (feed d first).1 (feed (feed d first).0 second)
  push-append_chunks d whole first second cut_there good =
      push-append_text d whole first second (to_string-IsCut whole first second cut_there) good
