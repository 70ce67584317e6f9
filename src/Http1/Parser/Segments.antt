-- ===== src/Http1/Parser/Segments.antt =====
-- src/load/http1/response-parser.ts: how the bytes of a stream are cut into chunks changes nothing
-- that the parser reports.
use Prim.Native.String.{String}
use benchkit.Prelude.{
  ℕ, zero, suc, ◌+◌, ◌-◌, ◌≤◌, ◌≡◌, ◌⊎◌, inl, inr, refl, sym, subst, ap, ap₂, ◌∙◌, none, some, List,
  [], ◌∷◌, ◌++◌, append-nil, append_assoc, arith, length, length-append, le-cases,
}
use benchkit.Http1.Bytes.{Bytes}
use benchkit.Http1.Parser.{
  ParserState, headers, fixed_body, chunk_size, chunk_data, chunk_data_crlf, trailers, Machine,
  Parser, Turn, advance, wait, fail, Outcome, step_in, step, add_completed, stopped, run, push,
}
use benchkit.Http1.Parser.Invariant.{IsValid, TurnIsValid, step-TurnIsValid}
use benchkit.Http1.Parser.Run.{ParserIsValid, OutcomeIsValid, push-OutcomeIsValid}
use benchkit.Http1.Parser.Turns.{
  Extends, step_headers-Extends, step_chunk_size-Extends, step_trailers-Extends,
  step_chunk_data_crlf-Extends, step_fixed_body-whole, step_fixed_body-part, step_chunk_data-whole,
  step_chunk_data-part,
}

module _ (method : String) (max : ℕ) where
  -- A turn on the first segment that goes on from `m'` with no input is taken up on the second.
  abbrev Resumes : Machine → Bytes → Bytes → Turn → Type 0
  Resumes m xs ys t =
      (m' : Machine) × (t ≡ advance m' [] [])
      × (step method max m (xs ++ ys) ≡ step method max m' ys)

  step-split :
      (m : Machine) (xs ys : Bytes)
      → Extends ys (step method max m xs) (step method max m (xs ++ ys))
        ⊎ Resumes m xs ys (step method max m xs)
  unfolding step_in
  step-split m xs ys = at m.state refl
    where
      resume :
          {s : ParserState} (m' : Machine)
          → m'.state ≡ s
          → step_in method max s m' ys ≡ step_in method max m'.state m' ys
      resume m' e = ap (λ s. step_in method max s m' ys) (sym e)

      at :
          (s : ParserState)
          → m.state ≡ s
          → Extends ys (step_in method max s m xs) (step_in method max s m (xs ++ ys))
            ⊎ ((m' : Machine) × (step_in method max s m xs ≡ advance m' [] [])
                × (step_in method max s m (xs ++ ys) ≡ step_in method max m'.state m' ys))
      at headers e = inl (step_headers-Extends method max m xs ys)
      at chunk_size e = inl (step_chunk_size-Extends max m xs ys)
      at chunk_data_crlf e = inl (step_chunk_data_crlf-Extends m xs ys)
      at trailers e = inl (step_trailers-Extends max m xs ys)
      at fixed_body e = elim (le-cases m.body_remaining (length xs)) [
        | inl h ↦ inl (step_fixed_body-whole m xs ys h)
        | inr h ↦ inr (
          record m { body_remaining = m.body_remaining - length xs },
          (step_fixed_body-part m xs ys h).0,
          (step_fixed_body-part m xs ys h).1 ∙ resume _ e,
        )
      ]
      at chunk_data e = elim (le-cases m.chunk_remaining (length xs)) [
        | inl h ↦ inl (step_chunk_data-whole m xs ys h)
        | inr h ↦ inr (
          record m { chunk_remaining = m.chunk_remaining - length xs },
          (step_chunk_data-part m xs ys h).0,
          (step_chunk_data-part m xs ys h).1 ∙ resume _ e,
        )
      ]

  -- what the loop does behind a turn
  abbrev pub after : ℕ → Turn → Outcome
  after fuel t = elim t [
    | advance m' rest done ↦ add_completed done (run method max fuel m' rest)
    | wait m' pending ↦ stopped m' pending none
    | fail m' e ↦ stopped m' [] (some e)
  ]

  pub run-suc :
      (fuel : ℕ) (m : Machine) (b : ℕ) (bs : Bytes)
      → run method max (suc fuel) m (b ∷ bs) ≡ after fuel (step method max m (b ∷ bs))
  unfolding run
  run-suc fuel m b bs = refl

  -- Fuel beyond the length of the input changes nothing.
  run-fuel :
      (f g : ℕ) (m : Machine) (xs : Bytes)
      → IsValid max m
      → length xs ≤ f
      → length xs ≤ g
      → run method max f m xs ≡ run method max g m xs
  unfolding run
  run-fuel f g m [] v h k = refl
  run-fuel zero g m (b ∷ bs) v h k = absurd (omega arith)
  run-fuel (suc f) zero m (b ∷ bs) v h k = absurd (omega arith)
  run-fuel (suc f) (suc g) m (b ∷ bs) v h k =
      go (step method max m (b ∷ bs)) (step-TurnIsValid method max m (b ∷ bs) v (omega arith))
        (run-fuel f g)
    where
      go :
          (t : Turn)
          → TurnIsValid max m (b ∷ bs) t
          → ((m' : Machine) (rest : Bytes)
              → IsValid max m'
              → length rest ≤ f
              → length rest ≤ g
              → run method max f m' rest ≡ run method max g m' rest)
          → after f t ≡ after g t
      go (advance m' rest done) t ih =
          ap (add_completed done) (ih m' rest t.0 (omega arith) (omega arith))
      go (wait m' pending) t ih = refl
      go (fail m' e) t ih = refl

  -- What the second segment adds to the outcome of the first.
  abbrev continued : ℕ → Outcome → Bytes → Outcome
  continued k o ys =
      add_completed o.completed (run method max k o.parser.machine (o.parser.pending ++ ys))

  resumed :
      (g k : ℕ) (m m' : Machine) (xs ys : Bytes)
      → IsValid max m'
      → length ys ≤ suc g
      → length ys ≤ k
      → step method max m xs ≡ advance m' [] []
      → step method max m (xs ++ ys) ≡ step method max m' ys
      → after g (step method max m (xs ++ ys)) ≡ run method max k m' ys
  unfolding run
  resumed g k m m' xs [] v hg hk first both =
      ap (λ t. after g t) (ap (step method max m) (append-nil xs) ∙ first)
  resumed g k m m' xs (c ∷ cs) v hg hk first both =
      ap (λ t. after g t) both ∙ run-fuel (suc g) k m' (c ∷ cs) v hg hk

  run-append :
      (f g k : ℕ) (m : Machine) (xs ys : Bytes)
      → IsValid max m
      → length xs ≤ f
      → length xs + length ys ≤ g
      → length xs + length ys ≤ k
      → (run method max f m xs).failure ≡ none
      → run method max g m (xs ++ ys) ≡ continued k (run method max f m xs) ys
  unfolding run
  run-append f g k m [] ys v hf hg hk e = run-fuel g k m ys v (omega arith) (omega arith)
  run-append zero g k m (b ∷ bs) ys v hf hg hk e = absurd (omega arith)
  run-append (suc f) zero k m (b ∷ bs) ys v hf hg hk e = absurd (omega arith)
  run-append (suc f) (suc g) k m (b ∷ bs) ys v hf hg hk e =
      go (step method max m (b ∷ bs)) refl (step-TurnIsValid method max m (b ∷ bs) v (omega arith))
        (step-split m (b ∷ bs) ys) e (run-append f g k)
    where
      regroup :
          (done : List ℕ) (o : Outcome)
          → add_completed done (continued k o ys) ≡ continued k (add_completed done o) ys
      regroup done o =
          let o' = run method max k o.parser.machine (o.parser.pending ++ ys) in
          ap (λ cs. record o' { completed = cs }) (sym (append_assoc done o.completed o'.completed))

      go :
          (t : Turn)
          → step method max m (b ∷ bs) ≡ t
          → TurnIsValid max m (b ∷ bs) t
          → Extends ys t (step method max m (b ∷ (bs ++ ys))) ⊎ Resumes m (b ∷ bs) ys t
          → (after f t).failure ≡ none
          → ((m' : Machine) (rest ys : Bytes)
              → IsValid max m'
              → length rest ≤ f
              → length rest + length ys ≤ g
              → length rest + length ys ≤ k
              → (run method max f m' rest).failure ≡ none
              → run method max g m' (rest ++ ys) ≡ continued k (run method max f m' rest) ys)
          → after g (step method max m (b ∷ (bs ++ ys))) ≡ continued k (after f t) ys
      go (advance m' rest done) at t (inl more) e ih = rw more (
          ap (add_completed done) (ih m' rest ys t.0 (omega arith) (omega arith) (omega arith) e)
          ∙ regroup done (run method max f m' rest))
      go (advance m' rest done) at t (inr (m1, first, both)) e ih =
          resumed g k m m1 (b ∷ bs) ys (subst (TurnIsValid max m (b ∷ bs)) first t).0 (omega arith)
            (omega arith) (at ∙ first) both
          ∙ ap (λ t. continued k (after f t) ys) (sym first)
      go (wait m' pending) at t _ e ih =
          run-fuel (suc g) k m (b ∷ (bs ++ ys)) v (omega (arith, length-append bs ys))
            (omega (arith, length-append bs ys))
          ∙ ap₂ (λ m p. run method max k m (p ++ ys)) (sym t.0) (sym t.1)
      go (fail m' why) at t _ e ih = absurd (ground arith)

-- Two chunks in turn report what their concatenation reports, and leave the same parser and the same
-- error, if the first chunk is accepted: the cuts between chunks show only where `push` throws at the
-- end of one because a line that is not yet whole exceeds the limit.
pub push-append :
    (method : String) (max : ℕ) (p : Parser) (first second : Bytes)
    → ParserIsValid max p
    → (push method max p first).failure ≡ none
    → let o = push method max p first in
      push method max p (first ++ second)
      ≡ add_completed o.completed (push method max o.parser second)
unfolding push
push-append method max p first second v e =
    ap (λ input. run method max (length input) p.machine input)
      (sym (append_assoc p.pending first second))
    ∙ run-append method max (length xs) (length (xs ++ second)) k p.machine xs second v.machine
        (omega arith) (omega (arith, length-append xs second)) (omega arith) e
    ∙ ap (add_completed o.completed) (
        run-fuel method max k (length (o.parser.pending ++ second)) o.parser.machine
          (o.parser.pending ++ second) (next.parser e).machine (omega arith) (omega arith))
  where
    xs : Bytes
    xs = p.pending ++ first

    o : Outcome
    o = run method max (length xs) p.machine xs

    next : OutcomeIsValid max o
    next = push-OutcomeIsValid method max p first v

    k : ℕ
    k = length xs + length second + length (o.parser.pending ++ second)
