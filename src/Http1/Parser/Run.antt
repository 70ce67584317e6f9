-- ===== src/Http1/Parser/Run.antt =====
-- src/load/http1/response-parser.ts: what `push` leaves behind, whatever the chunk.
use Prim.Native.String.{String}
use benchkit.Prelude.{
  ℕ, zero, suc, ◌≤◌, ◌≡◌, ◌≢◌, ◌⊎◌, inl, inr, refl, none, some, List, [], ◌∷◌, ◌++◌, All,
  All-append, arith, length,
}
use benchkit.Http1.Bytes.{Bytes}
use benchkit.Http1.Framing.{ParseError, out_of_fuel}
use benchkit.Http1.Parser.{
  Machine, Parser, Turn, advance, wait, fail, Outcome, step, add_completed, stopped, run, push,
}
use benchkit.Http1.Parser.Invariant.{IsFinal, IsValid, TurnIsValid, step-TurnIsValid}

pub Turn-cases :
    (t : Turn)
    → ((m : Machine) × (rest : Bytes) × (done : List ℕ) × (t ≡ advance m rest done))
      ⊎ ((m : Machine) × (pending : Bytes) × (t ≡ wait m pending))
      ⊎ ((m : Machine) × (e : ParseError) × (t ≡ fail m e))
Turn-cases (advance m rest done) = inl (m, rest, done, refl)
Turn-cases (wait m pending) = inr (inl (m, pending, refl))
Turn-cases (fail m e) = inr (inr (m, e, refl))

-- What a call of `push` that succeeds leaves for the next one.
pub record ParserIsValid (max_header_bytes : ℕ) (p : Parser) : Type 0 where
  pub machine : IsValid max_header_bytes p.machine
  pub bounded : (length p.pending ≤ max_header_bytes) ⊎ (length p.pending ≤ 1)

-- Whatever the outcome, only final responses are reported and the loop did not want fuel; a
-- parser that did not fail is valid.
pub record OutcomeIsValid (max_header_bytes : ℕ) (o : Outcome) : Type 0 where
  pub final : All IsFinal o.completed
  pub ends : o.failure ≢ some out_of_fuel
  pub parser : o.failure ≡ none → ParserIsValid max_header_bytes o.parser

run-OutcomeIsValid :
    (method : String) (max fuel : ℕ) (m : Machine) (input : Bytes)
    → IsValid max m
    → length input ≤ fuel
    → OutcomeIsValid max (run method max fuel m input)
unfolding run
run-OutcomeIsValid method max fuel m [] v h = record {
  final = tt;
  ends = λ e. cc;
  parser = λ _. record { machine = v; bounded = inr (omega arith) };
}
run-OutcomeIsValid method max zero m (b ∷ bs) v h = absurd (omega arith)
run-OutcomeIsValid method max (suc fuel) m (b ∷ bs) v h =
    go (step method max m (b ∷ bs)) (step-TurnIsValid method max m (b ∷ bs) v (omega arith))
      (run-OutcomeIsValid method max fuel)
  where
    go :
        (t : Turn)
        → TurnIsValid max m (b ∷ bs) t
        → ((m' : Machine) (rest : Bytes)
            → IsValid max m'
            → length rest ≤ fuel
            → OutcomeIsValid max (run method max fuel m' rest))
        → OutcomeIsValid max (elim t [
          | advance m' rest done ↦ add_completed done (run method max fuel m' rest)
          | wait m' pending ↦ stopped m' pending none
          | fail m' e ↦ stopped m' [] (some e)
        ])
    go (advance m' rest done) t ih =
        let o = ih m' rest t.0 (omega arith) in
        record {
          final = All-append IsFinal done (run method max fuel m' rest).completed t.1 o.final;
          ends = o.ends;
          parser = o.parser;
        }
    go (wait m' pending) t ih = record {
      final = tt;
      ends = λ e. cc;
      parser = λ _. record { machine = rw t.0 v; bounded = rw t.1 t.2 };
    }
    go (fail m' e) t ih = record {
      final = tt;
      ends = λ same. t (ground arith);
      parser = λ same. absurd (ground arith);
    }

-- `push` on a valid parser ends, reports only responses of status 200 to 599 (never an interim one),
-- and unless it throws leaves a valid parser, which keeps at most `maxHeaderBytes` bytes or one.
pub push-OutcomeIsValid :
    (method : String) (max : ℕ) (p : Parser) (chunk : Bytes)
    → ParserIsValid max p
    → OutcomeIsValid max (push method max p chunk)
unfolding push
push-OutcomeIsValid method max p chunk v =
    run-OutcomeIsValid method max (length (p.pending ++ chunk)) p.machine (p.pending ++ chunk)
      v.machine (omega arith)
