-- ===== src/Http1/Parser/Stream.antt =====
-- src/load/http1/response-parser.ts: a stream of chunks, as the connection hands them to `push`.
use mathlib.Core.List.{flatten}
use Prim.Native.String.{String}
use benchkit.Prelude.{
  ℕ, ◌≡◌, sym, ap, ◌∙◌, Option, none, some, List, [], ◌∷◌, append-nil, arith, Option-cases, inl,
  inr,
}
use benchkit.Http1.Bytes.{Bytes}
use benchkit.Http1.Framing.{ParseError}
use benchkit.Http1.Parser.{Parser, Outcome, add_completed, push}
use benchkit.Http1.Parser.Run.{ParserIsValid, push-OutcomeIsValid}
use benchkit.Http1.Parser.Segments.{push-append}

abbrev or_later : Option ParseError → Outcome → Outcome → Outcome
or_later none o later = add_completed o.completed later
or_later (some e) o later = o

-- The chunks in turn. After a throw the connection destroys its socket and pushes no more.
unfoldable pub push_all : String → ℕ → Parser → Bytes → List Bytes → Outcome
push_all method max p chunk [] = push method max p chunk
push_all method max p chunk (next ∷ more) =
    let o = push method max p chunk in
    let later = push_all method max o.parser next more in or_later o.failure o later

-- A stream that is accepted chunk by chunk is accepted as one chunk, with the same responses in the
-- same order and the same parser at the end.
pub push_all-eq-push :
    (method : String) (max : ℕ) (p : Parser) (chunk : Bytes) (more : List Bytes)
    → ParserIsValid max p
    → (push_all method max p chunk more).failure ≡ none
    → push_all method max p chunk more ≡ push method max p (flatten (chunk ∷ more))
unfolding push_all flatten
push_all-eq-push method max p chunk [] v e = ap (push method max p) (sym (append-nil chunk))
push_all-eq-push method max p chunk (next ∷ more) v e =
    elim (Option-cases (push method max p chunk).failure) [
      | inl fine ↦
          let o = push method max p chunk in
          rw fine (
            ap (add_completed o.completed) (
              push_all-eq-push method max o.parser next more
                ((push-OutcomeIsValid method max p chunk v).parser fine) (rw (fine, push_all) at e))
            ∙ sym (push-append method max p chunk (flatten (next ∷ more)) v fine))
      | inr (why, bad) ↦ absurd (ground arith)
    ]
