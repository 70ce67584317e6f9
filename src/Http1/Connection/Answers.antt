-- ===== src/Http1/Connection/Answers.antt =====
-- src/load/http1/http1-connection.ts: what the responses of one chunk leave.
use benchkit.Http1.Connection.Neutral.{shift-size}
use benchkit.Prelude.{
  ℕ, ◌+◌, ◌≤◌, if◌then◌else◌, ◌≡◌, refl, inl, inr, Bool, true, sym, subst, false, none, some, List,
  [], ◌∷◌, ◌++◌, arith, Option-cases, OnSome_eq, ◌∙◌,
}
use benchkit.Timestamps
use benchkit.Timestamps.{TimestampQueue, capacity}
use benchkit.Timestamps.Invariant
use benchkit.Timestamps.Invariant.{shift-IsValid, clear-IsValid, new-IsValid}
use benchkit.Load.Effects.{OwnerView, protocol_error, response, can_continue_closed_loop}
use benchkit.Http1.Connection.{WorkerData, Connection, in_flight, destroy, respond}

-- The answers of `respond` leave room for the requests that it counts.
pub record Answers (d : WorkerData) (c c' : Connection) (count : ℕ) : Type 0 where
  pub valid : Invariant.IsValid c'.timestamps
  pub sized : capacity c'.timestamps ≡ d.pipelining
  pub held : in_flight c' + count ≤ in_flight c
  pub same_batch : c'.rate_batch ≡ c.rate_batch
  pub same_pending : c'.pending_closed_loop ≡ c.pending_closed_loop
  pub same_connected : c'.is_connected ≡ c.is_connected

module _ (d : WorkerData) (view : OwnerView) (now : ℕ) where
  -- A response makes room for the one request that it may ask for.
  counted :
      (b : Bool) (left n shifted size : ℕ)
      → left + n ≤ shifted
      → shifted + 1 ≡ size
      → left + ((if b then 1 else 0) + n) ≤ size
  counted true left n shifted size h e = omega (arith, h, e)
  counted false left n shifted size h e = omega (arith, h, e)

  respond-none :
      (status : ℕ) (more : List ℕ) (c : Connection)
      → (Timestamps.shift c.timestamps).0 ≡ none
      → let r = respond d view now more (record c { protocol_failure = true }) in
        respond d view now (status ∷ more) c
        ≡ (r.0, protocol_error ∷ (destroy c.socket ++ r.1), r.2)
  unfolding respond
  respond-none status more c e = ground (arith, e)

  respond-some :
      (status : ℕ) (more : List ℕ) (c : Connection) (at : ℕ)
      → (Timestamps.shift c.timestamps).0 ≡ some at
      → let r =
          respond d view now more (record c { timestamps = (Timestamps.shift c.timestamps).1 }) in
        respond d view now (status ∷ more) c ≡ (
          r.0,
          response status at ∷ r.1,
          (if can_continue_closed_loop view now then 1 else 0) + r.2,
        )
  unfolding respond
  respond-some status more c at e = ground (arith, e)

  pub respond-Answers :
      (completed : List ℕ) (c : Connection)
      → Invariant.IsValid c.timestamps
      → capacity c.timestamps ≡ d.pipelining
      → let r = respond d view now completed c in Answers d c r.0 r.2
  unfolding respond
  respond-Answers [] c v e = record {
    valid = v;
    sized = e;
    held = omega arith;
    same_batch = refl;
    same_pending = refl;
    same_connected = refl;
  }
  respond-Answers (status ∷ more) c v e = elim (Option-cases (Timestamps.shift c.timestamps).0) [
    | inl none_left ↦
        let k = respond-Answers more (record c { protocol_failure = true }) v e in
        subst (λ r. Answers d c r.0 r.2) (sym (respond-none status more c none_left))
          (record {
            valid = k.valid;
            sized = k.sized;
            held = k.held;
            same_batch = k.same_batch;
            same_pending = k.same_pending;
            same_connected = k.same_connected;
          })
    | inr (at, found) ↦
        let kept = shift-IsValid c.timestamps v in
        let k =
          respond-Answers more (record c { timestamps = (Timestamps.shift c.timestamps).1 }) kept.0
            (kept.1 ∙ e) in
        let smaller =
          OnSome_eq (λ _. (Timestamps.shift c.timestamps).1.size + 1 ≡ c.timestamps.size)
            (Timestamps.shift c.timestamps).0 (shift-size c.timestamps) found in
        subst (λ r. Answers d c r.0 r.2) (sym (respond-some status more c at found))
          (record {
            valid = k.valid;
            sized = k.sized;
            held = counted (can_continue_closed_loop view now) _ _ _ _ k.held smaller;
            same_batch = k.same_batch;
            same_pending = k.same_pending;
            same_connected = k.same_connected;
          })
  ]
