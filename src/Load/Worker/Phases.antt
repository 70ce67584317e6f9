-- ===== src/Load/Worker/Phases.antt =====
-- src/load/shared/load-worker.ts: a worker over any sequence of events.
use benchkit.Prelude.{
  ℕ, ◌+◌, ◌≤◌, ◌≡◌, refl, true, false, some, List, [], ◌∷◌, ◌++◌, arith, OnSome, OnSome-bind,
  OnSome_eq,
}
use benchkit.Load.Worker.{Message, PhaseConnection, Worker}
use benchkit.Load.Worker.Events.{
  Event, is_finished, results_in, readies_in, as_number, IsValid, handle, run, Advances,
}
use benchkit.Load.Worker.Advances.{stays, handle-Advances}

results_in-append : (ms ns : List Message) → results_in (ms ++ ns) ≡ results_in ms + results_in ns
results_in-append [] ns = omega arith
results_in-append (m ∷ ms) ns = ground (arith, results_in-append ms ns)

readies_in-append : (ms ns : List Message) → readies_in (ms ++ ns) ≡ readies_in ms + readies_in ns
readies_in-append [] ns = omega arith
readies_in-append (m ∷ ms) ns = ground (arith, readies_in-append ms ns)

module _ {C : Type 0} (ops : PhaseConnection C) (bucket_of : ℕ → ℕ) where
  run-Advances :
      (es : List (ℕ × Event)) (w : Worker C)
      → IsValid w
      → OnSome (Advances w) (run ops bucket_of es w)
  unfolding run
  run-Advances [] w h = stays ops bucket_of w w h refl refl
  run-Advances ((now, e) ∷ es) w h =
      OnSome-bind (Advances w) (Advances w) (handle ops bucket_of now e w) _
        (handle-Advances ops bucket_of now e w h)
        λ r k.
          OnSome-bind (Advances (r.0)) (Advances w) (run ops bucket_of es r.0) _
            (run-Advances es r.0 k.valid)
            λ r' k'. record {
              valid = k'.valid;
              closes = omega (arith, k.closes, k'.closes, results_in-append r.1 r'.1);
              readies = omega (arith, k.readies, k'.readies, readies_in-append r.1 r'.1);
            }

  -- Over any sequence of events that throws nothing, a valid worker that has not reported ready stays
  -- valid; it posts at most one result, and has finished when it did; and it reports ready once if it
  -- has noted so, and else never.
  pub run_posts_once :
      (es : List (ℕ × Event)) (w w' : Worker C) (ms : List Message)
      → IsValid w
      → w.ready_sent ≡ false
      → run ops bucket_of es w ≡ some (w', ms)
      → IsValid w'
        × (results_in ms ≤ 1)
        × (results_in ms ≡ 1 → is_finished w'.phase ≡ true)
        × (readies_in ms ≡ as_number w'.ready_sent)
  run_posts_once es w w' ms h fresh e =
      let k = OnSome_eq (Advances w) (run ops bucket_of es w) (run-Advances es w h) e in
      (
        k.valid,
        ground (arith, k.closes),
        (λ one. ground (arith, one, k.closes)),
        ground (arith, k.readies, fresh),
      )
