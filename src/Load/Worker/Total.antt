-- ===== src/Load/Worker/Total.antt =====
-- src/load/shared/load-worker.ts: the errors of a worker's events, and the memory that a phase tracks.
use benchkit.Prelude.{
  ◌||◌, ℕ, ◌+◌, ◌-◌, ◌≡◌, refl, Bool, true, false, not, ◌&&◌, ◌==◌, Option, none, some, List, [],
  ◌∷◌, arith, ap, ◌∙◌, OnSome-any, OnSome, if_both, OnSome-bind, Yields, Yields-bind, ◌≤◌, ◌⊎◌,
}
use benchkit.Memory
use benchkit.Memory.{MemoryUsage, PeakTracker}
use benchkit.Load.Measurement.{Measurement, start, finish}
use benchkit.Load.Worker.{
  WorkerPhase, warmup, warmup_draining, measuring, finished, Message, PhaseConnection, Worker,
  is_draining, on_connected, maybe_complete_warmup, on_disconnected, fill_each, total_in_flight,
  fail, on_abort, is_idle, driven, running_from, entered, start_phase, or_fail, on_start,
  stop_connections, concluded, halted, ended_in, end_phase, stop_each,
}
use benchkit.Load.Worker.Events.{
  Event, connects, disconnects, idles, starts, ends, aborts, fails, is_active, handle, run, IsValid,
  is_finished, results_in, readies_in, as_number,
}
use benchkit.Load.Worker.Phases.{run_posts_once}
use benchkit.Load.Worker.Tally.{heed_all-memory}

abbrev is_given {ℓ} : {A : Type ℓ} → Option A → Bool
is_given none = false
is_given (some a) = true

-- the tracker has a start and a peak
abbrev pub is_tracking : PeakTracker → Bool
is_tracking t = is_given t.started && is_given t.peak

-- In a phase that runs, the memory is tracked.
abbrev pub Tracks : {C : Type 0} → Worker C → Type 0
Tracks w = is_active w.phase ≡ true → is_tracking w.measurement.memory ≡ true

finish-Yields :
    (now started_at in_flight : ℕ) (usage : MemoryUsage) (elu_since : ℕ → ℕ) (m : Measurement)
    → is_tracking m.memory ≡ true
    → Yields (λ r. Unit {0}) (finish now started_at in_flight usage elu_since m)
unfolding finish Memory.stop
finish-Yields now started_at in_flight usage elu_since m h = ground (arith, h)

module _ {C : Type 0} (ops : PhaseConnection C) (bucket_of : ℕ → ℕ) where
  maybe_complete_warmup-Tracks : (w : Worker C) → Tracks w → Tracks (maybe_complete_warmup ops w).0
  unfolding maybe_complete_warmup
  maybe_complete_warmup-Tracks w h =
      if_both (λ (r : Worker C × List Message). Tracks r.0)
        (not (is_draining w.phase) || not (total_in_flight ops w.connections == 0)) h
        (λ active. absurd cc)

  driven-Tracks :
      (now : ℕ) (w : Worker C)
      → is_tracking w.measurement.memory ≡ true
      → OnSome Tracks (driven ops bucket_of now w)
  driven-Tracks now w h =
      if_both (OnSome Tracks) w.fixed_rate (λ active. h)
        (OnSome-bind (λ _. Unit {0}) Tracks (fill_each ops w.connections) _
          (OnSome-any (fill_each ops w.connections))
          λ r _ active. ap is_tracking (heed_all-memory bucket_of true now r.1 w.measurement) ∙ h)

  start_phase-Tracks :
      (now : ℕ) (is_warmup : Bool) (elu : ℕ) (usage : MemoryUsage) (duration : ℕ) (w : Worker C)
      → OnSome Tracks (start_phase ops bucket_of now is_warmup elu usage duration w)
  unfolding start_phase start Memory.start
  start_phase-Tracks now is_warmup elu usage duration w =
      if_both (OnSome Tracks) (not (is_idle w.phase)) tt (
        OnSome-bind Tracks Tracks
          (driven ops bucket_of now (
            running_from ops bucket_of now elu usage duration
              (entered ops bucket_of now is_warmup w)))
          _
          (driven-Tracks now
            (running_from ops bucket_of now elu usage duration
              (entered ops bucket_of now is_warmup w))
            refl)
          λ w' k. k)

  or_fail-Tracks :
      (now : ℕ) (o : Option (Worker C)) (w : Worker C)
      → OnSome Tracks o
      → Tracks (or_fail ops bucket_of now o w).0
  unfolding fail
  or_fail-Tracks now none w h = λ active. absurd cc
  or_fail-Tracks now (some w') w h = h

  concluded-Tracks :
      (now : ℕ) (usage : MemoryUsage) (elu_since : ℕ → ℕ) (w : Worker C)
      → is_tracking w.measurement.memory ≡ true
      → Yields (λ r. Tracks r.0) (concluded ops bucket_of now usage elu_since w)
  concluded-Tracks now usage elu_since w h =
      let w' = stop_connections ops bucket_of now (record w { phase = finished }) in
      let es = (stop_each ops w.connections).1 in
      let tracked : is_tracking w'.measurement.memory ≡ true =
        ap is_tracking (heed_all-memory bucket_of w.running now es w.measurement) ∙ h in
      Yields-bind (λ _. Unit {0}) (λ (r : Worker C × List Message). Tracks r.0)
        (finish now w.started_at (total_in_flight ops w.connections) usage elu_since w'.measurement)
        _
        (finish-Yields now w.started_at (total_in_flight ops w.connections) usage elu_since
          w'.measurement tracked)
        λ r _ active. absurd cc

  ended_in-Tracks :
      (now : ℕ) (usage : MemoryUsage) (elu_since : ℕ → ℕ) (p : WorkerPhase) (w : Worker C)
      → w.phase ≡ p
      → Tracks w
      → Yields (λ r. Tracks r.0) (ended_in ops bucket_of now usage elu_since p w)
  ended_in-Tracks now usage elu_since warmup w e h =
      maybe_complete_warmup-Tracks (record (halted ops bucket_of now w) { phase = warmup_draining })
        λ active. absurd cc
  ended_in-Tracks now usage elu_since measuring w e h =
      concluded-Tracks now usage elu_since (halted ops bucket_of now w) (h (ap is_active e))
  ended_in-Tracks now usage elu_since _ w e h = h

  handle-Tracks :
      (now : ℕ) (e : Event) (w : Worker C)
      → Tracks w
      → Yields (λ r. Tracks r.0) (handle ops bucket_of now e w)
  unfolding handle on_connected on_disconnected on_start end_phase on_abort fail
  handle-Tracks now connects w h =
      if_both (λ (r : Worker C × List Message). Tracks r.0)
        (not w.ready_sent && (w.connected + 1 == w.connection_count)) h h
  handle-Tracks now disconnects w h =
      if_both (λ (r : Worker C × List Message). Tracks r.0) (is_draining w.phase)
        (maybe_complete_warmup-Tracks (record w { connected = w.connected - 1 }) h) h
  handle-Tracks now idles w h =
      if_both (λ (r : Worker C × List Message). Tracks r.0) (is_draining w.phase)
        (maybe_complete_warmup-Tracks w h) h
  handle-Tracks now (starts is_warmup elu usage duration) w h =
      or_fail-Tracks now (start_phase ops bucket_of now is_warmup elu usage duration w) w
        (start_phase-Tracks now is_warmup elu usage duration w)
  handle-Tracks now (ends usage elu_since) w h =
      ended_in-Tracks now usage elu_since w.phase w refl h
  handle-Tracks now aborts w h = λ active. absurd cc
  handle-Tracks now fails w h = λ active. absurd cc

  run-Tracks :
      (es : List (ℕ × Event)) (w : Worker C)
      → Tracks w
      → Yields (λ r. Tracks r.0) (run ops bucket_of es w)
  unfolding run
  run-Tracks [] w h = h
  run-Tracks ((now, e) ∷ es) w h =
      Yields-bind (λ (r : Worker C × List Message). Tracks r.0)
        (λ (r : Worker C × List Message). Tracks r.0) (handle ops bucket_of now e w) _
        (handle-Tracks now e w h)
        λ r k.
          Yields-bind (λ (r' : Worker C × List Message). Tracks r'.0)
            (λ (r' : Worker C × List Message). Tracks r'.0) (run ops bucket_of es r.0) _
            (run-Tracks es r.0 k) λ r' k'. k'

  -- Over any sequence of events a valid worker that is in no phase and has not reported ready throws
  -- nothing and stays valid; it posts at most one result, and has finished when it did; and it
  -- reports ready once if it has noted so, and else never.
  pub worker_posts_once :
      (es : List (ℕ × Event)) (w : Worker C)
      → IsValid w
      → w.ready_sent ≡ false
      → is_active w.phase ≡ false
      → (w' : Worker C) × (ms : List Message) × (run ops bucket_of es w ≡ some (w', ms))
        × IsValid w'
        × (results_in ms ≤ 1)
        × ((results_in ms ≡ 0) ⊎ (is_finished w'.phase ≡ true))
        × (readies_in ms ≡ as_number w'.ready_sent)
  worker_posts_once es w valid fresh quiet =
      from (run ops bucket_of es w) refl (run-Tracks es w λ active. absurd cc)
    where
      from :
          (o : Option (Worker C × List Message))
          → run ops bucket_of es w ≡ o
          → Yields (λ r. Tracks r.0) o
          → (w' : Worker C) × (ms : List Message) × (run ops bucket_of es w ≡ some (w', ms))
            × IsValid w'
            × (results_in ms ≤ 1)
            × ((results_in ms ≡ 0) ⊎ (is_finished w'.phase ≡ true))
            × (readies_in ms ≡ as_number w'.ready_sent)
      from none e h = absurd h
      from (some (w', ms)) e h =
          let k = run_posts_once ops bucket_of es w w' ms valid fresh e in
          (w', ms, e, k.0, k.1, ground (arith, k.1, k.2), k.3)
