-- ===== src/Load/Worker/Conservation.antt =====
-- src/load/shared/load-worker.ts: what a measurement reports of the operations of its connections.
use benchkit.Load.Worker.Tally.{
  AddsUp, heed_all-AddsUp, flying, flying-set, All-set, All-get, heed_all-memory,
  heed_all-AddsUp_stopped,
}
use benchkit.Prelude.{
  ℕ, ◌+◌, ◌≡◌, refl, true, false, not, Option, none, some, List, [], ◌∷◌, map, get_elem?, bind,
  OnSome, OnSome-bind, OnSome_eq, All, arith, sym, subst, if_both, Yields, Yields-bind,
}
use benchkit.Memory.{MemoryUsage, PeakTracker}
use benchkit.Memory
use benchkit.Load.Effects.{Effect, Settles, sent_in, answered_in, aborted_in, total-append}
use benchkit.Load.Measurement.{Measurement, start, reset, finish}
use benchkit.Load.Worker.{
  measuring, Message, result, Worker, heed_all, fill_each, start_phase, end_phase, stop_each,
  running_from, entered, driven, is_idle,
}
use benchkit.Load.Worker.Traffic.{
  TrafficConnection, IsTraffic, noted, deliver, traffic, Reaches, AllFit,
}

-- The tracker of the memory has been started.
abbrev Watches : PeakTracker → Type 0
Watches t =
    ((started : MemoryUsage) × (t.started ≡ some started))
    × ((peak : MemoryUsage) × (t.peak ≡ some peak))

-- The messages are one result, of operations that add up.
abbrev pub Reports : ℕ → List Message → Type 0
Reports n (result r ∷ []) =
    (r.sent ≡ r.completed + r.errors.aborted + r.in_flight_at_stop) × (r.in_flight_at_stop ≡ n)
Reports n _ = ⊥

finish-Reports :
    (now started_at n : ℕ) (usage : MemoryUsage) (elu_since : ℕ → ℕ) (m : Measurement)
    → AddsUp m n
    → Watches m.memory
    → Yields (λ r. Reports n (result r.0 ∷ [])) (finish now started_at n usage elu_since m)
unfolding finish Memory.stop
finish-Reports now started_at n usage elu_since m h k = rw (k.0.1, k.1.1) (h, refl)

module _ {C E : Type 0} (ops : TrafficConnection C E) where
  module _ (Good : C → Type 0) (Fits : E → C → Type 0) (laws : IsTraffic ops Good Fits) where
    -- A worker in its measurement.
    record IsMeasuring (w : Worker C) : Type 0 where
      phase : w.phase ≡ measuring
      running : w.running ≡ true
      sound : All Good w.connections
      adds : AddsUp w.measurement (flying ops.phase w.connections)
      watched : Watches w.measurement.memory

    noted-IsMeasuring :
        (bucket_of : ℕ → ℕ) (w : Worker C) (now index : ℕ) (c : C) (r : C × List Effect)
        → IsMeasuring w
        → get_elem? w.connections index ≡ some c
        → Good r.0 × Settles (ops.phase.in_flight c) r.1 (ops.phase.in_flight r.0)
        → IsMeasuring (noted ops bucket_of w now index r)
    noted-IsMeasuring bucket_of w now index c r h e k = record {
      phase = h.phase;
      running = h.running;
      sound = All-set Good w.connections index r.0 h.sound k.0;
      adds =
          heed_all-AddsUp bucket_of w.running now (flying ops.phase w.connections) _ r.1
            w.measurement h.running h.adds
            (omega (arith, k.1, flying-set ops.phase w.connections index c r.0 e));
      watched =
          subst Watches (sym (heed_all-memory bucket_of w.running now r.1 w.measurement)) h.watched;
    }

    deliver-IsMeasuring :
        (bucket_of : ℕ → ℕ) (index : ℕ) (e : E) (w : Worker C)
        → IsMeasuring w
        → Reaches ops bucket_of Fits e (get_elem? w.connections index)
        → OnSome IsMeasuring (deliver ops bucket_of index e w)
    unfolding deliver
    deliver-IsMeasuring bucket_of index e w h f = from (get_elem? w.connections index) refl f
      where
        from :
            (o : Option C)
            → get_elem? w.connections index ≡ o
            → Reaches ops bucket_of Fits e o
            → OnSome IsMeasuring (elim o [
              | none ↦ some w
              | some c ↦ bind (ops.step e c) λ r. some (noted ops bucket_of w (ops.time e) index r)
            ])
        from none e' g = h
        from (some c) e' g =
            OnSome-bind _ IsMeasuring (ops.step e c) _
              (laws.steps e c (All-get Good w.connections index c h.sound e') g)
              λ r k. noted-IsMeasuring bucket_of w (ops.time e) index c r h e' k

    traffic-IsMeasuring :
        (bucket_of : ℕ → ℕ) (es : List (ℕ × E)) (w : Worker C)
        → IsMeasuring w
        → AllFit ops bucket_of Fits es w
        → OnSome IsMeasuring (traffic ops bucket_of es w)
    unfolding traffic
    traffic-IsMeasuring bucket_of [] w h f = h
    traffic-IsMeasuring bucket_of ((index, e) ∷ es) w h f =
        chained (deliver ops bucket_of index e w) (deliver-IsMeasuring bucket_of index e w h f.0)
          f.1 (traffic-IsMeasuring bucket_of es)
      where
        chained :
            (o : Option (Worker C))
            → OnSome IsMeasuring o
            → OnSome (λ w'. AllFit ops bucket_of Fits es w') o
            → ((w' : Worker C)
                → IsMeasuring w'
                → AllFit ops bucket_of Fits es w'
                → OnSome IsMeasuring (traffic ops bucket_of es w'))
            → OnSome IsMeasuring (bind o λ w'. traffic ops bucket_of es w')
        chained none k g rest = tt
        chained (some w') k g rest = rest w' k g

    fill_each_lem :
        (cs : List C)
        → All Good cs
        → OnSome
            (λ r. All Good r.0 × Settles (flying ops.phase cs) r.1 (flying ops.phase r.0))
            (fill_each ops.phase cs)
    fill_each_lem [] h = (tt, refl)
    fill_each_lem (c ∷ cs) h =
        OnSome-bind _ _ (ops.phase.fill_closed_loop c) _ (laws.fills c h.0) λ r k.
          OnSome-bind _ _ (fill_each ops.phase cs) _ (fill_each_lem cs h.1) λ r' k'. (
            (k.0, k'.0),
            omega (
              arith,
              k.1,
              k'.1,
              total-append sent_in r.1 r'.1,
              total-append answered_in r.1 r'.1,
              total-append aborted_in r.1 r'.1,
            ),
          )

    reset_each_lem :
        (cs : List C)
        → All Good cs
        → flying ops.phase cs ≡ 0
        → All Good (map ops.phase.reset_phase_state cs)
          × (flying ops.phase (map ops.phase.reset_phase_state cs) ≡ 0)
    reset_each_lem [] h e = (tt, refl)
    reset_each_lem (c ∷ cs) h e =
        let k = laws.resets c h.0 (omega (arith, e)) in
        let k' = reset_each_lem cs h.1 (omega (arith, e)) in ((k.0, k'.0), omega (arith, k.1, k'.1))

    begun-IsMeasuring :
        (bucket_of : ℕ → ℕ) (now elu : ℕ) (usage : MemoryUsage) (duration : ℕ) (w : Worker C)
        → All Good w.connections
        → flying ops.phase w.connections ≡ 0
        → IsMeasuring (
            running_from ops.phase bucket_of now elu usage duration
              (entered ops.phase bucket_of now false w))
    unfolding start reset Memory.start
    begun-IsMeasuring bucket_of now elu usage duration w h e =
        let k = reset_each_lem w.connections h e in
        record {
          phase = refl;
          running = refl;
          sound = k.0;
          adds = omega (arith, k.1);
          watched = ((usage, refl), (usage, refl));
        }

    driven-IsMeasuring :
        (bucket_of : ℕ → ℕ) (now : ℕ) (w : Worker C)
        → IsMeasuring w
        → OnSome IsMeasuring (driven ops.phase bucket_of now w)
    driven-IsMeasuring bucket_of now w h =
        if_both (OnSome IsMeasuring) w.fixed_rate {x = some (record w { rate_timer = true })}
          (record {
            phase = h.phase;
            running = h.running;
            sound = h.sound;
            adds = h.adds;
            watched = h.watched;
          })
          (OnSome-bind _ IsMeasuring (fill_each ops.phase w.connections) _
            (fill_each_lem w.connections h.sound)
            λ r k. record {
              phase = h.phase;
              running = h.running;
              sound = k.0;
              adds = heed_all-AddsUp bucket_of true now _ _ r.1 w.measurement refl h.adds k.1;
              watched =
                  subst Watches (sym (heed_all-memory bucket_of true now r.1 w.measurement))
                    h.watched;
            })

    start_phase-IsMeasuring :
        (bucket_of : ℕ → ℕ) (now elu : ℕ) (usage : MemoryUsage) (duration : ℕ) (w : Worker C)
        → All Good w.connections
        → flying ops.phase w.connections ≡ 0
        → OnSome IsMeasuring (start_phase ops.phase bucket_of now false elu usage duration w)
    unfolding start_phase
    start_phase-IsMeasuring bucket_of now elu usage duration w h e =
        let begun =
          running_from ops.phase bucket_of now elu usage duration
            (entered ops.phase bucket_of now false w) in
        if_both (OnSome IsMeasuring) (not (is_idle w.phase)) {x = none} tt (
          OnSome-bind IsMeasuring IsMeasuring (driven ops.phase bucket_of now begun) _
            (driven-IsMeasuring bucket_of now begun
              (begun-IsMeasuring bucket_of now elu usage duration w h e))
            λ w' k. record {
              phase = k.phase;
              running = k.running;
              sound = k.sound;
              adds = k.adds;
              watched = k.watched;
            })

    end_phase-Reports :
        (bucket_of : ℕ → ℕ) (now : ℕ) (usage : MemoryUsage) (elu_since : ℕ → ℕ) (w : Worker C)
        → IsMeasuring w
        → Yields
            (λ r. Reports (flying ops.phase w.connections) r.1)
            (end_phase ops.phase bucket_of now usage elu_since w)
    unfolding end_phase
    end_phase-Reports bucket_of now usage elu_since w h = rw h.phase (
        Yields-bind (λ r. Reports (flying ops.phase w.connections) (result r.0 ∷ [])) _
          (finish now w.started_at (flying ops.phase w.connections) usage elu_since
            (heed_all bucket_of false now stopped w.measurement))
          _
          (finish-Reports now w.started_at (flying ops.phase w.connections) usage elu_since _
            (heed_all-AddsUp_stopped bucket_of now _ stopped w.measurement h.adds)
            (subst Watches (sym (heed_all-memory bucket_of false now stopped w.measurement))
              h.watched))
          λ r k. k)
      where
        stopped : List Effect
        stopped = (stop_each ops.phase w.connections).1

    -- A measurement that starts with nothing in flight and reaches its end through any events of its
    -- connections, each of which fits the connection that it reaches, and none of which throws,
    -- posts one result; in it the operations sent are those completed, those aborted and those in
    -- flight at the stop, and the last are all that its connections then have in flight.
    pub measurement_conserves :
        (bucket_of : ℕ → ℕ) (started stopped elu : ℕ) (usage usage' : MemoryUsage) (duration : ℕ)
        (elu_since : ℕ → ℕ) (es : List (ℕ × E)) (w w' w'' : Worker C)
        → All Good w.connections
        → flying ops.phase w.connections ≡ 0
        → start_phase ops.phase bucket_of started false elu usage duration w ≡ some w'
        → AllFit ops bucket_of Fits es w'
        → traffic ops bucket_of es w' ≡ some w''
        → Yields
            (λ r. Reports (flying ops.phase w''.connections) r.1)
            (end_phase ops.phase bucket_of stopped usage' elu_since w'')
    measurement_conserves bucket_of started stopped elu usage usage' duration elu_since es w w' w''
          good quiet begins fits runs =
        let h =
          OnSome_eq IsMeasuring (start_phase ops.phase bucket_of started false elu usage duration w)
            (start_phase-IsMeasuring bucket_of started elu usage duration w good quiet) begins in
        let k =
          OnSome_eq IsMeasuring (traffic ops bucket_of es w')
            (traffic-IsMeasuring bucket_of es w' h fits) runs in
        end_phase-Reports bucket_of stopped usage' elu_since w'' k
