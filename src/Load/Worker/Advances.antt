-- ===== src/Load/Worker/Advances.antt =====
-- src/load/shared/load-worker.ts: what an event makes of a worker.
use benchkit.Prelude.{
  ℕ, ◌-◌, ◌≡◌, refl, Bool, true, false, not, ◌==◌, [], arith, sym, ◌∙◌, OnSome-any, OnSome, if_both,
  OnSome-bind, Bool-cases, inl, inr, List, ◌∷◌, Option, none, some,
}
use benchkit.Memory.{MemoryUsage}
use benchkit.Load.Measurement.{finish}
use benchkit.Load.Worker.{
  WorkerPhase, warmup, warmup_draining, measuring, PhaseConnection, Worker, is_draining,
  on_connected, maybe_complete_warmup, on_disconnected, fill_each, total_in_flight, fail, on_abort,
  is_idle, driven, running_from, entered, start_phase, concluded, halted, ended_in, end_phase,
  Message, fatal, shut_down, or_fail, on_start,
}
use benchkit.Load.Worker.Events.{
  Event, connects, disconnects, idles, starts, ends, aborts, fails, is_active, IsValid, handle,
  Advances, results_in, readies_in,
}

module _ {C : Type 0} (ops : PhaseConnection C) (bucket_of : ℕ → ℕ) where
  pub stays :
      (w w' : Worker C)
      → IsValid w'
      → w'.phase ≡ w.phase
      → w'.ready_sent ≡ w.ready_sent
      → Advances w (w', [])
  stays w w' h e s = record { valid = h; closes = ground (arith, e); readies = ground (arith, s) }

  maybe_complete_warmup-Advances :
      (w : Worker C) → IsValid w → Advances w (maybe_complete_warmup ops w)
  unfolding maybe_complete_warmup
  maybe_complete_warmup-Advances w h = elim (Bool-cases (is_draining w.phase)) [
    | inl e ↦ rw e (
        if_both (Advances w) (not (total_in_flight ops w.connections == 0)) (stays w w h refl refl)
          (record {
            valid = record {
              runs = ground (arith, h.runs, e);
              stop_timed = h.stop_timed;
              rate_timed = h.rate_timed;
              memory_timed = h.memory_timed;
              port = ground (arith, h.port, e);
            };
            closes = ground (arith, e);
            readies = omega arith;
          }))
    | inr e ↦ rw e (stays w w h refl refl)
  ]

  -- What a phase's start has made of the worker before its stop timer is set.
  record Started (w w' : Worker C) : Type 0 where
    runs : w'.running ≡ true
    active : is_active w'.phase ≡ true
    memory_timed : w'.memory_timer ≡ true
    same_port : w'.port_open ≡ w.port_open
    same_ready : w'.ready_sent ≡ w.ready_sent

  driven-Started :
      (now : ℕ) (w w' : Worker C) → Started w w' → OnSome (Started w) (driven ops bucket_of now w')
  driven-Started now w w' h =
      if_both (OnSome (Started w)) w'.fixed_rate
        (record {
          runs = h.runs;
          active = h.active;
          memory_timed = h.memory_timed;
          same_port = h.same_port;
          same_ready = h.same_ready;
        })
        (OnSome-bind (λ _. Unit {0}) (Started w) (fill_each ops w'.connections) _
          (OnSome-any (fill_each ops w'.connections))
          λ r _. record {
            runs = h.runs;
            active = h.active;
            memory_timed = h.memory_timed;
            same_port = h.same_port;
            same_ready = h.same_ready;
          })

  entered-Started :
      (now : ℕ) (is_warmup : Bool) (elu : ℕ) (usage : MemoryUsage) (duration : ℕ) (w : Worker C)
      → Started w (
          running_from ops bucket_of now elu usage duration (entered ops bucket_of now is_warmup w))
  entered-Started now true elu usage duration w = record {
    runs = refl;
    active = refl;
    memory_timed = refl;
    same_port = refl;
    same_ready = refl;
  }
  entered-Started now false elu usage duration w = record {
    runs = refl;
    active = refl;
    memory_timed = refl;
    same_port = refl;
    same_ready = refl;
  }

  shut_down-Advances :
      (now : ℕ) (ms : List Message) (w : Worker C)
      → results_in ms ≡ 0
      → readies_in ms ≡ 0
      → Advances w (shut_down ops bucket_of now w, ms)
  shut_down-Advances now ms w no_result no_ready = record {
    valid = record {
      runs = refl;
      stop_timed = refl;
      rate_timed = λ _. refl;
      memory_timed = refl;
      port = refl;
    };
    closes = omega (arith, no_result);
    readies = omega (arith, no_ready);
  }

  or_fail-Advances :
      (now : ℕ) (o : Option (Worker C)) (w : Worker C)
      → OnSome (λ w'. Advances w (w', [])) o
      → Advances w (or_fail ops bucket_of now o w)
  unfolding fail
  or_fail-Advances now none w h = shut_down-Advances now (fatal ∷ []) w refl refl
  or_fail-Advances now (some w') w h = h

  start_phase-Advances :
      (now : ℕ) (is_warmup : Bool) (elu : ℕ) (usage : MemoryUsage) (duration : ℕ) (w : Worker C)
      → IsValid w
      → OnSome
          (λ w'. Advances w (w', []))
          (start_phase ops bucket_of now is_warmup elu usage duration w)
  unfolding start_phase
  start_phase-Advances now is_warmup elu usage duration w h = elim (Bool-cases (is_idle w.phase)) [
    | inr e ↦ rw e tt
    | inl e ↦
        let w' =
          running_from ops bucket_of now elu usage duration
            (entered ops bucket_of now is_warmup w) in
        rw e (
          OnSome-bind (Started w) (λ w''. Advances w (w'', [])) (driven ops bucket_of now w') _
            (driven-Started now w w' (entered-Started now is_warmup elu usage duration w))
            λ w'' k. record {
              valid = record {
                runs = ground (arith, k.runs, k.active);
                stop_timed = ground (arith, k.runs);
                rate_timed = λ stopped. absurd (ground (arith, stopped, k.runs));
                memory_timed = ground (arith, k.memory_timed, k.runs);
                port = ground (arith, k.same_port, h.port, e, k.active);
              };
              closes = ground (arith, e);
              readies = ground (arith, k.same_ready);
            })
  ]

  concluded-Advances :
      (now : ℕ) (usage : MemoryUsage) (elu_since : ℕ → ℕ) (w w' : Worker C)
      → w.phase ≡ measuring
      → w'.running ≡ false
      → w'.stop_timer ≡ false
      → w'.rate_timer ≡ false
      → w'.memory_timer ≡ false
      → w'.ready_sent ≡ w.ready_sent
      → OnSome (Advances w) (concluded ops bucket_of now usage elu_since w')
  concluded-Advances now usage elu_since w w' p r st rt mt s =
      OnSome-bind (λ _. Unit {0}) (Advances w) (finish now _ _ usage elu_since _) _
        (OnSome-any (finish now _ _ usage elu_since _))
        λ q _. record {
          valid = record {
            runs = r;
            stop_timed = st ∙ sym r;
            rate_timed = λ _. rt;
            memory_timed = mt ∙ sym r;
            port = refl;
          };
          closes = ground (arith, p);
          readies = ground (arith, s);
        }

  ended_in-Advances :
      (now : ℕ) (usage : MemoryUsage) (elu_since : ℕ → ℕ) (p : WorkerPhase) (w : Worker C)
      → IsValid w
      → w.phase ≡ p
      → OnSome (Advances w) (ended_in ops bucket_of now usage elu_since p w)
  ended_in-Advances now usage elu_since warmup w h e =
      let k =
        maybe_complete_warmup-Advances
          (record (halted ops bucket_of now w) { phase = warmup_draining })
          (record {
            runs = refl;
            stop_timed = refl;
            rate_timed = λ _. refl;
            memory_timed = refl;
            port = ground (arith, h.port, e);
          }) in
      record { valid = k.valid; closes = ground (arith, k.closes, e); readies = k.readies }
  ended_in-Advances now usage elu_since measuring w h e =
      concluded-Advances now usage elu_since w (halted ops bucket_of now w) e refl refl refl refl
        refl
  ended_in-Advances now usage elu_since _ w h e = stays w w h refl refl

  end_phase-Advances :
      (now : ℕ) (usage : MemoryUsage) (elu_since : ℕ → ℕ) (w : Worker C)
      → IsValid w
      → OnSome (Advances w) (end_phase ops bucket_of now usage elu_since w)
  unfolding end_phase
  end_phase-Advances now usage elu_since w h =
      ended_in-Advances now usage elu_since w.phase w h refl

  pub handle-Advances :
      (now : ℕ) (e : Event) (w : Worker C)
      → IsValid w
      → OnSome (Advances w) (handle ops bucket_of now e w)
  unfolding handle on_connected on_disconnected on_abort fail on_start
  handle-Advances now connects w h = record {
    valid = ground (arith, h.runs, h.stop_timed, h.rate_timed, h.memory_timed, h.port);
    closes = ground (arith);
    readies = ground arith;
  }
  handle-Advances now disconnects w h =
      if_both (Advances w) (is_draining w.phase)
        (let k =
            maybe_complete_warmup-Advances (record w { connected = w.connected - 1 })
              (record {
                runs = h.runs;
                stop_timed = h.stop_timed;
                rate_timed = h.rate_timed;
                memory_timed = h.memory_timed;
                port = h.port;
              }) in
          record { valid = k.valid; closes = k.closes; readies = k.readies })
        (stays w (record w { connected = w.connected - 1 })
          (record {
            runs = h.runs;
            stop_timed = h.stop_timed;
            rate_timed = h.rate_timed;
            memory_timed = h.memory_timed;
            port = h.port;
          })
          refl refl)
  handle-Advances now idles w h =
      if_both (Advances w) (is_draining w.phase) (maybe_complete_warmup-Advances w h)
        (stays w w h refl refl)
  handle-Advances now (starts is_warmup elu usage duration) w h =
      or_fail-Advances now (start_phase ops bucket_of now is_warmup elu usage duration w) w
        (start_phase-Advances now is_warmup elu usage duration w h)
  handle-Advances now (ends usage elu_since) w h = end_phase-Advances now usage elu_since w h
  handle-Advances now aborts w h = shut_down-Advances now [] w refl refl
  handle-Advances now fails w h = shut_down-Advances now (fatal ∷ []) w refl refl
