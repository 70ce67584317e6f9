-- ===== src/Control/Client/Tests.antt =====
-- src/target-provider/control-client.ts: runs, and the theorem at a concrete input.
use benchkit.Control.Client.Settlement.{
  Event, requests, receives, timer_fires, exits, handle, run, settled_once,
}
use benchkit.Control.Client.Steps.{settled, waiting}
use benchkit.Control.Protocol.{
  target_start, metrics_start, target_stop, text_id, numbered, ok, requested, parse_response,
}
use benchkit.Control.Client
use benchkit.Control.Client.{
  Client, Reason, writes, resolves, rejects, refuses, ready_rejects, timed_out, unwritten,
  transport_exited, fail, on_message, on_write_error, on_timer, request, on_exit,
}
use benchkit.Prelude.{
  ◌≡◌, ◌+◌, leb, ◌&&◌, if◌then◌else◌, true, false, some, none, refl, List, [], ◌∷◌,
}

-- requests of a client of which the first times out, and the exit of its transport
abbrev some_events : List Event
some_events =
    requests true true target_start
    ∷ requests true true metrics_start
    ∷ receives (record {
      is_record = true;
      has_version = true;
      id = text_id (numbered 2);
      status = ok;
      type = some (requested metrics_start);
      has_error = false;
      payload = none;
    })
    ∷ timer_fires 1
    ∷ requests true false target_stop
    ∷ requests true true target_stop
    ∷ exits
    ∷ requests true true target_stop
    ∷ []

client_test :
    (run some_events Client.new).1
    ≡ writes 1 target_start
      ∷ writes 2 metrics_start
      ∷ resolves 2
      ∷ rejects 1 timed_out
      ∷ rejects 3 unwritten
      ∷ writes 4 target_stop
      ∷ ready_rejects
      ∷ rejects 4 (Reason.failed transport_exited)
      ∷ refuses
      ∷ []
unfolding run handle parse_response fail on_message on_write_error on_timer request on_exit
client_test = refl

settled_once_example :
    settled 3 (run some_events Client.new).1 + waiting 3 ((run some_events Client.new).0).pending
    ≡ (if leb 1 3 && leb 3 ((run some_events Client.new).0).counter then 1 else 0)
settled_once_example = settled_once 3 some_events
