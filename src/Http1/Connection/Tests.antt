-- ===== src/Http1/Connection/Tests.antt =====
-- src/load/http1/http1-connection.ts: the theorems at concrete events.
use benchkit.Prelude.{ℕ, ◌+◌, ◌≡◌, refl, true, false, Option, some, List, [], ◌∷◌, arith, Yields}
use benchkit.Timestamps
use benchkit.Load.Effects.{OwnerView, Effect, sent_in, answered_in, aborted_in, total}
use benchkit.Load.Rate.{RateData, RateState, schedule_due}
use benchkit.Load.Rate.Tick.{Serves, schedule_due-Serves}
use benchkit.Http1.Connection.{
  WorkerData, Connection, new, in_flight, connect, on_connect, on_close, fill_closed_loop,
  replenish_closed_loop, send, stamp,
}
use benchkit.Http1.Connection.History.{
  Event, Moment, connects, socket_connected, socket_closed, handle, history, history_accounts,
}
use benchkit.Http1.Connection.Capacity.{IsWithin}
use benchkit.Http1.Connection.Room.{history-IsWithin}
use benchkit.Http1.Connection.Rated.{rated, rated-IsRateConnection}

abbrev data_of_two : WorkerData
data_of_two = record {
  pipelining = 2;
  correct_coordinated_omission = true;
  method = "GET";
  max_header_bytes = 64;
  request_bytes = 40;
  has_request_batch = true;
}

abbrev closed_loop : OwnerView
closed_loop = record {
  closed_loop_active = true;
  fixed_rate_active = false;
  recording_active = true;
  should_reconnect = true;
  stop_at = 1000;
}

abbrev moment : Moment
moment = record { view = closed_loop; now = 7; accepts = λ _. true }

abbrev some_events : List (Moment × Event)
some_events = (moment, connects) ∷ (moment, socket_connected 0) ∷ (moment, socket_closed 0) ∷ []

abbrev outcome : Option (Connection × List Effect) → Connection × List Effect
outcome (some r) = r
outcome _ = (new data_of_two, [])

abbrev after : Connection × List Effect
after = outcome (history data_of_two (new data_of_two) some_events)

history_accounts_example :
    total sent_in after.1 ≡ total answered_in after.1 + total aborted_in after.1 + in_flight after.0
unfolding new history handle connect on_connect on_close fill_closed_loop replenish_closed_loop send
    stamp Timestamps.new Timestamps.push
history_accounts_example = history_accounts data_of_two some_events after.0 after.1 refl

abbrev fixed_rate : OwnerView
fixed_rate = record {
  closed_loop_active = false;
  fixed_rate_active = true;
  recording_active = true;
  should_reconnect = true;
  stop_at = 1000;
}

abbrev up : Connection
up = record (new data_of_two) { socket = some 0; next_socket = 1; is_connected = true }

-- two connections, of which one is up, and three operations due for its two places
abbrev tick : RateState Connection
tick = record {
  connections = new data_of_two ∷ up ∷ [];
  next_connection = 0;
  phase_scheduled = 4;
  dropped = 1;
}

abbrev second_of_two : RateData
second_of_two = record { rate = 100; offset = 1; stride = 2 }

schedule_due-Serves_example :
    let ops = rated data_of_two fixed_rate 500 (λ _. true) in
    let laws = rated-IsRateConnection data_of_two fixed_rate 500 (λ _. true) in
    (r' : RateState Connection) × (calls : List (ℕ × ℕ)) × (schedule_due ops second_of_two 100 3
        tick
      ≡ some (r', calls))
    × Serves ops laws second_of_two 100 3 tick r' calls
schedule_due-Serves_example =
    schedule_due-Serves (rated data_of_two fixed_rate 500 (λ _. true))
      (rated-IsRateConnection data_of_two fixed_rate 500 (λ _. true)) second_of_two 100 3 tick
      (omega arith)

history-IsWithin_example :
    Yields (λ r. IsWithin data_of_two r.0) (history data_of_two (new data_of_two) some_events)
unfolding new history handle connect on_connect on_close fill_closed_loop replenish_closed_loop send
    stamp Timestamps.new Timestamps.push
history-IsWithin_example = history-IsWithin data_of_two some_events (tt, (refl, (tt, tt)))
