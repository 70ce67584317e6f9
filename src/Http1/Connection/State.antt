-- ===== src/Http1/Connection/State.antt =====
-- src/load/http1/http1-connection.ts: the connection's state, and the stamps and writes of requests.
use Prim.Native.String.{String}
use benchkit.Prelude.{
  ℕ, zero, suc, ◌+◌, ◌-◌, ◌==◌, if◌then◌else◌, Bool, true, false, ◌&&◌, ◌||◌, Option, none, some,
  List, [], ◌∷◌, ◌++◌, bind,
}
use benchkit.Timestamps
use benchkit.Timestamps.{TimestampQueue}
use benchkit.Load.Effects.{Effect, socket_write, scheduled_operation, opens, writes, destroys}
use benchkit.Load.Backpressure.{Backpressure, no_backpressure}
use benchkit.Http1.Parser.{Parser, reset}

-- What the handlers read of `Http1WorkerData`, the length of `#request`, and whether there is a
-- `#requestBatch`.
pub record WorkerData : Type 0 where
  pub pipelining : ℕ
  pub correct_coordinated_omission : Bool
  pub method : String
  pub max_header_bytes : ℕ
  pub request_bytes : ℕ
  pub has_request_batch : Bool

pub record Connection : Type 0 where
  pub socket : Option ℕ
  pub next_socket : ℕ
  pub is_connected : Bool
  pub reconnect_scheduled : Bool
  pub stopped : Bool
  pub protocol_failure : Bool
  pub timeout_failure : Bool
  pub pending_closed_loop : ℕ
  pub rate_batch : List ℕ
  pub timestamps : TimestampQueue
  pub parser : Parser
  pub backpressure : Backpressure

abbrev pub in_flight : Connection → ℕ
in_flight c = c.timestamps.size

unfoldable pub new : WorkerData → Connection
new d = record {
  socket = none;
  next_socket = 0;
  is_connected = false;
  reconnect_scheduled = false;
  stopped = false;
  protocol_failure = false;
  timeout_failure = false;
  pending_closed_loop = 0;
  rate_batch = [];
  timestamps = Timestamps.new d.pipelining false;
  parser = reset;
  backpressure = no_backpressure;
}

abbrev pub is_open : Option ℕ → Bool
is_open none = false
is_open (some _) = true

-- `socket !== this.#socket`, negated
abbrev pub is_current : Option ℕ → ℕ → Bool
is_current none socket = false
is_current (some current) socket = current == socket

-- `this.#socket?.destroy()`
abbrev pub destroy : Option ℕ → List Effect
destroy none = []
destroy (some _) = destroys ∷ []

unfoldable pub connect : Connection → Connection × List Effect
connect c = if c.stopped || is_open c.socket then (c, []) else (
  record c { socket = some c.next_socket; next_socket = c.next_socket + 1 },
  opens c.next_socket ∷ [],
)

-- the timestamp of one request, and the report of its lag if it was scheduled
abbrev pub stamp_of : WorkerData → ℕ → Option ℕ → ℕ
stamp_of d now none = now
stamp_of d now (some scheduled_at) = if d.correct_coordinated_omission then scheduled_at else now

abbrev pub lag_of : ℕ → Option ℕ → List Effect
lag_of now none = []
lag_of now (some scheduled_at) = scheduled_operation (now - scheduled_at) ∷ []

-- the loop of `#send` over the timestamps
unfoldable pub stamp :
    WorkerData → ℕ → TimestampQueue → List (Option ℕ) → Option (TimestampQueue × List Effect)
stamp d now q [] = some (q, [])
stamp d now q (t ∷ ts) =
    bind (Timestamps.push q (stamp_of d now t) (stamp_of d now t))
      λ q'. bind (stamp d now q' ts) λ r. some (r.0, lag_of now t ++ r.1)

abbrev pub write_each : ℕ → List Effect
write_each zero = []
write_each (suc n) = writes 1 ∷ socket_write ∷ write_each n

abbrev pub all_accepted : (ℕ → Bool) → ℕ → Bool
all_accepted accepts zero = true
all_accepted accepts (suc n) = accepts n && all_accepted accepts n

-- one write of the whole batch, one of a single request, or corked writes
abbrev pub write_calls : WorkerData → ℕ → List Effect
write_calls d count =
    if count == d.pipelining && d.has_request_batch
    then writes count ∷ socket_write ∷ []
    else if count == 1
    then writes 1 ∷ socket_write ∷ []
    else write_each count

abbrev pub accepted : WorkerData → (ℕ → Bool) → ℕ → Bool
accepted d accepts count =
    if (count == d.pipelining && d.has_request_batch) || count == 1
    then accepts 0
    else all_accepted accepts count

abbrev pub with_backpressure :
    Connection → Bool × Backpressure × List Effect → Connection × List Effect
with_backpressure c r = (record c { backpressure = r.1 }, r.2)
