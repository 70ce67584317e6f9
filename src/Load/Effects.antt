-- ===== src/Load/Effects.antt =====
-- src/load/shared/load-connection.ts, src/load/http1/http1-connection.ts and
-- src/load/websocket/websocket-connection.ts: what a connection asks of the worker that owns it, of
-- its socket and of the timers, in order. A handler of a connection returns the list of its calls.
-- The worker's answers depend on flags that do not change while a handler runs; they are a view that
-- the handler is given. Times are whole microseconds of the monotonic clock, and a handler reads the
-- clock once.
use benchkit.Prelude.{ℕ, ◌+◌, Bool, ◌&&◌, ltb, List, [], ◌∷◌, ◌++◌, ◌≡◌, arith}

-- the getters and answers of `Http1ConnectionOwner` and `WebSocketConnectionOwner`
pub record OwnerView : Type 0 where
  pub closed_loop_active : Bool
  pub fixed_rate_active : Bool
  pub recording_active : Bool
  pub should_reconnect : Bool
  pub stop_at : ℕ

-- `canContinueClosedLoop`
abbrev pub can_continue_closed_loop : OwnerView → ℕ → Bool
can_continue_closed_loop view now = view.closed_loop_active && ltb now view.stop_at

pub data Effect : Type 0 where
  -- calls of the owner
  connected disconnected idle : Effect
  closed : ℕ → Effect
  response : ℕ → ℕ → Effect
  message : ℕ → ℕ → Effect
  bytes_read : ℕ → Effect
  protocol_error timed_out connection_error : Effect
  requests_sent : ℕ → ℕ → Effect
  message_sent : ℕ → Effect
  socket_write : Effect
  scheduled_operation : ℕ → Effect
  buffered_amount : ℕ → Effect
  backpressure_started : Effect
  backpressure_ended : ℕ → Effect
  -- calls of the socket and the timers
  opens : ℕ → Effect
  writes : ℕ → Effect
  destroys : Effect
  closes : ℕ → Effect
  schedules_reconnect : Effect

-- Operations handed to the socket, answered, and reported as aborted in a list of calls.
abbrev pub sent_in : Effect → ℕ
sent_in (requests_sent count bytes) = count
sent_in (message_sent bytes) = 1
sent_in _ = 0

abbrev pub answered_in : Effect → ℕ
answered_in (response status sent_at) = 1
answered_in (message bytes sent_at) = 1
answered_in _ = 0

abbrev pub aborted_in : Effect → ℕ
aborted_in (closed count) = count
aborted_in _ = 0

abbrev pub total : (Effect → ℕ) → List Effect → ℕ
total f [] = 0
total f (e ∷ es) = f e + total f es

pub total-append :
    (f : Effect → ℕ) (xs ys : List Effect) → total f (xs ++ ys) ≡ total f xs + total f ys
total-append f [] ys = omega arith
total-append f (x ∷ xs) ys = omega (arith, total-append f xs ys)

-- A list of calls that neither sends nor answers nor aborts a request.
abbrev pub IsNeutral : List Effect → Type 0
IsNeutral es = (total sent_in es ≡ 0) × (total answered_in es ≡ 0) × (total aborted_in es ≡ 0)

pub IsNeutral-append : (xs ys : List Effect) → IsNeutral xs → IsNeutral ys → IsNeutral (xs ++ ys)
IsNeutral-append xs ys h k = omega (
  arith,
  total-append sent_in xs ys,
  total-append answered_in xs ys,
  total-append aborted_in xs ys,
)

-- What was in flight before some calls and what they send is answered, aborted, or still in flight.
abbrev pub Settles : ℕ → List Effect → ℕ → Type 0
Settles before es later =
    total sent_in es + before ≡ total answered_in es + total aborted_in es + later

pub Settles-append :
    (es es' : List Effect) (a b c : ℕ) → Settles a es b → Settles b es' c → Settles a (es ++ es') c
Settles-append es es' a b c h k = omega (
  arith,
  total-append sent_in es es',
  total-append answered_in es es',
  total-append aborted_in es es',
)

pub Settles-neutral :
    (xs ys : List Effect) (a b : ℕ) → IsNeutral xs → Settles a ys b → Settles a (xs ++ ys) b
Settles-neutral xs ys a b h k = Settles-append xs ys a a b (omega (arith, h)) k
