-- ===== src/Control/Client/Settlement.antt =====
-- src/target-provider/control-client.ts: the settlement of requests.
use benchkit.Prelude.{
  ℕ, ◌+◌, ◌≤◌, ◌≡◌, leb, if◌then◌else◌, Bool, ◌&&◌, List, [], ◌∷◌, ◌++◌, arith, refl, if_both,
}
use benchkit.Control.Protocol.{RequestType, Envelope, parse_response}
use benchkit.Control.Client.{
  transport_failed, undecoded, Call, Client, new, fail, on_message, on_write_error, on_timer,
  request, on_exit, on_failure, off_failure, close, transport_exited,
}
use benchkit.Control.Client.Steps.{
  settled, waiting, issued, Settles, settled-append, fail-Settles, kept-Settles, on_parsed-Settles,
  on_write_error-Settles, on_timer-Settles, request-Settles,
}

-- what happens to a client
pub data Event : Type 0 where
  requests : Bool → Bool → RequestType → Event
  receives : Envelope → Event
  write_fails timer_fires : ℕ → Event
  decoder_fails transport_fails exits : Event
  listens unlistens : ℕ → Event
  closes : Bool → Event

unfoldable pub handle : Event → Client → Client × List Call
handle (requests writable taken type) c = request writable taken type c
handle (receives e) c = on_message e c
handle (write_fails n) c = on_write_error n c
handle (timer_fires n) c = on_timer n c
handle decoder_fails c = fail undecoded c
handle transport_fails c = fail transport_failed c
handle exits c = on_exit c
handle (listens l) c = on_failure l c
handle (unlistens l) c = (off_failure l c, [])
handle (closes writable) c = close writable c

unfoldable pub run : List Event → Client → Client × List Call
run [] c = (c, [])
run (e ∷ es) c = let (c', calls) = handle e c in let (c'', more) = run es c' in (c'', calls ++ more)

handle-Settles :
    (n : ℕ) (e : Event) (c : Client)
    → waiting n c.pending ≤ issued n c.counter
    → Settles n c (handle e c)
unfolding handle on_message on_exit on_failure off_failure close
handle-Settles n (requests writable taken type) c h = request-Settles n c h writable taken type
handle-Settles n (receives e) c h = on_parsed-Settles n c h (parse_response e)
handle-Settles n (write_fails m) c h = on_write_error-Settles n c h m
handle-Settles n (timer_fires m) c h = on_timer-Settles n c h m
handle-Settles n decoder_fails c h = fail-Settles n c h undecoded
handle-Settles n transport_fails c h = fail-Settles n c h transport_failed
handle-Settles n exits c h =
    if_both (Settles n c) c.closed (kept-Settles n c h c refl refl)
      (fail-Settles n c h transport_exited)
handle-Settles n (listens l) c h = ground arith
handle-Settles n (unlistens l) c h = ground arith
handle-Settles n (closes writable) c h = ground arith

run-Settles :
    (n : ℕ) (es : List Event) (c : Client)
    → waiting n c.pending ≤ issued n c.counter
    → Settles n c (run es c)
unfolding run
run-Settles n [] c h = kept-Settles n c h c refl refl
run-Settles n (e ∷ es) c h =
    let k = handle-Settles n e c h in
    let k' = run-Settles n es (handle e c).0 k.numbered in
    record {
      balance =
          omega (
            arith,
            k.balance,
            k'.balance,
            settled-append n (handle e c).1 (run es (handle e c).0).1,
          );
      numbered = k'.numbered;
    }

-- From a new client, over any sequence of requests, messages, timeouts, errors, and calls, the
-- promise of each request that has been made is settled once if the request is no longer pending and
-- not at all while it is; and no promise of another number is settled.
pub settled_once :
    (n : ℕ) (es : List Event)
    → settled n (run es new).1 + waiting n (run es new).0.pending
      ≡ (if leb 1 n && leb n (run es new).0.counter then 1 else 0)
settled_once n es = let k = run-Settles n es new (omega arith) in ground (arith, k.balance)
