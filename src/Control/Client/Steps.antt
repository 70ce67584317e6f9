-- ===== src/Control/Client/Steps.antt =====
-- src/target-provider/control-client.ts: each step settles requests, or leaves them waiting.
use benchkit.Prelude.{
  ℕ, ◌+◌, ◌≤◌, ◌≡◌, ◌==◌, leb, if◌then◌else◌, Bool, true, false, ◌&&◌, Option, none, some, List, [],
  ◌∷◌, ◌++◌, arith, refl, if_both, ◌||◌, not,
}
use benchkit.Control.Protocol.{
  RequestType, MessageId, numbered, foreign, AgentReady, Response, Parsed, parsed, refused,
  MessageType, agent_ready, requested, other_type,
}
use benchkit.Control.Client.{
  Failure, Reason, Call, resolves, rejects, Client, find, delete, reject_all, notify_all, fail,
  settle, on_event, on_answer, on_response, on_parsed, on_write_error, on_timer, request, failed,
  has_failed, unknown_id, envelope, unwritten, timed_out, announced, ready_without_payload,
  reported, refuses, writes,
}

-- how often the promise of a request is settled by a call
abbrev pub settles : ℕ → Call → ℕ
settles n (resolves m) = if m == n then 1 else 0
settles n (rejects m reason) = if m == n then 1 else 0
settles n _ = 0

abbrev pub settled : ℕ → List Call → ℕ
settled n [] = 0
settled n (call ∷ calls) = settles n call + settled n calls

abbrev pub waiting : ℕ → List (ℕ × RequestType) → ℕ
waiting n [] = 0
waiting n ((m, type) ∷ rest) = (if m == n then 1 else 0) + waiting n rest

-- whether a request has the number
abbrev pub issued : ℕ → ℕ → ℕ
issued n counter = if leb 1 n && leb n counter then 1 else 0

pub settled-append :
    (n : ℕ) (xs ys : List Call) → settled n (xs ++ ys) ≡ settled n xs + settled n ys
settled-append n [] ys = omega arith
settled-append n (x ∷ xs) ys = omega (arith, settled-append n xs ys)

waiting-append :
    (n : ℕ) (xs ys : List (ℕ × RequestType)) → waiting n (xs ++ ys) ≡ waiting n xs + waiting n ys
waiting-append n [] ys = omega arith
waiting-append n (x ∷ xs) ys = omega (arith, waiting-append n xs ys)

waiting-delete :
    (n m : ℕ) (p : List (ℕ × RequestType))
    → waiting n (delete m p) ≡ (if m == n then 0 else waiting n p)
waiting-delete n m [] = ground arith
waiting-delete n m ((k, type) ∷ p) = ground (arith, waiting-delete n m p)

waiting-find :
    (n : ℕ) (p : List (ℕ × RequestType)) (type : RequestType)
    → find n p ≡ some type
    → 1 ≤ waiting n p
waiting-find n [] type e = cc
waiting-find n ((k, t) ∷ p) type e = ground (arith, waiting-find n p type)

settled-reject_all :
    (n : ℕ) (reason : Reason) (p : List (ℕ × RequestType))
    → settled n (reject_all reason p) ≡ waiting n p
settled-reject_all n reason [] = refl
settled-reject_all n reason ((k, type) ∷ p) = ground (arith, settled-reject_all n reason p)

settled-notify_all : (n : ℕ) (ls : List ℕ) → settled n (notify_all ls) ≡ 0
settled-notify_all n [] = refl
settled-notify_all n (l ∷ ls) = omega (arith, settled-notify_all n ls)

-- A step settles what stops waiting, and gives numbers to what starts to wait; nothing waits that
-- has no number, or twice.
pub record Settles (n : ℕ) (c : Client) (r : Client × List Call) : Type 0 where
  pub balance :
      settled n r.1 + waiting n r.0.pending + issued n c.counter
      ≡ waiting n c.pending + issued n r.0.counter
  pub numbered : waiting n r.0.pending ≤ issued n r.0.counter

module _ (n : ℕ) (c : Client) (known : waiting n c.pending ≤ issued n c.counter) where
  pub fail-Settles : (f : Failure) → Settles n c (fail f c)
  unfolding fail
  fail-Settles f = ground (
    arith,
    settled-append n (reject_all (failed f) c.pending) (notify_all c.listeners),
    settled-reject_all n (failed f) c.pending,
    settled-notify_all n c.listeners,
  )

  pub kept-Settles :
      (c' : Client) → c'.pending ≡ c.pending → c'.counter ≡ c.counter → Settles n c (c', [])
  kept-Settles c' e e' = ground arith

  -- a request is taken from the map and settled
  taken-Settles :
      (m : ℕ) (type : RequestType) (call : Call)
      → find m c.pending ≡ some type
      → settles n call ≡ (if m == n then 1 else 0)
      → Settles n c (record c { pending = delete m c.pending }, call ∷ [])
  taken-Settles m type call e h =
      ground (arith, waiting-delete n m c.pending, waiting-find n c.pending type)

  settles-settle :
      (m : ℕ) (type : RequestType) (r : Response)
      → settles n (settle m type r) ≡ (if m == n then 1 else 0)
  settles-settle m type r = ground arith

  on_answer-Settles :
      (m : ℕ) (r : Response) (o : Option RequestType)
      → find m c.pending ≡ o
      → Settles n c (on_answer m o r c)
  on_answer-Settles m r none e = fail-Settles unknown_id
  on_answer-Settles m r (some type) e =
      taken-Settles m type (settle m type r) e (settles-settle m type r)

  announced-Settles : (payload : Option AgentReady) → Settles n c (announced payload c)
  announced-Settles none = fail-Settles ready_without_payload
  announced-Settles (some payload) = record { balance = omega arith; numbered = known }

  quiet-Settles : (is_ok : Bool) → Settles n c (if is_ok then (c, []) else fail reported c)
  quiet-Settles true = kept-Settles c refl refl
  quiet-Settles false = fail-Settles reported

  on_event-Settles : (type : MessageType) (r : Response) → Settles n c (on_event type r c)
  on_event-Settles agent_ready r =
      if_both (Settles n c) r.is_ok (announced-Settles r.payload) (fail-Settles reported)
  on_event-Settles (requested t) r = quiet-Settles r.is_ok
  on_event-Settles other_type r = quiet-Settles r.is_ok

  on_response-Settles : (o : Option MessageId) (r : Response) → Settles n c (on_response o r c)
  on_response-Settles none r = on_event-Settles r.type r
  on_response-Settles (some foreign) r = fail-Settles unknown_id
  on_response-Settles (some (numbered m)) r = on_answer-Settles m r (find m c.pending) refl

  pub on_parsed-Settles : (p : Parsed) → Settles n c (on_parsed p c)
  on_parsed-Settles (refused e) = fail-Settles (envelope e)
  on_parsed-Settles (parsed r) = on_response-Settles r.id r

  settled_by-Settles :
      (m : ℕ) (reason : Reason) (o : Option RequestType)
      → find m c.pending ≡ o
      → Settles n c (elim o [
        | none ↦ (c, [])
        | some type ↦ (record c { pending = delete m c.pending }, rejects m reason ∷ [])
      ])
  settled_by-Settles m reason none e = kept-Settles c refl refl
  settled_by-Settles m reason (some type) e = taken-Settles m type (rejects m reason) e refl

  pub on_write_error-Settles : (m : ℕ) → Settles n c (on_write_error m c)
  unfolding on_write_error
  on_write_error-Settles m = settled_by-Settles m unwritten (find m c.pending) refl

  pub on_timer-Settles : (m : ℕ) → Settles n c (on_timer m c)
  unfolding on_timer
  on_timer-Settles m = settled_by-Settles m timed_out (find m c.pending) refl

  issued-Settles :
      (type : RequestType) (calls : List Call)
      → settled n calls ≡ 0
      → Settles n c (
        record c { counter = c.counter + 1; pending = c.pending ++ (c.counter + 1, type) ∷ [] },
        calls,
      )
  issued-Settles type calls e =
      ground (arith, waiting-append n c.pending ((c.counter + 1, type) ∷ []))

  chained-Settles :
      (c' : Client) (r : Client × List Call) → Settles n c (c', []) → Settles n c' r → Settles n c r
  chained-Settles c' r h k = record {
    balance = omega (arith, h.balance, k.balance);
    numbered = k.numbered;
  }

pub request-Settles :
    (n : ℕ) (c : Client)
    → waiting n c.pending ≤ issued n c.counter
    → (writable taken : Bool) (type : RequestType) → Settles n c (request writable taken type c)
unfolding request
request-Settles n c known writable taken type =
    let c' = record c {
      counter = c.counter + 1;
      pending = c.pending ++ (c.counter + 1, type) ∷ [];
    } in
    let h = issued-Settles n c known type [] refl in
    if_both (Settles n c) (has_failed c.failure || c.closed || not writable) {x = (c, refuses ∷ [])}
      (record { balance = omega arith; numbered = known })
      (if_both (Settles n c) taken {x = (c', writes (c.counter + 1) type ∷ [])}
        (issued-Settles n c known type (writes (c.counter + 1) type ∷ []) refl)
        (chained-Settles n c known c' (on_write_error (c.counter + 1) c') h
          (on_write_error-Settles n c' h.numbered (c.counter + 1))))
