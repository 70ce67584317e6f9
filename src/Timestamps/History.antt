-- ===== src/Timestamps/History.antt =====
-- src/load/shared/timestamp-queue.ts: what a connection sees of a queue over any sequence of calls.
use benchkit.Prelude.{
  ℕ, ◌≡◌, refl, ap, ap₂, ◌∙◌, inl, inr, Bool, true, false, Option, none, some, List, [], ◌∷◌, arith,
  length-replicate, Option-cases,
}
use benchkit.Timestamps.{
  TimestampQueue, capacity, new, set_timeout, tail, push, shift, peek_timeout_start, clear,
}
use benchkit.Timestamps.Invariant.{IsValid, new-IsValid, push-IsValid, shift-IsValid, clear-IsValid}
use benchkit.Timestamps.Refine.{
  Sent, tracks, entry, entries, rest, first_latency, first_timeout, push_list, push_refines,
  shift_refines, peek_refines,
}

pub data Call : Type 0 where
  pushes : ℕ → ℕ → Call
  shifts peeks clears : Call

pub data Reply : Type 0 where
  done overflow : Reply
  value : Option ℕ → Reply

-- A push that throws leaves the queue as it was.
abbrev pub after_push {ℓ} : {A : Type ℓ} → A → Option A → Reply × A
after_push old none = (overflow, old)
after_push old (some q) = (done, q)

unfoldable pub call : TimestampQueue → Call → Reply × TimestampQueue
call q (pushes l t) = after_push q (push q l t)
call q shifts = let (v, q') = shift q in (value v, q')
call q peeks = (value (peek_timeout_start q), q)
call q clears = (done, clear q)

pub call_list : ℕ → Bool → List Sent → Call → Reply × List Sent
call_list m tracked ss (pushes l t) = after_push ss (push_list m ss (entry tracked l t))
call_list m tracked ss shifts = (value (first_latency ss), rest ss)
call_list m tracked ss peeks = (value (first_timeout ss), ss)
call_list m tracked ss clears = (done, [])

unfoldable pub replies : TimestampQueue → List Call → List Reply
replies q [] = []
replies q (c ∷ cs) = let (r, q') = call q c in r ∷ replies q' cs

pub replies_list : ℕ → Bool → List Sent → List Call → List Reply
replies_list m tracked ss [] = []
replies_list m tracked ss (c ∷ cs) =
    let (r, ss') = call_list m tracked ss c in r ∷ replies_list m tracked ss' cs

-- The queue's outcome `r` beside the list's outcome `s`.
record Agrees (m : ℕ) (tracked : Bool) (r : Reply × TimestampQueue) (s : Reply × List Sent)
    : Type 0 where
  valid : IsValid r.1
  same_capacity : capacity r.1 ≡ m
  same_mode : tracks r.1.timeout_starts ≡ tracked
  same_reply : r.0 ≡ s.0
  same_entries : entries r.1 ≡ s.1

tracks-set_timeout : (o : Option (List ℕ)) (i t : ℕ) → tracks (set_timeout o i t) ≡ tracks o
tracks-set_timeout none i t = refl
tracks-set_timeout (some ts) i t = refl

tracks-push :
    (q : TimestampQueue) {q' : TimestampQueue} (l t : ℕ)
    → push q l t ≡ some q'
    → tracks q'.timeout_starts ≡ tracks q.timeout_starts
unfolding push
tracks-push q l t e = ground (arith, tracks-set_timeout q.timeout_starts (tail q) t)

mode-shift : (q : TimestampQueue) → tracks (shift q).1.timeout_starts ≡ tracks q.timeout_starts
unfolding shift
mode-shift q = ground arith

module _ (q : TimestampQueue) (v : IsValid q) where
  call_push-Agrees :
      (l t : ℕ)
      → Agrees
          (capacity q)
          (tracks q.timeout_starts)
          (call q (pushes l t))
          (call_list (capacity q) (tracks q.timeout_starts) (entries q) (pushes l t))
  unfolding call call_list
  call_push-Agrees l t = elim (Option-cases (push q l t)) [
    | inl e ↦
        rw (← push_refines q l t v, e)
          (record {
            valid = v;
            same_capacity = refl;
            same_mode = refl;
            same_reply = refl;
            same_entries = refl;
          })
    | inr (q', e) ↦
        rw (← push_refines q l t v, e)
          (record {
            valid = (push-IsValid q l t v e).0;
            same_capacity = (push-IsValid q l t v e).1;
            same_mode = tracks-push q l t e;
            same_reply = refl;
            same_entries = refl;
          })
  ]

  call-Agrees :
      (c : Call)
      → Agrees
          (capacity q)
          (tracks q.timeout_starts)
          (call q c)
          (call_list (capacity q) (tracks q.timeout_starts) (entries q) c)
  unfolding call call_list clear
  call-Agrees (pushes l t) = call_push-Agrees l t
  call-Agrees shifts = record {
    valid = (shift-IsValid q v).0;
    same_capacity = (shift-IsValid q v).1;
    same_mode = mode-shift q;
    same_reply = ap value (shift_refines q).0;
    same_entries = (shift_refines q).1;
  }
  call-Agrees peeks = record {
    valid = v;
    same_capacity = refl;
    same_mode = refl;
    same_reply = ap value (peek_refines q);
    same_entries = refl;
  }
  call-Agrees clears = record {
    valid = clear-IsValid q v;
    same_capacity = ground arith;
    same_mode = ground arith;
    same_reply = refl;
    same_entries = ground arith;
  }

-- No sequence of calls tells a valid queue from the bounded list of its operations.
replies_refines :
    (cs : List Call) (q : TimestampQueue)
    → IsValid q
    → replies q cs ≡ replies_list (capacity q) (tracks q.timeout_starts) (entries q) cs
unfolding replies replies_list
replies_refines [] q v = refl
replies_refines (c ∷ cs) q v =
    let a = call-Agrees q v c in
    ap₂ ◌∷◌ a.same_reply
      (replies_refines cs (call q c).1 a.valid ∙ rw (a.same_entries, a.same_capacity, a.same_mode))

-- A new queue behaves as the empty list of its capacity, tracking timeouts as asked.
pub replies-new :
    (n : ℕ) (track : Bool) (cs : List Call) → replies (new n track) cs ≡ replies_list n track [] cs
unfolding new
replies-new n true cs =
    replies_refines cs (new n true) (new-IsValid n true)
    ∙ ap (λ m. replies_list m true [] cs) (length-replicate n 0)
replies-new n false cs =
    replies_refines cs (new n false) (new-IsValid n false)
    ∙ ap (λ m. replies_list m false [] cs) (length-replicate n 0)
