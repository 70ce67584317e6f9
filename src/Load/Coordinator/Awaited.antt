-- ===== src/Load/Coordinator/Awaited.antt =====
-- src/load/shared/load-coordinator.ts: which events a pending wait has not seen.
use benchkit.Prelude.{
  ℕ, zero, suc, ◌+◌, ◌<◌, ◌≡◌, ◌≢◌, ◌⊎◌, inl, inr, true, false, List, [], ◌∷◌, All, arith, refl,
  sym, ap, ◌∙◌, subst,
}
use benchkit.Load.Worker.{Message, ready, warmup_complete, fatal, result}
use benchkit.Load.Coordinator.Run.{
  Expected, Outcome, pending, got, refused, Reason, Wait, matches, hears_in, on_message, fails_in,
  on_failure, modify, waits_for, Event, posts, errs, exits, times_out, aborts, reach, timed_out,
  worker_error, worker_exited, aborted,
}
use benchkit.Load.Coordinator.Hears.{Each, Each-map}

-- The event brings the message that is expected of a worker, or a failure.
abbrev pub Concerns : Expected → ℕ → Event → Type 0
Concerns expected i (posts j m) = (j ≡ i) × ((m ≡ fatal) ⊎ (matches expected m ≡ true))
Concerns expected i (errs j) = j ≡ i
Concerns expected i (exits j) = j ≡ i
Concerns expected i (times_out j) = j ≡ i
Concerns expected i aborts = Unit

-- None of the events does.
abbrev pub IsSilent : Expected → ℕ → List Event → Type 0
IsSilent expected i events = All (λ e. ¬ Concerns expected i e) events

-- A wait for an expected message that is pending has seen none of the events.
abbrev pub IsUnheard : List Event → Expected → ℕ → Wait → Type 0
IsUnheard events expected i w =
    (w.expected ≡ expected) × (w.outcome ≡ pending → IsSilent expected i events)

module _ {ℓ} {A : Type ℓ} where
  Each-beyond :
      (P Q : ℕ → A → Type 0) (n k : ℕ) (xs : List A)
      → ((j : ℕ) (x : A) → n ≢ j → P j x → Q j x)
      → n < k
      → Each P k xs
      → Each Q k xs
  Each-beyond P Q n k [] weaken l h = tt
  Each-beyond P Q n k (x ∷ xs) weaken l h = (
    weaken k x (λ e. omega (arith, e, l)) h.0,
    Each-beyond P Q n (k + 1) xs weaken (omega (arith, l)) h.1,
  )

  -- One element is changed, and the others are at other places.
  Each-at :
      (P Q : ℕ → A → Type 0) (f : A → A) (n i k : ℕ) (xs : List A)
      → ((j : ℕ) (x : A) → n ≢ j → P j x → Q j x)
      → ((x : A) → P n x → Q n (f x))
      → k + i ≡ n
      → Each P k xs
      → Each Q k (modify i f xs)
  Each-at P Q f n i k [] weaken change e h = tt
  Each-at P Q f n zero k (x ∷ xs) weaken change e h = (
    subst (λ j. P j x → Q j (f x)) (omega (arith, e)) (change x) h.0,
    Each-beyond P Q n (k + 1) xs weaken (omega (arith, e)) h.1,
  )
  Each-at P Q f n (suc i) k (x ∷ xs) weaken change e h = (
    weaken k x (λ s. omega (arith, e, s)) h.0,
    Each-at P Q f n i (k + 1) xs weaken change (omega (arith, e)) h.1,
  )

module _ (events : List Event) (expected : Expected) where
  other_worker :
      (e : Event) (j : ℕ) (w : Wait)
      → ¬ Concerns expected j e
      → IsUnheard events expected j w
      → IsUnheard (e ∷ events) expected j w
  other_worker e j w quiet h = (h.0, λ p. (quiet, h.1 p))

  on_failure-IsUnheard :
      (e : Event) (reason : Reason) (i : ℕ) (w : Wait)
      → IsUnheard events expected i w
      → IsUnheard (e ∷ events) expected i (on_failure reason w)
  on_failure-IsUnheard e reason i w h = (h.0, λ p. absurd (not_pending w.outcome p))
    where
      not_pending : (o : Outcome) → fails_in o reason ≡ pending → ⊥
      not_pending pending p = cc
      not_pending (got m) p = cc
      not_pending (refused r) p = cc

  still_pending :
      (o : Outcome) (m : Message)
      → hears_in o expected m ≡ pending
      → (o ≡ pending) × (m ≢ fatal) × (matches expected m ≡ false)
  still_pending pending ready p = (refl, cc, ground (arith, p))
  still_pending pending warmup_complete p = (refl, cc, ground (arith, p))
  still_pending pending fatal p = absurd cc
  still_pending pending (result r) p = (refl, cc, ground (arith, p))
  still_pending (got m') m p = absurd cc
  still_pending (refused r) m p = absurd cc

  pending_quiet :
      (i : ℕ) (m : Message)
      → m ≢ fatal
      → matches expected m ≡ false
      → ¬ Concerns expected i (posts i m)
  pending_quiet i m no_fatal no_match (here, inl is_fatal) = no_fatal is_fatal
  pending_quiet i m no_fatal no_match (here, inr is_match) =
      absurd (ground (arith, no_match, is_match))

  on_message-IsUnheard :
      (m : Message) (i : ℕ) (w : Wait)
      → IsUnheard events expected i w
      → IsUnheard (posts i m ∷ events) expected i (on_message m w)
  on_message-IsUnheard m i w h = (
    h.0,
    λ p.
        let s = still_pending w.outcome m (ap (λ x. hears_in w.outcome x m) (sym h.0) ∙ p) in
        (pending_quiet i m s.1 s.2, h.1 s.0),
  )

  pub reach-IsUnheard :
      (e : Event) (ws : List Wait)
      → Each (IsUnheard events expected) 0 ws
      → Each (IsUnheard (e ∷ events) expected) 0 (reach e ws)
  reach-IsUnheard (posts n m) ws h =
      Each-at (IsUnheard events expected) (IsUnheard (posts n m ∷ events) expected) (on_message m) n
        n 0 ws (λ j w ne. other_worker (posts n m) j w (λ c. ne c.0)) (on_message-IsUnheard m n)
        (omega arith) h
  reach-IsUnheard (errs n) ws h =
      Each-at (IsUnheard events expected) (IsUnheard (errs n ∷ events) expected)
        (on_failure worker_error) n n 0 ws (λ j w ne. other_worker (errs n) j w ne)
        (on_failure-IsUnheard (errs n) worker_error n) (omega arith) h
  reach-IsUnheard (exits n) ws h =
      Each-at (IsUnheard events expected) (IsUnheard (exits n ∷ events) expected)
        (on_failure worker_exited) n n 0 ws (λ j w ne. other_worker (exits n) j w ne)
        (on_failure-IsUnheard (exits n) worker_exited n) (omega arith) h
  reach-IsUnheard (times_out n) ws h =
      Each-at (IsUnheard events expected) (IsUnheard (times_out n ∷ events) expected)
        (on_failure timed_out) n n 0 ws (λ j w ne. other_worker (times_out n) j w ne)
        (on_failure-IsUnheard (times_out n) timed_out n) (omega arith) h
  reach-IsUnheard aborts ws h =
      Each-map (IsUnheard events expected) (IsUnheard (aborts ∷ events) expected)
        (on_failure aborted) (on_failure-IsUnheard aborts aborted) 0 ws h

pub waits_for-IsUnheard :
    (expected : Expected) (n k : ℕ) → Each (IsUnheard [] expected) k (waits_for n expected)
waits_for-IsUnheard expected zero k = tt
waits_for-IsUnheard expected (suc n) k = ((refl, λ p. tt), waits_for-IsUnheard expected n (k + 1))
