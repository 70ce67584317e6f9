-- ===== src/Load/Coordinator/Hears.antt =====
-- src/load/shared/load-coordinator.ts: what the waits for the workers have got.
use benchkit.Prelude.{
  ℕ, zero, suc, ◌+◌, ◌≤◌, ◌<◌, ◌≡◌, Bool, true, ◌&&◌, List, [], ◌∷◌, map, length, arith, refl, sym,
  ap, subst, length-replicate, ◌∙◌, Option, some, none, bind, le-cases, inl, inr,
}
use benchkit.Load.Measurement.{WorkerResult}
use benchkit.Load.Worker.{Message, ready, warmup_complete, fatal, result}
use benchkit.Load.Coordinator.Run.{
  Expected, Outcome, pending, got, refused, Reason, Wait, matches, hear, hears_in, on_message,
  fails_in, on_failure, modify, waits_for, is_got, all_got, Event, posts, errs, exits, times_out,
  aborts, reach, expects_result, timed_out, worker_error, worker_exited, aborted, results,
  result_in,
}
use mathlib.Core.List.{Memᴰ}

-- a worker's message is among the events
abbrev pub Posted : List Event → ℕ → Message → Type 0
Posted log i m = Memᴰ (posts i m) log

-- A predicate holds of each element with its index, from a first index on.
abbrev pub Each {ℓ} : {A : Type ℓ} → (ℕ → A → Type 0) → ℕ → List A → Type 0
Each P k [] = Unit
Each P k (x ∷ xs) = P k x × Each P (k + 1) xs

module _ {ℓ} {A : Type ℓ} where
  pub Each-map :
      (P Q : ℕ → A → Type 0) (f : A → A)
      → ((i : ℕ) (x : A) → P i x → Q i (f x))
      → (k : ℕ) (xs : List A) → Each P k xs
      → Each Q k (map f xs)
  Each-map P Q f g k [] h = tt
  Each-map P Q f g k (x ∷ xs) h = (g k x h.0, Each-map P Q f g (k + 1) xs h.1)

  Each-weaken :
      (P Q : ℕ → A → Type 0)
      → ((i : ℕ) (x : A) → P i x → Q i x)
      → (k : ℕ) (xs : List A) → Each P k xs
      → Each Q k xs
  Each-weaken P Q g k [] h = tt
  Each-weaken P Q g k (x ∷ xs) h = (g k x h.0, Each-weaken P Q g (k + 1) xs h.1)

  Each-modify :
      (P Q : ℕ → A → Type 0) (f : A → A) (n i k : ℕ) (xs : List A)
      → ((j : ℕ) (x : A) → P j x → Q j x)
      → ((x : A) → P n x → Q n (f x))
      → k + i ≡ n
      → Each P k xs
      → Each Q k (modify i f xs)
  Each-modify P Q f n i k [] weaken change e h = tt
  Each-modify P Q f n zero k (x ∷ xs) weaken change e h = (
    subst (λ j. P j x → Q j (f x)) (omega (arith, e)) (change x) h.0,
    Each-weaken P Q weaken (k + 1) xs h.1,
  )
  Each-modify P Q f n (suc i) k (x ∷ xs) weaken change e h =
      (weaken k x h.0, Each-modify P Q f n i (k + 1) xs weaken change (omega arith) h.1)

  length-modify : (i : ℕ) (f : A → A) (xs : List A) → length (modify i f xs) ≡ length xs
  length-modify i f [] = refl
  length-modify zero f (x ∷ xs) = refl
  length-modify (suc i) f (x ∷ xs) = ap suc (length-modify i f xs)

  length-map : (f : A → A) (xs : List A) → length (map f xs) ≡ length xs
  length-map f [] = refl
  length-map f (x ∷ xs) = ap suc (length-map f xs)

-- What a wait for an expected message has got, it was posted, and it is of that kind.
abbrev pub IsHeard : List Event → Expected → ℕ → Wait → Type 0
IsHeard log expected i w =
    (w.expected ≡ expected)
    × ((m : Message) → w.outcome ≡ got m → Posted log i m × (matches expected m ≡ true))

abbrev pub Awaits : ℕ → List Event → Expected → List Wait → Type 0
Awaits workers log expected ws = (length ws ≡ workers) × Each (IsHeard log expected) 0 ws

IsHeard-weaken :
    (log : List Event) (e : Event) (expected : Expected) (i : ℕ) (w : Wait)
    → IsHeard log expected i w
    → IsHeard (e ∷ log) expected i w
IsHeard-weaken log e expected i w h = (h.0, λ m p. (Memᴰ.tail (h.1 m p).0, (h.1 m p).1))

IsHeard-on_failure :
    (log : List Event) (e : Event) (expected : Expected) (reason : Reason) (i : ℕ) (w : Wait)
    → IsHeard log expected i w
    → IsHeard (e ∷ log) expected i (on_failure reason w)
IsHeard-on_failure log e expected reason i w h = (h.0, λ m p. fails w.outcome m p h.1)
  where
    fails :
        (o : Outcome) (m : Message)
        → fails_in o reason ≡ got m
        → ((m' : Message) → o ≡ got m' → Posted log i m' × (matches expected m' ≡ true))
        → Posted (e ∷ log) i m × (matches expected m ≡ true)
    fails pending m p k = absurd cc
    fails (got m') m p k = (Memᴰ.tail (k m p).0, (k m p).1)
    fails (refused r) m p k = absurd cc

-- A wait gets a message that it hears, of the kind that it expects.
hear_got :
    (expected : Expected) (m m' : Message)
    → hear expected m ≡ got m'
    → (m ≡ m') × (matches expected m ≡ true)
hear_got expected ready m' p = ground arith
hear_got expected warmup_complete m' p = ground arith
hear_got expected fatal m' p = ground arith
hear_got expected (result r) m' p = ground arith

IsHeard-on_message :
    (log : List Event) (expected : Expected) (m : Message) (i : ℕ) (w : Wait)
    → IsHeard log expected i w
    → IsHeard (posts i m ∷ log) expected i (on_message m w)
IsHeard-on_message log expected m i w h = (h.0, λ m' p. hears w.outcome m' p h.1)
  where
    hears :
        (o : Outcome) (m' : Message)
        → hears_in o w.expected m ≡ got m'
        → ((m'' : Message) → o ≡ got m'' → Posted log i m'' × (matches expected m'' ≡ true))
        → Posted (posts i m ∷ log) i m' × (matches expected m' ≡ true)
    hears pending m' p k =
        let heard = hear_got w.expected m m' p in
        (Memᴰ.head (ap (posts i) (sym heard.0)), cc (h.0, heard.0, heard.1))
    hears (got m'') m' p k = (Memᴰ.tail (k m' p).0, (k m' p).1)
    hears (refused r) m' p k = absurd cc

-- An event at one worker, of a kind that keeps what the waits have got.
modify-Awaits :
    (workers : ℕ) (log : List Event) (e : Event) (expected : Expected) (n : ℕ) (f : Wait → Wait)
    → ((w : Wait) → IsHeard log expected n w → IsHeard (e ∷ log) expected n (f w))
    → (ws : List Wait) → Awaits workers log expected ws
    → Awaits workers (e ∷ log) expected (modify n f ws)
modify-Awaits workers log e expected n f change ws h = (
  length-modify n f ws ∙ h.0,
  Each-modify (IsHeard log expected) (IsHeard (e ∷ log) expected) f n n 0 ws
      (IsHeard-weaken log e expected) change (omega arith) h.1,
)

pub reach-Awaits :
    (workers : ℕ) (log : List Event) (e : Event) (expected : Expected) (ws : List Wait)
    → Awaits workers log expected ws
    → Awaits workers (e ∷ log) expected (reach e ws)
reach-Awaits workers log (posts n m) expected ws h =
    modify-Awaits workers log (posts n m) expected n (on_message m)
      (IsHeard-on_message log expected m n) ws h
reach-Awaits workers log (errs n) expected ws h =
    modify-Awaits workers log (errs n) expected n (on_failure worker_error)
      (IsHeard-on_failure log (errs n) expected worker_error n) ws h
reach-Awaits workers log (exits n) expected ws h =
    modify-Awaits workers log (exits n) expected n (on_failure worker_exited)
      (IsHeard-on_failure log (exits n) expected worker_exited n) ws h
reach-Awaits workers log (times_out n) expected ws h =
    modify-Awaits workers log (times_out n) expected n (on_failure timed_out)
      (IsHeard-on_failure log (times_out n) expected timed_out n) ws h
reach-Awaits workers log aborts expected ws h = (
  length-map (on_failure aborted) ws ∙ h.0,
  Each-map (IsHeard log expected) (IsHeard (aborts ∷ log) expected) (on_failure aborted)
      (IsHeard-on_failure log aborts expected aborted) 0 ws h.1,
)

waits_for-Each :
    (log : List Event) (expected : Expected) (n k : ℕ)
    → Each (IsHeard log expected) k (waits_for n expected)
waits_for-Each log expected zero k = tt
waits_for-Each log expected (suc n) k =
    ((refl, λ m p. absurd cc), waits_for-Each log expected n (k + 1))

pub waits_for-Awaits :
    (workers : ℕ) (log : List Event) (expected : Expected)
    → Awaits workers log expected (waits_for workers expected)
waits_for-Awaits workers log expected =
    (length-replicate workers _, waits_for-Each log expected workers 0)

pub and_true : (a b : Bool) → (a && b) ≡ true → (a ≡ true) × (b ≡ true)
and_true a b p = ground arith

pub got_in : (o : Outcome) → is_got o ≡ true → (m : Message) × (o ≡ got m)
got_in pending p = absurd cc
got_in (got m) p = (m, refl)
got_in (refused r) p = absurd cc

-- When all waits have got a message, every worker has posted one of the kind that is expected.
module _ (log : List Event) (expected : Expected) where
  abbrev pub Answered : ℕ → Type 0
  Answered i = (m : Message) × Posted log i m × (matches expected m ≡ true)

  pub all_got-Each :
      (k : ℕ) (ws : List Wait)
      → Each (IsHeard log expected) k ws
      → all_got ws ≡ true
      → (i : ℕ) → k ≤ i
      → i < k + length ws
      → Answered i
  all_got-Each k [] h p i l u = absurd (omega arith)
  all_got-Each k (w ∷ ws) h p i l u =
      let both = and_true (is_got w.outcome) (all_got ws) p in
      elim (le-cases i k) [
        | inl e ↦
            let (m, o) = got_in w.outcome both.0 in
            (m, subst (λ j. Posted log j m) (omega (arith, e, l)) (h.0.1 m o).0, (h.0.1 m o).1)
        | inr e ↦ all_got-Each (k + 1) ws h.1 both.1 i (omega (arith, e)) (omega (arith, u))
      ]

result_in_got : (o : Outcome) (r : WorkerResult) → result_in o ≡ some r → o ≡ got (result r)
result_in_got pending r p = absurd cc
result_in_got (got ready) r p = absurd cc
result_in_got (got warmup_complete) r p = absurd cc
result_in_got (got fatal) r p = absurd cc
result_in_got (got (result r')) r p = cc
result_in_got (refused reason) r p = absurd cc

-- The results are those that the waits have got.
module _ (log : List Event) where
  abbrev pub Reported : ℕ → List WorkerResult → Type 0
  Reported k rs = Each (λ i r. Posted log i (result r)) k rs

  results-cons :
      (k : ℕ) (w : Wait) (ws : List Wait) (rs : List WorkerResult)
      → IsHeard log expects_result k w
      → ((rs' : List WorkerResult)
          → results ws ≡ some rs'
          → (length rs' ≡ length ws) × Reported (k + 1) rs')
      → (o : Option WorkerResult) → result_in w.outcome ≡ o
      → (o' : Option (List WorkerResult)) → results ws ≡ o'
      → (bind o λ r. bind o' λ rs'. some (r ∷ rs')) ≡ some rs
      → (length rs ≡ suc (length ws)) × Reported k rs
  results-cons k w ws rs h rest none e o' e' q = absurd cc
  results-cons k w ws rs h rest (some r) e none e' q = absurd cc
  results-cons k w ws rs h rest (some r) e (some rs') e' q =
      let tail = rest rs' e' in
      let same : r ∷ rs' ≡ rs = cc in
      subst (λ xs. (length xs ≡ suc (length ws)) × Reported k xs) same
        (ap suc tail.0, ((h.1 (result r) (result_in_got w.outcome r e)).0, tail.1))

  pub results-Reported :
      (k : ℕ) (ws : List Wait) (rs : List WorkerResult)
      → Each (IsHeard log expects_result) k ws
      → results ws ≡ some rs
      → (length rs ≡ length ws) × Reported k rs
  results-Reported k [] [] h p = (refl, tt)
  results-Reported k [] (r ∷ rs) h p = absurd cc
  results-Reported k (w ∷ ws) rs h p =
      results-cons k w ws rs h.0 (λ rs' e. results-Reported (k + 1) ws rs' h.1 e)
        (result_in w.outcome) refl (results ws) refl p

pub Reported-weaken :
    (log : List Event) (e : Event) (k : ℕ) (rs : List WorkerResult)
    → Reported log k rs
    → Reported (e ∷ log) k rs
Reported-weaken log e k rs h = Each-weaken _ _ (λ i r posted. Memᴰ.tail posted) k rs h
