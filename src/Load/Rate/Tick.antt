-- ===== src/Load/Rate/Tick.antt =====
-- src/load/shared/load-worker.ts: a tick of the rate schedules or drops all that is due.
use native.Mathlib.Nat.{mod-lt, add-mod_right, mod-add-mod, mod-eq_of_lt}
use benchkit.Prelude.{
  ℕ, zero, suc, ◌+◌, ◌-◌, ◌%◌, ◌<◌, ◌≡◌, refl, sym, ap, ◌∙◌, true, false, none, some, List, [], ◌∷◌,
  map, length, get_elem?, set, length-set, arith, inl, inr, Option-cases, le-cases,
}
use benchkit.Load.Rate.{
  RateConnection, IsRateConnection, RateData, scheduled_at, RateState, can_schedule_at,
  next_available, schedule_at, taken, schedule_due,
}

-- The times of the operations from an index on.
abbrev pub times_from : RateData → ℕ → ℕ → ℕ → List ℕ
times_from d started_at k zero = []
times_from d started_at k (suc n) = scheduled_at d started_at k ∷ times_from d started_at (k + 1) n

module _ {C : Type 0} (ops : RateConnection C) (laws : IsRateConnection C ops) where
  -- What is found can be scheduled.
  next_available-found :
      (attempts next : ℕ) (cs : List C) {index : ℕ}
      → (next_available ops attempts next cs).0 ≡ some index
      → can_schedule_at ops cs index ≡ true
  unfolding next_available
  next_available-found zero next cs e = absurd (ground arith)
  next_available-found (suc attempts) next cs {index} e =
      ground (arith, e, next_available-found attempts ((next + 1) % length cs) cs {index = index})

  next_available-lt :
      (attempts next : ℕ) (cs : List C)
      → next < length cs
      → (next_available ops attempts next cs).1 < length cs
  unfolding next_available
  next_available-lt zero next cs lt = lt
  next_available-lt (suc attempts) next cs lt =
      let after = mod-lt (next + 1) {m = length cs} (omega (arith, lt)) in
      ground (arith, after, next_available-lt attempts ((next + 1) % length cs) cs after)

  -- When nothing is found, none of the connections that were tried can be scheduled.
  next_available-none :
      (attempts next : ℕ) (cs : List C) (j : ℕ)
      → (next_available ops attempts next cs).0 ≡ none
      → next < length cs
      → j < attempts
      → can_schedule_at ops cs ((next + j) % length cs) ≡ false
  unfolding next_available
  next_available-none zero next cs j e lt h = absurd (omega (arith, h))
  next_available-none (suc attempts) next cs zero e lt h =
      ground (arith, e, mod-eq_of_lt {n = next} {m = length cs} lt)
  next_available-none (suc attempts) next cs (suc j) e lt h =
      let after = (next + 1) % length cs in
      let later =
        next_available-none attempts after cs j (ground (arith, e))
          (mod-lt (next + 1) (omega (arith, lt))) (omega (arith, h)) in
      ap (can_schedule_at ops cs) (
        ap (λ n. n % length cs) {x = next + suc j} {y = next + 1 + j} (omega arith)
        ∙ sym (mod-add-mod (next + 1) (length cs) j))
      ∙ later

  refused :
      (next : ℕ) (cs : List C) (i : ℕ)
      → (next_available ops (length cs) next cs).0 ≡ none
      → next < length cs
      → i < length cs
      → can_schedule_at ops cs i ≡ false
  refused next cs i e lt h = elim (le-cases next i) [
    | inl le ↦
        ap (can_schedule_at ops cs) (
          sym (mod-eq_of_lt h)
          ∙ ap (λ n. n % length cs) {x = i} {y = next + (i - next)} (omega (arith, le)))
        ∙ next_available-none (length cs) next cs (i - next) e lt (omega (arith, h))
    | inr gt ↦
        ap (can_schedule_at ops cs) (
          sym (mod-eq_of_lt h)
          ∙ (sym (add-mod_right i (length cs))
              ∙ ap (λ n. n % length cs) {x = i + length cs} {y = next + (i + length cs - next)}
                  (omega (arith, lt))))
        ∙ next_available-none (length cs) next cs (i + length cs - next) e lt
            (omega (arith, gt, lt))
  ]

  schedule_at-yields :
      (cs : List C) (index at : ℕ)
      → can_schedule_at ops cs index ≡ true
      → (cs' : List C) × (schedule_at ops cs index at ≡ some cs') × (length cs' ≡ length cs)
  schedule_at-yields cs index at h = elim (Option-cases (get_elem? cs index)) [
    | inl e ↦ absurd (ground (arith, h, e))
    | inr (c, e) ↦
        let (c', e') = laws.schedules at c (ground (arith, h, e)) in
        (set cs index c', ground (arith, e, e'), length-set cs index c')
  ]

  -- What a run of the loop does with `due` operations.
  pub record Serves (d : RateData) (started_at due : ℕ) (r r' : RateState C) (calls : List (ℕ × ℕ))
      : Type 0 where
    pub scheduled : r'.phase_scheduled ≡ r.phase_scheduled + due
    pub accounted : length calls + r'.dropped ≡ r.dropped + due
    pub times : map (λ c. c.1) calls ≡ times_from d started_at r.phase_scheduled (length calls)
    pub connections : length r'.connections ≡ length r.connections
    pub refuses :
        r.dropped < r'.dropped
        → (i : ℕ) → i < length r'.connections
        → can_schedule_at ops r'.connections i ≡ false

  -- Where the connections keep their word, the loop over `due` operations does not throw; each is
  -- scheduled or counted as dropped, those that are scheduled are the first of them at their times,
  -- and some are dropped only when no connection can be scheduled any more.
  pub schedule_due-Serves :
      (d : RateData) (started_at due : ℕ) (r : RateState C)
      → r.next_connection < length r.connections
      → (r' : RateState C) × (calls : List (ℕ × ℕ)) × (schedule_due ops d started_at due r
          ≡ some (r', calls))
        × Serves d started_at due r r' calls
  unfolding schedule_due
  schedule_due-Serves d started_at zero r lt = (
    r,
    [],
    refl,
    record {
      scheduled = omega arith;
      accounted = omega arith;
      times = refl;
      connections = refl;
      refuses = λ more. absurd (omega (arith, more));
    },
  )
  schedule_due-Serves d started_at (suc due) r lt =
      let cs = r.connections in
      let found = next_available ops (length cs) r.next_connection cs in
      let at = scheduled_at d started_at r.phase_scheduled in
      elim (Option-cases found.0) [
        | inl e ↦ (
          record (taken ops r found.1) {
            phase_scheduled = r.phase_scheduled + 1 + due;
            dropped = r.dropped + (due + 1);
          },
          [],
          ground (arith, e),
          record {
            scheduled = omega arith;
            accounted = omega arith;
            times = refl;
            connections = refl;
            refuses = λ more i h. refused r.next_connection cs i e lt h;
          },
        )
        | inr (index, e) ↦
            let (cs', e', len) =
              schedule_at-yields cs index at
                (next_available-found (length cs) r.next_connection cs e) in
            let next = record (taken ops r found.1) { connections = cs' } in
            let (r', calls, e'', h) =
              schedule_due-Serves d started_at due next
                (omega (arith, len, next_available-lt (length cs) r.next_connection cs lt)) in
            (
              r',
              (index, at) ∷ calls,
              ground (arith, e, e', e''),
              record {
                scheduled = omega (arith, h.scheduled);
                accounted = omega (arith, h.accounted);
                times = ap (◌∷◌ at) h.times;
                connections = h.connections ∙ len;
                refuses = h.refuses;
              },
            )
      ]
