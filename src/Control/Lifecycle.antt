-- ===== src/Control/Lifecycle.antt =====
-- src/control/state-machine.ts: which states a target reaches, and that it ends.
use benchkit.Prelude.{
  ℕ, ◌≤◌, ◌≡◌, ◌↔◌, ◌⊎◌, refl, inl, inr, true, List, [], ◌∷◌, arith, Bool-cases, length,
}
use benchkit.Control.{
  InvalidState, TargetState, can_transition, transition, starting, ready, measuring, stopping,
  stopped, failed,
}

-- The lifecycle that the states' names describe: a target starts, alternates between ready and
-- measuring, stops in two steps, and may fail until it has ended.
pub data Step : TargetState → TargetState → Type 0 where
  starts : Step starting ready
  begins_measuring : Step ready measuring
  ends_measuring : Step measuring ready
  stops_ready : Step ready stopping
  stops_measuring : Step measuring stopping
  ends : Step stopping stopped
  fails_starting : Step starting failed
  fails_ready : Step ready failed
  fails_measuring : Step measuring failed
  fails_stopping : Step stopping failed

Step-of : (s t : TargetState) → can_transition s t ≡ true → Step s t
unfolding can_transition
Step-of starting ready h = starts
Step-of ready measuring h = begins_measuring
Step-of measuring ready h = ends_measuring
Step-of ready stopping h = stops_ready
Step-of measuring stopping h = stops_measuring
Step-of stopping stopped h = ends
Step-of starting failed h = fails_starting
Step-of ready failed h = fails_ready
Step-of measuring failed h = fails_measuring
Step-of stopping failed h = fails_stopping
Step-of _ _ h = absurd (ground (arith, h))

of-Step : {s t : TargetState} → Step s t → can_transition s t ≡ true
unfolding can_transition
of-Step starts = refl
of-Step begins_measuring = refl
of-Step ends_measuring = refl
of-Step stops_ready = refl
of-Step stops_measuring = refl
of-Step ends = refl
of-Step fails_starting = refl
of-Step fails_ready = refl
of-Step fails_measuring = refl
of-Step fails_stopping = refl

-- A requested transition is applied exactly when the lifecycle has that step, and then the new state
-- is the one requested.
transition_iff : (s t u : TargetState) → (transition s t ≡ inr u) ↔ (Step s t × (u ≡ t))
unfolding transition
transition_iff s t u = (
  (λ e. elim (Bool-cases (can_transition s t)) [
    | inl h ↦ (Step-of s t h, ground (arith, h, e))
    | inr h ↦ absurd (ground (arith, h, e))
  ]),
  (λ h. ground (arith, of-Step h.0, h.1)),
)

-- transitions requested one after another, up to the first error
abbrev pub transition_all : List TargetState → TargetState → InvalidState ⊎ TargetState
transition_all [] s = inr s
transition_all (t ∷ ts) s = elim (transition s t) [ inl e ↦ inl e | inr u ↦ transition_all ts u ]

-- what a target may still do: nothing once it ended, one step while it stops
abbrev pub steps_left : TargetState → ℕ → ℕ
steps_left stopped n = 0
steps_left failed n = 0
steps_left stopping n = 1
steps_left _ n = n

-- However transitions are requested, a target that is stopping is applied at most one of them
-- without an error, and a target that stopped or failed none.
transition_all_ends :
    (s u : TargetState) (ts : List TargetState)
    → transition_all ts s ≡ inr u
    → length ts ≤ steps_left s (length ts)
unfolding transition can_transition
transition_all_ends s u [] e = ground arith
transition_all_ends s u (t ∷ []) e = ground (arith, e)
transition_all_ends s u (t ∷ t' ∷ ts) e = ground (arith, e)
