-- ===== src/Control/Tests.antt =====
-- src/control/state-machine.ts: a run of the lifecycle.
use benchkit.Prelude.{[], ◌∷◌, inl, inr, ◌≡◌, refl}
use benchkit.Control.{starting, ready, measuring, stopping, stopped, can_transition, transition}
use benchkit.Control.Lifecycle.{transition_all}

whole_life :
    transition_all (ready ∷ measuring ∷ ready ∷ stopping ∷ stopped ∷ []) starting ≡ inr stopped
unfolding transition can_transition
whole_life = refl

stopped_for_good :
    transition_all (stopped ∷ ready ∷ []) stopping
    ≡ inl (record { current = stopped; requested = ready; allowed = [] })
unfolding transition can_transition
stopped_for_good = refl
