-- ===== src/Control.antt =====
-- src/control/state-machine.ts: the lifecycle of a managed target.
mod Tests
pub mod Lifecycle
pub mod Ndjson
pub mod Protocol
pub mod Client
pub mod Session
use benchkit.Prelude.{if◌then◌else◌, Bool, true, false, ◌||◌, List, [], ◌∷◌, ◌⊎◌, inl, inr}

pub data TargetState : Type 0 where
  starting ready measuring stopping stopped failed : TargetState

abbrev pub same_state : TargetState → TargetState → Bool
same_state starting starting = true
same_state ready ready = true
same_state measuring measuring = true
same_state stopping stopping = true
same_state stopped stopped = true
same_state failed failed = true
same_state _ _ = false

-- `TRANSITIONS`
abbrev pub transitions : TargetState → List TargetState
transitions starting = ready ∷ failed ∷ []
transitions ready = measuring ∷ stopping ∷ failed ∷ []
transitions measuring = ready ∷ stopping ∷ failed ∷ []
transitions stopping = stopped ∷ failed ∷ []
transitions stopped = []
transitions failed = []

abbrev pub includes : List TargetState → TargetState → Bool
includes [] to = false
includes (s ∷ ss) to = same_state s to || includes ss to

-- `InvalidStateError`
pub record InvalidState : Type 0 where
  pub current : TargetState
  pub requested : TargetState
  pub allowed : List TargetState

-- `canTransition`
unfoldable pub can_transition : TargetState → TargetState → Bool
can_transition state to = includes (transitions state) to

-- `transition`: the error that `assertCanTransition` throws, or the new state
unfoldable pub transition : TargetState → TargetState → InvalidState ⊎ TargetState
transition state to =
    if can_transition state to
    then inr to
    else inl (record { current = state; requested = to; allowed = transitions state })
