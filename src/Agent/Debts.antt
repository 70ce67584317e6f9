-- ===== src/Agent/Debts.antt =====
-- src/agent/agent.ts: the requests that wait, and what settles one of them.
use benchkit.Prelude.{
  ℕ, ◌+◌, ◌≡◌, ◌==◌, if◌then◌else◌, Bool, true, false, not, ◌&&◌, ◌||◌, Option, none, some, List,
  [], ◌∷◌, ◌++◌, ◌⊎◌, inl, inr, arith, refl, if_both,
}
use benchkit.Control.{
  TargetState, ready, measuring, stopping, stopped, failed, InvalidState, transition,
}
use benchkit.Control.Protocol.{RequestType, target_start, metrics_start, metrics_stop, target_stop}
use benchkit.Agent.{
  Purpose, fails_start, completes_stop, closes_agent, Stage, finding_port, awaiting_ready,
  awaiting_start, awaiting_stop, shutting_down, awaiting_exit, Handler, Agent, Call, responds,
  pluck, suspend, can_reach, respond, moved, advance_from, advance, terminated, is_gone,
  is_connected, command, terminate, fail_start, ask_target, dispatch, continue, continue_with,
  resume, has_machine, has_target, behind,
}

-- responses with an id
abbrev pub answers : ℕ → List Call → ℕ
answers n [] = 0
answers n (responds id is_ok ∷ calls) = (if id == n then 1 else 0) + answers n calls
answers n (_ ∷ calls) = answers n calls

-- whether a handler at a stage has an answer to give
abbrev pub owes : Stage → Bool
owes (shutting_down closes_agent) = false
owes (awaiting_exit closes_agent) = false
owes _ = true

abbrev pub debt : ℕ → ℕ → Stage → ℕ
debt n id stage = if owes stage && id == n then 1 else 0

-- the requests with an id that wait
abbrev pub waits : ℕ → List Handler → ℕ
waits n [] = 0
waits n (h ∷ hs) = debt n h.id h.stage + waits n hs

-- A step that starts from so many requests with an id answers some and leaves the others waiting.
abbrev pub Owes : ℕ → ℕ → Agent × List Call → Type 0
Owes n before r = answers n r.1 + waits n (r.0).handlers ≡ before

pub answers-append :
    (n : ℕ) (xs ys : List Call) → answers n (xs ++ ys) ≡ answers n xs + answers n ys
answers-append n [] ys = omega arith
answers-append n (x ∷ xs) ys = ground (arith, answers-append n xs ys)

pub waits-pluck :
    (n number : ℕ) (hs : List Handler) (h : Handler) (rest : List Handler)
    → pluck number hs ≡ some (h, rest)
    → waits n hs ≡ debt n h.id h.stage + waits n rest
waits-pluck n number [] h rest e = cc
waits-pluck n number (x ∷ hs) h rest e =
    from (x.number == number) (pluck number hs) refl (λ h' rest'. waits-pluck n number hs h' rest')
      e
  where
    from :
        (here : Bool) (o : Option (Handler × List Handler))
        → pluck number hs ≡ o
        → ((h' : Handler) (rest' : List Handler)
            → pluck number hs ≡ some (h', rest')
            → waits n hs ≡ debt n h'.id h'.stage + waits n rest')
        → if◌then◌else◌ {A = Option (Handler × List Handler)} here (some (x, hs)) (behind x o)
          ≡ some (h, rest)
        → debt n x.id x.stage + waits n hs ≡ debt n h.id h.stage + waits n rest
    from true o e ih e' = ground arith
    from false none e ih e' = cc
    from false (some r) e ih e' = ground (arith, ih r.0 r.1 e)

module _ (n : ℕ) where
  abbrev pub one : ℕ → ℕ
  one id = if id == n then 1 else 0

  pub respond-Owes :
      (id : ℕ) (is_ok : Bool) (a : Agent)
      → Owes n (one id + waits n a.handlers) (respond id is_ok a)
  respond-Owes id is_ok a = omega arith

  moved-Owes :
      (id : ℕ) (o : InvalidState ⊎ TargetState) (a : Agent)
      → Owes n (one id + waits n a.handlers) (moved id o a)
  moved-Owes id (inl e) a = omega arith
  moved-Owes id (inr s) a = omega arith

  pub advance-Owes :
      (id : ℕ) (to : TargetState) (a : Agent)
      → Owes n (one id + waits n a.handlers) (advance id to a)
  unfolding advance
  advance-Owes id to a = from a.machine
    where
      from :
          (o : Option TargetState) → Owes n (one id + waits n a.handlers) (advance_from o id to a)
      from none = omega arith
      from (some s) = moved-Owes id (transition s to) a

  pub terminated-Owes :
      (purpose : Purpose) (id : ℕ) (a : Agent)
      → Owes n (debt n id (awaiting_exit purpose) + waits n a.handlers) (terminated purpose id a)
  terminated-Owes fails_start id a = omega arith
  terminated-Owes completes_stop id a = advance-Owes id stopped a
  terminated-Owes closes_agent id a = omega arith

  owes_same : (purpose : Purpose) → owes (shutting_down purpose) ≡ owes (awaiting_exit purpose)
  owes_same fails_start = refl
  owes_same completes_stop = refl
  owes_same closes_agent = refl

  pub terminate-Owes :
      (shutdown_id : ℕ) (purpose : Purpose) (number id : ℕ) (a : Agent)
      → Owes n
          (debt n id (awaiting_exit purpose) + waits n a.handlers)
          (terminate shutdown_id purpose number id a)
  unfolding terminate
  terminate-Owes shutdown_id purpose number id a =
      let before = debt n id (awaiting_exit purpose) + waits n a.handlers in
      let a' = record a { expects_exit = true } in
      if_both (Owes n before) (is_gone a.target) (terminated-Owes purpose id a) (
        if_both (Owes n before) (is_connected a.target)
          {x = command shutdown_id
            (record { number = number; id = id; stage = shutting_down purpose }) a'}
          {y = (
            suspend (record { number = number; id = id; stage = awaiting_exit purpose }) a',
            [],
          )}
          (ground (arith, owes_same purpose)) (omega arith))

  pub fail_start-Owes :
      (shutdown_id number id : ℕ) (a : Agent)
      → Owes n (one id + waits n a.handlers) (fail_start shutdown_id number id a)
  unfolding fail_start
  fail_start-Owes shutdown_id number id a =
      if_both
        (λ a'.
          Owes n (one id + waits n a.handlers) (terminate shutdown_id fails_start number id a'))
        (can_reach a.machine failed)
        (terminate-Owes shutdown_id fails_start number id (record a { machine = some failed }))
        (terminate-Owes shutdown_id fails_start number id a)

  ask_target-Owes :
      (stage : Stage) (to : TargetState) (number id : ℕ) (a : Agent)
      → owes stage ≡ true
      → Owes n (one id + waits n a.handlers) (ask_target stage to number id a)
  ask_target-Owes stage to number id a e = ground (arith, e)

  pub dispatch-Owes :
      (shutdown_id : ℕ) (type : RequestType) (is_valid : Bool) (number id : ℕ) (a : Agent)
      → Owes n (one id + waits n a.handlers) (dispatch shutdown_id type is_valid number id a)
  unfolding dispatch
  dispatch-Owes shutdown_id target_start is_valid number id a = ground arith
  dispatch-Owes shutdown_id metrics_start is_valid number id a =
      if_both (Owes n (one id + waits n a.handlers))
        (not (has_machine a.machine) || not (has_target a.target)) (respond-Owes id false a)
        (ask_target-Owes awaiting_start measuring number id a refl)
  dispatch-Owes shutdown_id metrics_stop is_valid number id a =
      if_both (Owes n (one id + waits n a.handlers))
        (not (has_machine a.machine) || not (has_target a.target)) (respond-Owes id false a)
        (ask_target-Owes awaiting_stop ready number id a refl)
  dispatch-Owes shutdown_id target_stop is_valid number id a =
      if_both (Owes n (one id + waits n a.handlers))
        (not (has_target a.target) || not (can_reach a.machine stopping)) (respond-Owes id false a)
        (terminate-Owes shutdown_id completes_stop number id (record a { machine = some stopping }))

  continue-Owes :
      (is_ok : Bool) (number id : ℕ) (stage : Stage) (a : Agent)
      → Owes n (debt n id stage + waits n a.handlers) (continue is_ok number id stage a)
  continue-Owes is_ok number id finding_port a = omega arith
  continue-Owes is_ok number id awaiting_ready a = omega arith
  continue-Owes is_ok number id awaiting_start a =
      if_both (Owes n (one id + waits n a.handlers)) is_ok (advance-Owes id measuring a)
        (respond-Owes id false a)
  continue-Owes is_ok number id awaiting_stop a =
      if_both (Owes n (one id + waits n a.handlers)) is_ok (advance-Owes id ready a)
        (respond-Owes id false a)
  continue-Owes is_ok number id (shutting_down purpose) a = ground (arith, owes_same purpose)
  continue-Owes is_ok number id (awaiting_exit purpose) a = omega arith

  pub resume-Owes :
      (is_ok : Bool) (number : ℕ) (a : Agent) → Owes n (waits n a.handlers) (resume is_ok number a)
  unfolding resume
  resume-Owes is_ok number a = from (pluck number a.handlers) refl
    where
      from :
          (o : Option (Handler × List Handler))
          → pluck number a.handlers ≡ o
          → Owes n (waits n a.handlers) (continue_with is_ok o a)
      from none e = omega arith
      from (some r) e =
          let k =
            continue-Owes is_ok (r.0).number (r.0).id (r.0).stage (record a { handlers = r.1 }) in
          omega (arith, k, waits-pluck n number a.handlers r.0 r.1 e)
