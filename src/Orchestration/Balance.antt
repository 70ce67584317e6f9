-- ===== src/Orchestration/Balance.antt =====
-- src/orchestration/balanced-schedule.ts: each label goes first as often as the other.
use benchkit.Prelude.{ℕ, ◌+◌, if◌then◌else◌, Bool, List, [], ◌∷◌}
use benchkit.Orchestration.{Label, Entry}

-- how many entries have a label that passes a test first
abbrev pub firsts : (Label → Bool) → List Entry → ℕ
firsts test [] = 0
firsts test (e ∷ es) = (if test e.order.0 then 1 else 0) + firsts test es
