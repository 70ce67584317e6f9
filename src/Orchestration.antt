-- ===== src/Orchestration.antt =====
-- src/orchestration/balanced-schedule.ts: the alternating order of paired benchmark runs.
pub mod Balance
mod Tests
use benchkit.Prelude.{
  ℕ, zero, suc, ◌+◌, ◌%◌, ◌==◌, leb, if◌then◌else◌, Bool, true, false, not, ◌&&◌, ◌||◌, List, [],
  ◌∷◌, max_safe_integer,
}

-- A label, by the code units of its string.
abbrev pub Label : Type 0
Label = List ℕ

pub record Entry : Type 0 where
  pub round : ℕ
  pub order : Label × Label

pub data Schedule : Type 0 where
  scheduled : List Entry → Schedule
  runs_out_of_range odd_runs empty_label same_labels : Schedule

abbrev pub is_empty : Label → Bool
is_empty [] = true
is_empty (u ∷ us) = false

-- `===` on strings
abbrev pub same_label : Label → Label → Bool
same_label [] [] = true
same_label [] (v ∷ vs) = false
same_label (u ∷ us) [] = false
same_label (u ∷ us) (v ∷ vs) = (u == v) && same_label us vs

-- the entry that the callback of `Array.from` gives for an index
abbrev pub entry : Label → Label → ℕ → Entry
entry candidate reference index = record {
  round = index + 1;
  order = if index % 2 == 0 then (candidate, reference) else (reference, candidate);
}

-- `Array.from` over the indices that are left
abbrev pub entries_from : Label → Label → ℕ → ℕ → List Entry
entries_from candidate reference index zero = []
entries_from candidate reference index (suc left) =
    entry candidate reference index ∷ entries_from candidate reference (index + 1) left

-- `balancedSchedule` for a number of runs that is a whole number
unfoldable pub balanced_schedule : ℕ → Label → Label → Bool → Schedule
balanced_schedule runs candidate reference strict_balance =
    if not (leb 1 runs && leb runs max_safe_integer)
    then runs_out_of_range
    else if strict_balance && not (runs % 2 == 0)
    then odd_runs
    else if is_empty candidate || is_empty reference
    then empty_label
    else if same_label candidate reference
    then same_labels
    else scheduled (entries_from candidate reference 0 runs)
