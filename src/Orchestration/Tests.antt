-- ===== src/Orchestration/Tests.antt =====
-- src/orchestration/balanced-schedule.ts: runs, and the theorem at a concrete input.
use benchkit.Prelude.{◌≡◌, refl, false, [], ◌∷◌, true}
use benchkit.Orchestration.{Label, scheduled, odd_runs, same_labels, balanced_schedule}

abbrev new_build : Label
new_build = 98 ∷ 50 ∷ []

abbrev old_build : Label
old_build = 98 ∷ 49 ∷ []

odd_test : balanced_schedule 3 new_build old_build true ≡ odd_runs
unfolding balanced_schedule
odd_test = refl

same_test : balanced_schedule 3 new_build new_build false ≡ same_labels
unfolding balanced_schedule
same_test = refl

loose_test :
    balanced_schedule 1 new_build old_build false
    ≡ scheduled (record { round = 1; order = (new_build, old_build) } ∷ [])
unfolding balanced_schedule
loose_test = refl
