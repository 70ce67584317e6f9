-- ===== src/Timestamps/Tests.antt =====
-- src/load/shared/timestamp-queue.ts: the theorems at concrete inputs.
use benchkit.Prelude.{◌≡◌, refl, true, some, none, List, [], ◌∷◌}
use benchkit.Timestamps.{new, push, shift, clear, peek_timeout_start}
use benchkit.Timestamps.History.{
  Call, pushes, shifts, peeks, clears, overflow, done, value, call, replies, replies_list,
  replies-new,
}

-- a second push beyond the capacity, and a wrap around its end
abbrev some_calls : List Call
some_calls = pushes 5 6 ∷ pushes 7 8 ∷ peeks ∷ shifts ∷ pushes 9 10 ∷ shifts ∷ clears ∷ shifts ∷ []

replies-some_calls :
    replies (new 1 true) some_calls
    ≡ done
      ∷ overflow
      ∷ value (some 6)
      ∷ value (some 5)
      ∷ done
      ∷ value (some 9)
      ∷ done
      ∷ value none
      ∷ []
unfolding replies call new push shift clear peek_timeout_start
replies-some_calls = refl

replies-new_example : replies (new 1 true) some_calls ≡ replies_list 1 true [] some_calls
replies-new_example = replies-new 1 true some_calls
