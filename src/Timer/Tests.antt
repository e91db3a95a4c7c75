-- ===== src/Timer/Tests.antt =====
-- Runs of the timers of util/timer, and the theorems at these runs.
use mathlib.Core.List.{Perm}
use goms.Base.{ℕ, [], ◌∷◌, ◌++◌, ◌+◌, ◌*◌, ◌≤◌, ◌<◌, true, some, ◌≡◌, arith, All, ◌⊎◌}
use goms.Base.Int.{pos, negsuc}
use goms.Timer.{TimerFunc, Caches, check_second_cache, take_due, put_into, new_timer, advance}
use goms.Timer.Moves.{
  DueBy, DueAfter, waiting, take_due_lem, check_second_cache-perm, put_into-perm, IsAhead,
  put_into-IsAhead,
}
use goms.Timer.Runs.{new_timer-runs, fires-forever, calls_of, fires, schedule}
use goms.Timer.Start.{advance_lem}

abbrev timer_at : ℕ → TimerFunc
timer_at next = record { next = next; interval = 10; times = pos 3; function = 1 }

abbrev caches : Caches
caches = record {
  first = timer_at 5 ∷ timer_at 9 ∷ [];
  second = timer_at 3000000000 ∷ [];
  third = [];
  second_count = 0;
  third_count = 0;
  level = 5;
}

take_due_lem_example :
    All (DueBy 7) (take_due 7 caches).0
    × All (DueAfter 7) (take_due 7 caches).1.first
    × Perm ((take_due 7 caches).0 ++ waiting (take_due 7 caches).1) (waiting caches)
take_due_lem_example = take_due_lem 7 caches

check_second_cache-perm_example :
    Perm (waiting (check_second_cache 600000000 caches)) (waiting caches)
check_second_cache-perm_example = check_second_cache-perm 600000000 caches

put_into-perm_example :
    Perm (waiting (put_into 7 (timer_at 20) caches)) (timer_at 20 ∷ waiting caches)
put_into-perm_example = put_into-perm 7 (timer_at 20) caches

put_into-IsAhead_example : IsAhead 7 (put_into 8 (timer_at 20) caches)
put_into-IsAhead_example =
    put_into-IsAhead 7 8 (timer_at 20) caches (omega arith)
      (record { second_ahead = (omega arith, tt) })

new_timer-runs_example : calls_of 9 (new_timer (pos 3) true 100 10 1) ≡ some (1, 100 ∷ 110 ∷ [])
unfolding schedule
new_timer-runs_example = new_timer-runs 2 9 true 100 10 1 (omega arith)

fires-forever_example :
    fires 2 (record { next = 100; interval = 10; times = negsuc 0; function = 1 }) ≡ 100 ∷ 110 ∷ []
unfolding schedule
fires-forever_example = fires-forever 2 100 10 1

advance_lem_example :
    (50 < advance 46 10 50 5)
    × (rounds : ℕ) × (advance 46 10 50 5 ≡ 5 + rounds * 10)
    × ((rounds ≡ 0) ⊎ (advance 46 10 50 5 ≤ 50 + 10))
advance_lem_example = advance_lem 46 10 50 5 (omega arith) (omega arith)
