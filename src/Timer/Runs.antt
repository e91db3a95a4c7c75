-- ===== src/Timer/Runs.antt =====
-- How often and when a timer's function is called: `run` of util/timer/cache.go, again and again,
-- from the timer that NewTimer of util/timer/timer.go puts in.
use goms.Base.{
  ℕ, zero, suc, List, [], ◌∷◌, ◌+◌, ◌≤◌, Bool, true, false, if◌then◌else◌, Option, none, some, ◌≡◌,
  refl, ap, arith,
}
use goms.Base.Int.{pos, negsuc}
use goms.Timer.{TimerFunc, run, new_timer}

-- The times at which `run` calls the function, when the ticker runs the timer at each time that it
-- falls due and it is put back, for `fuel` runs.
unfoldable pub fires : ℕ → TimerFunc → List ℕ
unfolding run
fires zero t = []
fires (suc fuel) t =
    let more : List ℕ = elim (run t).1 [ none ↦ [] | some again ↦ fires fuel again ] in
    if (run t).0 then t.next ∷ more else more

-- `n` times from `next` on, `interval` apart.
unfoldable pub schedule : ℕ → ℕ → ℕ → List ℕ
schedule zero next interval = []
schedule (suc n) next interval = next ∷ schedule n (next + interval) interval

-- A timer of `n` runs calls its function exactly `n` times, at its first time and then one interval
-- apart, and no more however long the ticker goes on.
pub fires-pos :
    (n fuel next interval function : ℕ)
    → n ≤ fuel
    → fires fuel (record { next = next; interval = interval; times = pos n; function = function })
      ≡ schedule n next interval
unfolding fires schedule run
fires-pos zero zero next interval function h = refl
fires-pos zero (suc fuel) next interval function h = refl
fires-pos (suc n) zero next interval function h = ground arith
fires-pos (suc zero) (suc fuel) next interval function h = refl
fires-pos (suc (suc n)) (suc fuel) next interval function h =
    ap (λ l. next ∷ l) (fires-pos (suc n) fuel (next + interval) interval function (ground arith))

-- A timer of -1 runs is called at each of its times for as long as the ticker goes on.
pub fires-forever :
    (fuel next interval function : ℕ)
    → fires fuel
        (record { next = next; interval = interval; times = negsuc 0; function = function })
      ≡ schedule fuel next interval
unfolding fires schedule run
fires-forever zero next interval function = refl
fires-forever (suc fuel) next interval function =
    ap (λ l. next ∷ l) (fires-forever fuel (next + interval) interval function)

abbrev pub calls_of : ℕ → Option (ℕ × Option TimerFunc) → Option (ℕ × List ℕ)
calls_of fuel none = none
calls_of fuel (some (now, none)) = some (now, [])
calls_of fuel (some (now, some t)) = some (now, fires fuel t)

-- For n + 1 runs, and at least as much fuel, NewTimer with the flag for a run at once makes one
-- call at once and the timer makes n calls, at its first time and then one interval apart; without
-- the flag the timer makes all n + 1. No call follows.
pub new_timer-runs :
    (n fuel : ℕ) (at_once : Bool) (next interval function : ℕ)
    → suc n ≤ fuel
    → calls_of fuel (new_timer (pos (suc n)) at_once next interval function)
      ≡ some
          (if at_once then (1, schedule n next interval) else (0, schedule (suc n) next interval))
unfolding new_timer schedule
new_timer-runs zero fuel true next interval function h = refl
new_timer-runs zero fuel false next interval function h =
    ap (λ l. some (0, l)) (fires-pos 1 fuel next interval function h)
new_timer-runs (suc n) fuel true next interval function h =
    ap (λ l. some (1, l)) (fires-pos (suc n) fuel next interval function (ground arith))
new_timer-runs (suc n) fuel false next interval function h =
    ap (λ l. some (0, l)) (fires-pos (suc (suc n)) fuel next interval function h)
