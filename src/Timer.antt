-- ===== src/Timer.antt =====
-- util/timer: one-shot and repeating timers in three caches by how soon they are due. Times are
-- nanoseconds after 1970; a timer carries a number in place of its function and message. The
-- goroutines of the package each take the caches' locks, so they are steps of their own here, each
-- with the clock that it read.
pub mod Moves
pub mod Runs
pub mod Start
pub mod Tests
use goms.Base.{
  ℕ, zero, suc, List, [], ◌∷◌, ◌++◌, ◌+◌, ◌*◌, ◌/◌, ◌≤◌, ◌<◌, Bool, true, false, if◌then◌else◌, leb,
  ltb, Option, none, some, ◌==◌,
}
use goms.Base.Int.{ℤ, pos, negsuc}

abbrev pub second_time_unit : ℕ
second_time_unit = 1000 * (1000 * 1000)

-- 100ms
abbrev pub basic_number : ℕ
basic_number = 100 * (1000 * 1000)

pub record TimerFunc : Type 0 where
  pub next : ℕ
  pub interval : ℕ
  pub times : ℤ
  pub function : ℕ

-- The containers `first`, `second` and `third`, the counters of the last two, and `level`.
pub record Caches : Type 0 where
  pub first : List TimerFunc
  pub second : List TimerFunc
  pub third : List TimerFunc
  pub second_count : ℕ
  pub third_count : ℕ
  pub level : ℕ

abbrev pub first_cut : ℕ → ℕ
first_cut level = 5 * basic_number * level

abbrev pub second_cut : ℕ → ℕ
second_cut level = 25 * basic_number * level

unfoldable pub time_split : List TimerFunc → ℕ → List TimerFunc × List TimerFunc
time_split [] timestamp = ([], [])
time_split (row ∷ rows) timestamp =
    let (mins, maxs) = time_split rows timestamp in
    if leb row.next timestamp then (row ∷ mins, maxs) else (mins, row ∷ maxs)

unfoldable pub put_into : ℕ → TimerFunc → Caches → Caches
put_into now t c =
    if leb t.next (now + first_cut c.level)
    then record c { first = c.first ++ t ∷ [] }
    else if ltb (now + second_cut c.level) t.next
    then record c { third = c.third ++ t ∷ [] }
    else record c { second = c.second ++ t ∷ [] }

-- The part of checkSecondCache that moves timers; the count of its calls is `count_second`.
unfoldable pub check_second_cache : ℕ → Caches → Caches
unfolding time_split
check_second_cache now c =
    let (mins, maxs) = time_split c.second (now + first_cut c.level) in
    record c { first = c.first ++ mins; second = maxs }

unfoldable pub check_third_cache : ℕ → Caches → Caches
unfolding time_split
check_third_cache now c =
    let (mins, maxs) = time_split c.third (now + second_cut c.level) in
    record c { second = c.second ++ mins; third = maxs }

-- The counters: every fourth tick starts checkSecondCache, every fifth of those checkThirdCache.
unfoldable pub count_tick : Caches → Caches × Bool
count_tick c =
    if leb 4 (c.second_count + 1)
    then (record c { second_count = 0 }, true)
    else (record c { second_count = c.second_count + 1 }, false)

unfoldable pub count_second : Caches → Caches × Bool
count_second c =
    if leb 5 (c.third_count + 1)
    then (record c { third_count = 0 }, true)
    else (record c { third_count = c.third_count + 1 }, false)

-- The ticker's take of what is due from the first cache.
unfoldable pub take_due : ℕ → Caches → List TimerFunc × Caches
unfolding time_split
take_due now c = let (mins, maxs) = time_split c.first now in (mins, record c { first = maxs })

-- `run`: whether the function is called, and the timer that is put back. -1 stays as it is, and any
-- other count goes down.
rerun : ℕ → TimerFunc → TimerFunc
rerun zero t = record t { next = t.next + t.interval }
rerun (suc n) t = record t { times = negsuc (suc (suc n)); next = t.next + t.interval }

run_times : ℕ → TimerFunc → Bool × Option TimerFunc
run_times zero t = (false, none)
run_times (suc zero) t = (true, none)
run_times (suc (suc n)) t =
    (true, some (record t { times = pos (suc n); next = t.next + t.interval }))

unfoldable pub run : TimerFunc → Bool × Option TimerFunc
unfolding rerun run_times
run t = elim t.times [ negsuc n ↦ (true, some (rerun n t)) | pos n ↦ run_times n t ]

-- The loop at the end of checkTime, in seconds; `fuel` bounds its rounds.
unfoldable pub advance : ℕ → ℕ → ℕ → ℕ → ℕ
advance zero step now next = next
advance (suc fuel) step now next =
    let rest = advance fuel step now (next + step) in if leb next now then rest else next

-- NewTimer once checkTime has given the first time and the interval: how often the function is
-- called at once, and the timer that is put into a cache. `none` is the error of zero runs.
unfoldable pub new_timer : ℤ → Bool → ℕ → ℕ → ℕ → Option (ℕ × Option TimerFunc)
new_timer (pos zero) at_once next interval function = none
new_timer (negsuc n) at_once next interval function = some (
  (if at_once then 1 else 0),
  some (record { next = next; interval = interval; times = negsuc 0; function = function }),
)
new_timer (pos (suc zero)) at_once next interval function =
    if at_once
    then some (1, none)
    else some
        (0, some (record { next = next; interval = interval; times = pos 1; function = function }))
new_timer (pos (suc (suc n))) at_once next interval function =
    if at_once
    then some (
      1,
      some (record { next = next; interval = interval; times = pos (suc n); function = function }),
    )
    else some (
      0,
      some (record {
        next = next;
        interval = interval;
        times = pos (suc (suc n));
        function = function;
      }),
    )
