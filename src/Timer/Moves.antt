-- ===== src/Timer/Moves.antt =====
-- The caches of util/timer/cache.go, by the timers that wait in them.
use mathlib.Core.List.{Perm, perm_middle, perm_append_singleton}
use mathlib.Core.List.Perm
use goms.Base.{
  ℕ, List, [], ◌∷◌, ◌++◌, ◌+◌, ◌≤◌, ◌<◌, leb, ltb, arith, All, All-append, Bool-cases, inl, inr,
  append_assoc,
}
use goms.Timer.{
  TimerFunc, Caches, first_cut, second_cut, time_split, put_into, check_second_cache,
  check_third_cache, take_due,
}

abbrev pub DueBy : ℕ → TimerFunc → Type 0
DueBy at t = t.next ≤ at

abbrev pub DueAfter : ℕ → TimerFunc → Type 0
DueAfter at t = at < t.next

-- TimeSplit puts what is due by the time in its first result and the rest in its second.
pub time_split_sound :
    (rows : List TimerFunc) (at : ℕ)
    → All (DueBy at) (time_split rows at).0 × All (DueAfter at) (time_split rows at).1
unfolding time_split
time_split_sound [] at = (tt, tt)
time_split_sound (row ∷ rows) at = ground (arith, time_split_sound rows at)

time_split-perm :
    (rows : List TimerFunc) (at : ℕ) → Perm ((time_split rows at).0 ++ (time_split rows at).1) rows
unfolding time_split
time_split-perm [] at = Perm.refl []
time_split-perm (row ∷ rows) at = elim (Bool-cases (leb row.next at)) [
  | inl due ↦ rw due (Perm.cons row (time_split-perm rows at))
  | inr later ↦ rw later (
      Perm.trans (perm_middle (time_split rows at).0 (time_split rows at).1)
        (Perm.cons row (time_split-perm rows at)))
]

-- Every timer that waits, in whichever cache.
abbrev pub waiting : Caches → List TimerFunc
waiting c = c.first ++ (c.second ++ c.third)

-- Moving the early part of one list to the end of the list before it.
move_perm :
    (a b rest : List TimerFunc) (at : ℕ)
    → Perm ((a ++ (time_split b at).0) ++ ((time_split b at).1 ++ rest)) (a ++ (b ++ rest))
move_perm a b rest at =
    let mins = (time_split b at).0 in
    let maxs = (time_split b at).1 in
    rw (append_assoc a mins (maxs ++ rest), ← append_assoc mins maxs rest)
      (Perm.append_left a (Perm.append_right rest (time_split-perm b at)))

-- The check of the second cache keeps every waiting timer, once.
pub check_second_cache-perm :
    (now : ℕ) (c : Caches) → Perm (waiting (check_second_cache now c)) (waiting c)
unfolding check_second_cache
check_second_cache-perm now c = move_perm c.first c.second c.third (now + first_cut c.level)

pub check_third_cache-perm :
    (now : ℕ) (c : Caches) → Perm (waiting (check_third_cache now c)) (waiting c)
unfolding check_third_cache
check_third_cache-perm now c =
    Perm.append_left c.first (third_perm c.second c.third (now + second_cut c.level))
  where
    third_perm :
        (b rest : List TimerFunc) (at : ℕ)
        → Perm ((b ++ (time_split rest at).0) ++ (time_split rest at).1) (b ++ rest)
    third_perm b rest at =
        rw (append_assoc b (time_split rest at).0 (time_split rest at).1)
          (Perm.append_left b (time_split-perm rest at))

snoc_perm : (t : TimerFunc) (l : List TimerFunc) → Perm (l ++ t ∷ []) (t ∷ l)
snoc_perm t l = perm_append_singleton t l

-- A timer that is put in waits besides those that waited before.
pub put_into-perm :
    (now : ℕ) (t : TimerFunc) (c : Caches) → Perm (waiting (put_into now t c)) (t ∷ waiting c)
unfolding put_into
put_into-perm now t c = elim (Bool-cases (leb t.next (now + first_cut c.level))) [
  | inl soon ↦ rw soon (Perm.append_right (c.second ++ c.third) (snoc_perm t c.first))
  | inr later ↦ rw later (elim (Bool-cases (ltb (now + second_cut c.level) t.next)) [
    | inl far ↦ rw far (
        Perm.trans (Perm.append_left c.first (Perm.append_left c.second (snoc_perm t c.third))) (
          Perm.trans (Perm.append_left c.first (perm_middle c.second c.third))
            (perm_middle c.first (c.second ++ c.third))))
    | inr near ↦ rw near (
        Perm.trans (Perm.append_left c.first (Perm.append_right c.third (snoc_perm t c.second)))
          (perm_middle c.first (c.second ++ c.third)))
  ])
]

-- What the ticker takes from the first cache is due, what it leaves there is not, and what it took
-- together with what stays in the caches is what waited before, each timer once.
pub take_due_lem :
    (now : ℕ) (c : Caches)
    → All (DueBy now) (take_due now c).0
      × All (DueAfter now) (take_due now c).1.first
      × Perm ((take_due now c).0 ++ waiting (take_due now c).1) (waiting c)
unfolding take_due
take_due_lem now c =
    let sound = time_split_sound c.first now in
    (
      sound.0,
      sound.1,
      rw
          (← append_assoc (time_split c.first now).0 (time_split c.first now).1
            (c.second ++ c.third))
          (Perm.append_right (c.second ++ c.third) (time_split-perm c.first now)),
    )

-- At the clock `last` of the latest check nothing in the later caches falls due within the time
-- that a cache holds back.
pub record IsAhead (last : ℕ) (c : Caches) : Type 0 where
  pub second_ahead : All (DueAfter (last + first_cut c.level)) c.second

pub check_second_cache-IsAhead : (now : ℕ) (c : Caches) → IsAhead now (check_second_cache now c)
unfolding check_second_cache
check_second_cache-IsAhead now c = record {
  second_ahead = (time_split_sound c.second (now + first_cut c.level)).1;
}

-- If at the clock of the latest check nothing in the second cache was due within the time that the
-- first cache covers, this still holds after a timer was put in at that clock or later.
pub put_into-IsAhead :
    (last now : ℕ) (t : TimerFunc) (c : Caches)
    → last ≤ now
    → IsAhead last c
    → IsAhead last (put_into now t c)
unfolding put_into
put_into-IsAhead last now t c h a = elim (Bool-cases (leb t.next (now + first_cut c.level))) [
  | inl soon ↦ rw soon (record { second_ahead = a.second_ahead })
  | inr later ↦ rw later (elim (Bool-cases (ltb (now + second_cut c.level) t.next)) [
    | inl far ↦ rw far (record { second_ahead = a.second_ahead })
    | inr near ↦ rw near (record {
      second_ahead =
          All-append (DueAfter (last + first_cut c.level)) c.second (t ∷ []) a.second_ahead
            (ground arith, tt);
    })
  ])
]
