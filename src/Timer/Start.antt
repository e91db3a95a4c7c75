-- ===== src/Timer/Start.antt =====
-- The first time of a timer: the loop at the end of checkTime in util/timer/timer.go.
use goms.Base.{
  ℕ, zero, suc, ◌+◌, ◌*◌, ◌≤◌, ◌<◌, leb, ◌≡◌, refl, subst, arith, Bool-cases, inl, inr, ◌⊎◌,
}
use goms.Timer.{advance}

-- For a step of at least a second, and fuel for the seconds from the first time to now, the loop
-- of checkTime ends at a time after now that is a whole number of steps after the first time; it
-- is the first time itself or at most one step after now.
pub advance_lem :
    (fuel step now next : ℕ)
    → 0 < step
    → now < next + fuel
    → (now < advance fuel step now next)
      × (rounds : ℕ) × (advance fuel step now next ≡ next + rounds * step)
      × ((rounds ≡ 0) ⊎ (advance fuel step now next ≤ now + step))
unfolding advance
advance_lem zero step now next hs hf = (ground arith, 0, ground arith, inl refl)
advance_lem (suc fuel) step now next hs hf = elim (Bool-cases (leb next now)) [
  | inl late ↦
      let (after, rounds, sum, near) = advance_lem fuel step now (next + step) hs (ground arith) in
      (
        ground arith,
        suc rounds,
        rw late (ground arith),
        inr (
            rw late (elim near [
              | inl none_more ↦ ground (
                arith,
                subst (λ r. advance fuel step now (next + step) ≡ next + step + r * step) none_more
                    sum,
              )
              | inr bounded ↦ bounded
            ])),
      )
  | inr ahead ↦ (ground arith, 0, ground arith, inl refl)
]
