-- ===== src/Util/IdGen.antt =====
-- util/id_gen.go: 64-bit ids made of a millisecond clock, the generator's id, a module's id and a
-- counter within the millisecond.
pub mod Layout
pub mod Distinct
pub mod Tests
use Prim.Native.Nat.{bit_and, bit_or}
use goms.Base.{
  ℕ, ◌+◌, ◌*◌, ◌/◌, ◌%◌, ◌^◌, Option, none, some, if◌then◌else◌, ◌==◌, not, List, [], ◌∷◌,
}

pub record IdGen : Type 0 where
  pub time : ℕ
  pub gen_id : ℕ
  pub index : ℕ

abbrev pub new_id_gen : ℕ → IdGen
new_id_gen id = record { time = 0; gen_id = id; index = 0 }

-- `(time&0x1FFFFFFFFFF)<<20 | (gen&0xFF)<<16 | (module&0xFF)<<12 | index&0xFFF` on uint64: a shift
-- of a masked field loses no bit, since 41 + 20 < 64.
unfoldable pub pack_id : ℕ → ℕ → ℕ → ℕ → ℕ
pack_id time gen_id module_id index =
    bit_or
      (bit_or (bit_or (bit_and time 0x1FFFFFFFFFF * 2 ^ 20) (bit_and gen_id 0xFF * 2 ^ 16))
        (bit_and module_id 0xFF * 2 ^ 12))
      (bit_and index 0xFFF)

-- The state after the reset of the counter in a new millisecond.
abbrev pub at_time : ℕ → IdGen → IdGen
at_time now gen = if not (now == gen.time) then record gen { time = now; index = 0 } else gen

-- `NewID` at the clock `now`, in milliseconds: the id, or `none` for the panic of a counter whose
-- low twelve bits ran out, which leaves the counter advanced; and the generator after it.
unfoldable pub new_id : ℕ → ℕ → IdGen → Option ℕ × IdGen
unfolding pack_id
new_id now module_id gen =
    let g = at_time now gen in
    let index = (g.index + 1) % 2 ^ 64 in
    (
      if bit_and index 0xFFF == 0 then none else some (pack_id g.time g.gen_id module_id index),
      record g { index = index },
    )

unfoldable pub get_time_from_id : ℕ → ℕ
get_time_from_id id = bit_and (id / 2 ^ 20) 0x1FFFFFFFFFF / 1000

-- A run of calls within one millisecond, for these modules.
unfoldable pub new_ids : ℕ → List ℕ → IdGen → List (Option ℕ)
unfolding new_id
new_ids now [] gen = []
new_ids now (module_id ∷ ms) gen =
    let (id, gen') = new_id now module_id gen in id ∷ new_ids now ms gen'
