-- ===== src/Util/IdGen/Distinct.antt =====
-- Runs of NewID of util/id_gen.go within one millisecond.
use mathlib.Core.Option.{some-injective}
use goms.Base.{
  ℕ, zero, suc, ◌+◌, ◌%◌, ◌^◌, ◌<◌, some, List, [], ◌∷◌, ◌≡◌, ◌≢◌, sym, ap, ◌∙◌, arith, length,
  get_elem?,
}
use goms.Base.Bits.{bit_and-ones}
use goms.Util.IdGen.{IdGen, pack_id, at_time, new_id, new_ids}
use goms.Util.IdGen.Layout.{pack_id-index}

new_id-next :
    (now m : ℕ) (gen : IdGen)
    → (at_time now gen).index + 1 < 4096
    → ((new_id now m gen).0 ≡ some (pack_id now gen.gen_id m ((at_time now gen).index + 1)))
      × ((at_time now (new_id now m gen).1).index ≡ (at_time now gen).index + 1)
unfolding new_id
new_id-next now m gen room =
    ground (arith, bit_and-ones 12 (((at_time now gen).index + 1) % 2 ^ 64))

-- The k-th id of a run carries the counter that the run had then.
new_ids-index :
    (now : ℕ) (ms : List ℕ) (gen : IdGen) (k id : ℕ)
    → (at_time now gen).index + length ms < 4096
    → get_elem? (new_ids now ms gen) k ≡ some (some id)
    → id % 2 ^ 12 ≡ (at_time now gen).index + 1 + k
unfolding new_ids
new_ids-index now [] gen k id room e = cc
new_ids-index now (m ∷ ms) gen zero id room e =
    let index = (at_time now gen).index + 1 in
    let same : id ≡ pack_id now gen.gen_id m index =
      some-injective _ _ (sym (some-injective _ _ e) ∙ (new_id-next now m gen (omega arith)).0) in
    omega (arith, ap (λ x. x % 2 ^ 12) same, pack_id-index now gen.gen_id m index)
new_ids-index now (m ∷ ms) gen (suc k) id room e =
    let next = new_id-next now m gen (omega arith) in
    omega (arith, next.1, new_ids-index now ms (new_id now m gen).1 k id (omega (arith, next.1)) e)

-- Two calls of a run within one millisecond that both return give different ids, if the counter
-- stays below 4096 to the end of the run.
pub new_ids-distinct :
    (now : ℕ) (ms : List ℕ) (gen : IdGen) (k l a b : ℕ)
    → (at_time now gen).index + length ms < 4096
    → get_elem? (new_ids now ms gen) k ≡ some (some a)
    → get_elem? (new_ids now ms gen) l ≡ some (some b)
    → k ≢ l
    → a ≢ b
new_ids-distinct now ms gen k l a b room ea eb h e = h (
    omega (
      arith,
      new_ids-index now ms gen k a room ea,
      new_ids-index now ms gen l b room eb,
      ap (λ x. x % 2 ^ 12) e,
    ))

-- No call of a run within one millisecond panics, if the counter stays below 4096 to the end of
-- the run.
pub new_ids-total :
    (now : ℕ) (ms : List ℕ) (gen : IdGen) (k : ℕ)
    → (at_time now gen).index + length ms < 4096
    → k < length ms
    → (id : ℕ) × (get_elem? (new_ids now ms gen) k ≡ some (some id))
unfolding new_ids
new_ids-total now [] gen k room lt = absurd (omega arith)
new_ids-total now (m ∷ ms) gen zero room lt = (_, ap some (new_id-next now m gen (omega arith)).0)
new_ids-total now (m ∷ ms) gen (suc k) room lt =
    new_ids-total now ms (new_id now m gen).1 k
      (omega (arith, (new_id-next now m gen (omega arith)).1)) (omega arith)
