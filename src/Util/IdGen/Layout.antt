-- ===== src/Util/IdGen/Layout.antt =====
-- Where the parts of an id of util/id_gen.go lie, and when two ids are the same.
use Prim.Native.Nat.{bit_and, bit_or}
use goms.Base.{ℕ, ◌*◌, ◌/◌, ◌%◌, ◌^◌, ◌<◌, ◌≡◌, sym, ap, ◌∙◌, arith}
use goms.Base.Bits.{bit_or-div, bit_or-mod, bit_and-ones, bit_or-zero, zero_bit_or}
use goms.Util.IdGen.{pack_id, get_time_from_id}

abbrev cat : ℕ → ℕ → ℕ → ℕ → ℕ
cat t g m i = bit_or (bit_or (bit_or t g) m) i

cat-div :
    (k t g m i : ℕ) → cat t g m i / 2 ^ k ≡ cat (t / 2 ^ k) (g / 2 ^ k) (m / 2 ^ k) (i / 2 ^ k)
cat-div k t g m i =
    bit_or-div k (bit_or (bit_or t g) m) i
    ∙ ap (λ x. bit_or x (i / 2 ^ k))
        (bit_or-div k (bit_or t g) m ∙ ap (λ x. bit_or x (m / 2 ^ k)) (bit_or-div k t g))

cat-mod :
    (k t g m i : ℕ) → cat t g m i % 2 ^ k ≡ cat (t % 2 ^ k) (g % 2 ^ k) (m % 2 ^ k) (i % 2 ^ k)
cat-mod k t g m i =
    bit_or-mod k (bit_or (bit_or t g) m) i
    ∙ ap (λ x. bit_or x (i % 2 ^ k))
        (bit_or-mod k (bit_or t g) m ∙ ap (λ x. bit_or x (m % 2 ^ k)) (bit_or-mod k t g))

cat_cong :
    {t t' g g' m m' i i' : ℕ} → t ≡ t' → g ≡ g' → m ≡ m' → i ≡ i' → cat t g m i ≡ cat t' g' m' i'
cat_cong p q r s = cc

last_part : (x : ℕ) → cat 0 0 0 x ≡ x
last_part x = simp zero_bit_or

first_parts : (x y : ℕ) → cat x y 0 0 ≡ bit_or x y
first_parts x y = simp bit_or-zero

-- The low twelve bits of an id are those of the counter.
pub pack_id-index : (t g m i : ℕ) → pack_id t g m i % 2 ^ 12 ≡ i % 2 ^ 12
unfolding pack_id
pack_id-index t g m i =
    cat-mod 12 (bit_and t 0x1FFFFFFFFFF * 2 ^ 20) (bit_and g 0xFF * 2 ^ 16)
      (bit_and m 0xFF * 2 ^ 12) (bit_and i 0xFFF)
    ∙ cat_cong {t' = 0} {g' = 0} {m' = 0} {i' = i % 2 ^ 12} (omega arith) (omega arith)
        (omega arith) (omega (arith, bit_and-ones 12 i))
    ∙ last_part (i % 2 ^ 12)

-- Above the low twenty bits stand the time and, or-ed into it, the high half of the generator's
-- byte.
pub pack_id-time : (t g m i : ℕ) → pack_id t g m i / 2 ^ 20 ≡ bit_or (t % 2 ^ 41) (g % 256 / 16)
unfolding pack_id
pack_id-time t g m i =
    cat-div 20 (bit_and t 0x1FFFFFFFFFF * 2 ^ 20) (bit_and g 0xFF * 2 ^ 16)
      (bit_and m 0xFF * 2 ^ 12) (bit_and i 0xFFF)
    ∙ cat_cong (omega (arith, bit_and-ones 41 t)) (omega (arith, bit_and-ones 8 g))
        (omega (arith, bit_and-ones 8 m)) (omega (arith, bit_and-ones 12 i))
    ∙ first_parts (t % 2 ^ 41) (g % 256 / 16)

-- For a clock of at most 41 bits and a generator whose low byte is below 16, the time is read back
-- from an id in seconds.
pub get_time-pack_id :
    (t g m i : ℕ) → t < 2 ^ 41 → g % 256 < 16 → get_time_from_id (pack_id t g m i) ≡ t / 1000
unfolding get_time_from_id
get_time-pack_id t g m i ht hg =
    let low : bit_or (t % 2 ^ 41) (g % 256 / 16) ≡ t =
      ap (bit_or (t % 2 ^ 41)) (small (g % 256) hg) ∙ bit_or-zero (t % 2 ^ 41) ∙ omega arith in
    omega (arith, pack_id-time t g m i, low, bit_and-ones 41 (pack_id t g m i / 2 ^ 20))
  where
    small : (x : ℕ) → x < 16 → x / 16 ≡ 0
    small x h = omega arith

-- The bytes of the generator and of the module overlap: at every time and counter, generator 1
-- with module 0 makes the id of generator 0 with module 16.
pub pack_id-overlap : (t i : ℕ) → pack_id t 1 0 i ≡ pack_id t 0 16 i
unfolding pack_id
pack_id-overlap t i =
    ap (λ x. bit_or x (bit_and i 0xFFF))
      (bit_or-zero (bit_or (bit_and t 0x1FFFFFFFFFF * 2 ^ 20) (2 ^ 16))
        ∙ ap (λ x. bit_or x (2 ^ 16)) (sym (bit_or-zero (bit_and t 0x1FFFFFFFFFF * 2 ^ 20))))
