-- ===== src/Rpc/Frame.antt =====
-- The frames of rpc/coder.go: four bytes of length, most significant first, and as many of body. A
-- reader is the bytes that are still to come before the connection ends; a buffer is what was
-- written to it, and writing to a buffer does not fail.
pub mod RoundTrip
use goms.Base.{
  ℕ, Bytes, [], ◌∷◌, ◌++◌, ◌+◌, ◌*◌, ◌/◌, ◌%◌, ◌^◌, if◌then◌else◌, ltb, leb, ◌==◌, length, take,
  drop,
}

pub data WireError : Type 0 where
  eof : WireError
  unexpected_eof : WireError
  bad_count : WireError
  bad_message : WireError

pub data Result {ℓ} (A : Type ℓ) : Type ℓ where
  ok : A → Result A
  err : WireError → Result A

infixl 5 ◌>>=◌
abbrev pub ◌>>=◌ {ℓ κ} : {A : Type ℓ} {B : Type κ} → Result A → (A → Result B) → Result B
ok a >>= f = f a
err e >>= f = err e

abbrev pub too_big : ℕ
too_big = 2 ^ 30

-- binary.BigEndian.PutUint32 and Uint32
abbrev pub put_uint32 : ℕ → Bytes
put_uint32 n = (n / 2 ^ 24 % 256) ∷ (n / 2 ^ 16 % 256) ∷ (n / 2 ^ 8 % 256) ∷ (n % 256) ∷ []

abbrev pub uint32 : Bytes → ℕ
uint32 (a ∷ b ∷ c ∷ d ∷ _) = a * 2 ^ 24 + b * 2 ^ 16 + c * 2 ^ 8 + d
uint32 _ = 0

-- io.ReadFull for `n` bytes: what was read and what is left.
unfoldable pub read_full : ℕ → Bytes → Result (Bytes × Bytes)
read_full n r =
    if leb n (length r)
    then ok (take n r, drop n r)
    else if length r == 0
    then err eof
    else err unexpected_eof

unfoldable pub write_frame : Bytes → Bytes → Result Bytes
write_frame w buf =
    if leb too_big (length buf)
    then err bad_count
    else ok (w ++ put_uint32 (length buf % 2 ^ 32) ++ buf)

unfoldable pub read_frame : Bytes → Result (Bytes × Bytes)
unfolding read_full
read_frame r = do
  (header, r₁) ← read_full 4 r
  if leb too_big (uint32 header) then err bad_count else read_full (uint32 header) r₁
