-- ===== src/Rpc/Frame/RoundTrip.antt =====
-- The reader of the frames of rpc/coder.go at whole and at cut frames.
use goms.Base.{
  ℕ, zero, suc, Bytes, [], ◌∷◌, ◌++◌, ◌^◌, ◌<◌, ◌≤◌, if◌then◌else◌, leb, length, take, drop,
  length-append, ◌≡◌, refl, sym, subst, ap, ◌∙◌, arith, ◌⊎◌, inl, inr, length-take, append_assoc,
}
use goms.Rpc.Frame.{
  eof, unexpected_eof, bad_count, Result, ok, err, too_big, put_uint32, uint32, read_full,
  write_frame, read_frame,
}

abbrev pub frame : Bytes → Bytes
frame buf = put_uint32 (length buf) ++ buf

pub take-append : (s rest : Bytes) → take (length s) (s ++ rest) ≡ s
take-append [] rest = refl
take-append (c ∷ s) rest = ap (λ t. c ∷ t) (take-append s rest)

pub drop-append : (s rest : Bytes) → drop (length s) (s ++ rest) ≡ rest
drop-append [] rest = refl
drop-append (c ∷ s) rest = drop-append s rest

pub read_full-append : (s rest : Bytes) → read_full (length s) (s ++ rest) ≡ ok (s, rest)
unfolding read_full
read_full-append s rest =
    ground (arith, length-append s rest, take-append s rest, drop-append s rest)

uint32-put : (n : ℕ) → n < 2 ^ 30 → uint32 (put_uint32 n) ≡ n
uint32-put n h = omega arith

read_frame_step :
    (header r₁ r : Bytes)
    → read_full 4 r ≡ ok (header, r₁)
    → uint32 header < too_big
    → read_frame r ≡ read_full (uint32 header) r₁
unfolding read_frame
read_frame_step header r₁ r e h = ground arith

-- A frame below the limit is read back, and the reader stands right behind it.
pub read_frame-frame :
    (buf rest : Bytes) → length buf < too_big → read_frame (frame buf ++ rest) ≡ ok (buf, rest)
read_frame-frame buf rest h =
    read_frame_step (put_uint32 (length buf)) (buf ++ rest) (frame buf ++ rest)
      (read_full-append (put_uint32 (length buf)) (buf ++ rest))
      (omega (arith, uint32-put (length buf) h))
    ∙ ap (λ n. read_full n (buf ++ rest)) (uint32-put (length buf) h)
    ∙ read_full-append buf rest

-- writeFrame appends the frame, or refuses a body of 2^30 bytes or more and writes nothing.
pub write_frame_lem :
    (w buf : Bytes)
    → write_frame w buf ≡ (if leb too_big (length buf) then err bad_count else ok (w ++ frame buf))
unfolding write_frame
write_frame_lem w buf = ground (arith, append_assoc w (put_uint32 (length buf)) buf)

abbrev pub Truncated : {A : Type 0} → Result A → Type 0
Truncated {A} r = (r ≡ err eof) ⊎ (r ≡ err unexpected_eof)

read_full-short : (n : ℕ) (s : Bytes) → length s < n → Truncated (read_full n s)
unfolding read_full
read_full-short n [] h = inl (ground arith)
read_full-short n (c ∷ s) h = inr (ground arith)

read_frame-short : (s : Bytes) → length s < 4 → Truncated (read_frame s)
unfolding read_frame read_full
read_frame-short [] h = inl refl
read_frame-short (c ∷ s) h = inr (ground arith)

-- A connection that ends inside a frame of less than 2^30 bytes gives an end-of-file error, and
-- never a message.
pub read_frame-Truncated :
    (buf : Bytes) (n : ℕ)
    → length buf < too_big
    → n < length (frame buf)
    → Truncated (read_frame (take n (frame buf)))
read_frame-Truncated buf zero h lt = read_frame-short [] (omega arith)
read_frame-Truncated buf (suc zero) h lt = read_frame-short _ (omega arith)
read_frame-Truncated buf (suc (suc zero)) h lt = read_frame-short _ (omega arith)
read_frame-Truncated buf (suc (suc (suc zero))) h lt = read_frame-short _ (omega arith)
read_frame-Truncated buf (suc (suc (suc (suc k)))) h lt =
    let part = take k buf in
    let step : read_frame (put_uint32 (length buf) ++ part) ≡ read_full (length buf) part =
      read_frame_step (put_uint32 (length buf)) part _
        (read_full-append (put_uint32 (length buf)) part) (omega (arith, uint32-put (length buf) h))
      ∙ ap (λ n. read_full n part) (uint32-put (length buf) h) in
    subst Truncated (sym step)
      (read_full-short (length buf) part (omega (arith, length-take k buf)))

-- A header that announces 2^30 bytes or more is refused without reading further.
pub read_frame-too_big :
    (n : ℕ) (rest : Bytes)
    → too_big ≤ n
    → n < 2 ^ 32
    → read_frame (put_uint32 n ++ rest) ≡ err bad_count
unfolding read_frame
read_frame-too_big n rest big fits =
    let whole : uint32 (put_uint32 n) ≡ n = omega arith in
    ground (arith, read_full-append (put_uint32 n) rest, whole)
