-- ===== src/Util/Crypto/RoundTrip.antt =====
-- What AesEncrypt of util/crypto.go wrote, AesDecrypt reads.
use goms.Base.{
  ℕ, zero, suc, ◌+◌, ◌-◌, ◌%◌, ◌<◌, ◌≤◌, Bytes, some, [], ◌∷◌, ◌++◌, true, length, length-append,
  length-replicate, replicate, get_elem?, ◌≡◌, refl, ap, arith, ◌∙◌,
}
use goms.Rpc.Frame.RoundTrip.{take-append}
use goms.Util.Crypto.{BlockMode, text_of, pkcs5_padding, pkcs5_unpadding, aes_encrypt, aes_decrypt}

last-replicate :
    (text : Bytes) (k x : ℕ) → get_elem? (text ++ replicate (suc k) x) (length text + k) ≡ some x
last-replicate [] zero x = refl
last-replicate [] (suc k) x = ground (arith, last-replicate [] k x)
last-replicate (c ∷ text) k x = ground (arith, last-replicate text k x)

length-pkcs5_padding :
    (text : Bytes) → length (pkcs5_padding text 16) ≡ length text + (16 - length text % 16)
unfolding pkcs5_padding
length-pkcs5_padding text = omega (
  arith,
  length-append text (replicate (16 - length text % 16) ((16 - length text % 16) % 256)),
  length-replicate (16 - length text % 16) ((16 - length text % 16) % 256),
)

length-pkcs5_padding_blocks : (text : Bytes) → length (pkcs5_padding text 16) % 16 ≡ 0
length-pkcs5_padding_blocks text = omega (arith, length-pkcs5_padding text)

-- The last byte says how many to cut.
unpadding-append :
    (text : Bytes) (n : ℕ)
    → 0 < n
    → n ≤ 16
    → pkcs5_unpadding (text ++ replicate n (n % 256)) ≡ some text
unfolding pkcs5_unpadding
unpadding-append text zero low high = absurd (omega arith)
unpadding-append text (suc k) low high =
    let whole = text ++ replicate (suc k) (suc k % 256) in
    let size : length whole ≡ length text + suc k = omega (
      arith,
      length-append text (replicate (suc k) (suc k % 256)),
      length-replicate (suc k) (suc k % 256),
    ) in
    let last : get_elem? whole (length whole - 1) ≡ some (suc k % 256) =
      ap (get_elem? whole) (omega (arith, size)) ∙ last-replicate text k (suc k % 256) in
    let left : length whole - suc k % 256 ≡ length text = omega (arith, size) in
    rw (pkcs5_unpadding, last)
      (ground (arith, left, size, take-append text (replicate (suc k) (suc k % 256))))

pkcs5_unpadding-pkcs5_padding : (text : Bytes) → pkcs5_unpadding (pkcs5_padding text 16) ≡ some text
unfolding pkcs5_padding
pkcs5_unpadding-pkcs5_padding text =
    unpadding-append text (16 - length text % 16) (omega arith) (omega arith)

-- x
pub aes_decrypt-aes_encrypt :
    (mode : BlockMode) (text key : Bytes)
    → mode.valid_key key ≡ true
    → (crypted : Bytes) × (aes_encrypt mode text key ≡ text_of crypted)
      × (aes_decrypt mode crypted key ≡ text_of text)
      × (length crypted % 16 ≡ 0)
      × (length text < length crypted)
      × (length crypted ≤ length text + 16)
unfolding aes_encrypt aes_decrypt
aes_decrypt-aes_encrypt mode text key valid =
    let padded = pkcs5_padding text 16 in
    let blocks : length padded % 16 ≡ 0 = length-pkcs5_padding_blocks text in
    let whole : length (mode.encrypt key padded) % 16 ≡ 0 =
      rw (mode.length-encrypt key padded) blocks in
    (
      mode.encrypt key padded,
      rw (aes_encrypt, valid) refl,
      ground (
        arith,
        whole,
        mode.decrypt-encrypt key padded,
        blocks,
        pkcs5_unpadding-pkcs5_padding text,
      ),
      whole,
      omega (arith, mode.length-encrypt key padded, length-pkcs5_padding text),
      omega (arith, mode.length-encrypt key padded, length-pkcs5_padding text),
    )
