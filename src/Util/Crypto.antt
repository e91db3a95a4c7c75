-- ===== src/Util/Crypto.antt =====
-- util/crypto.go: AES over whole messages. The block mode of crypto/cipher is a parameter: for a key
-- of a good size it maps messages of whole blocks to messages of the same length, and back.
pub mod RoundTrip
use goms.Base.{
  ℕ, ◌+◌, ◌-◌, ◌%◌, Bytes, Option, none, some, ◌++◌, Bool, true, false, not, if◌then◌else◌, ◌==◌,
  leb, length, take, replicate, get_elem?, ◌≡◌,
}

pub record BlockMode : Type 0 where
  pub valid_key : Bytes → Bool
  pub encrypt : Bytes → Bytes → Bytes
  pub decrypt : Bytes → Bytes → Bytes
  pub length-encrypt : (key text : Bytes) → length (encrypt key text) ≡ length text
  pub decrypt-encrypt :
      (key text : Bytes) → length text % 16 ≡ 0 → decrypt key (encrypt key text) ≡ text

-- What AesEncrypt and AesDecrypt end with: a text, the error of the key, or a panic.
pub data Crypted : Type 0 where
  text_of : Bytes → Crypted
  bad_key : Crypted
  panicked : Crypted

-- pKCS5Padding
unfoldable pub pkcs5_padding : Bytes → ℕ → Bytes
pkcs5_padding text block_size =
    let padding = block_size - length text % block_size in text ++ replicate padding (padding % 256)

-- pKCS5UnPadding: `none` is the panic of an empty text, or of a last byte above the length.
unfoldable pub pkcs5_unpadding : Bytes → Option Bytes
pkcs5_unpadding text = elim (get_elem? text (length text - 1)) [
  | none ↦ none
  | some unpadding ↦
      if leb unpadding (length text) then some (take (length text - unpadding) text) else none
]

module _ (mode : BlockMode) where
  unfoldable pub aes_encrypt : Bytes → Bytes → Crypted
  unfolding pkcs5_padding
  aes_encrypt text key =
      if mode.valid_key key then text_of (mode.encrypt key (pkcs5_padding text 16)) else bad_key

  -- CryptBlocks panics on a text that is not of whole blocks.
  unfoldable pub aes_decrypt : Bytes → Bytes → Crypted
  unfolding pkcs5_unpadding
  aes_decrypt crypted key =
      if not (mode.valid_key key)
      then bad_key
      else if not (length crypted % 16 == 0)
      then panicked
      else elim (pkcs5_unpadding (mode.decrypt key crypted)) [
        | none ↦ panicked
        | some text ↦ text_of text
      ]
