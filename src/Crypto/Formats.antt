-- ===== src/Crypto/Formats.antt =====
-- The texts in which pilot-module/src/pilot_crypto.cpp keeps keys and sealed messages: hex fields
-- between colons.
use logos_pilot.Prelude.{
  ℕ, ◌/◌, ◌%◌, ◌<◌, ◌≡◌, refl, true, false, Option, none, some, [], ◌∷◌, ◌++◌, arith, ◌==◌, every,
  if◌then◌else◌,
}
use logos_pilot.Prelude.Options.{◌>>=◌}
use logos_pilot.Text.{Text}
use logos_pilot.Text.Search.{is_xdigit}
use logos_pilot.Crypto.Hex.{
  Bytes, IsBytes, digit_char, bytes_to_hex, hex_to_bytes, hex_to_bytes-bytes_to_hex,
}
use logos_pilot.Crypto.Cipher.{AesKey}

abbrev pub before : ℕ → Option (Text × Text) → Option (Text × Text)
before x none = none
before x (some (s, t)) = some (x ∷ s, t)

-- The parts on both sides of the first colon: `find(':')` with the two `substr`.
unfoldable pub cut : Text → Option (Text × Text)
cut [] = none
cut (x ∷ s) = if x == b':' then some ([], s) else before x (cut s)

unfoldable pub aes_key_to_hex : AesKey → Text
aes_key_to_hex k = bytes_to_hex k.key ++ (b':' ∷ (bytes_to_hex k.iv ++ (b':' ∷ bytes_to_hex k.tag)))

-- `none` is the exception on fewer than two colons.
unfoldable pub aes_key_from_hex : Text → Option AesKey
unfolding cut
aes_key_from_hex s = do
  key ← cut s
  iv ← cut key.1
  some (record { key = hex_to_bytes key.0; iv = hex_to_bytes iv.0; tag = hex_to_bytes iv.1 })

pub record Ciphertext : Type 0 where
  pub ephemeral_pub : Bytes
  pub ciphertext : Bytes
  pub iv : Bytes
  pub tag : Bytes

unfoldable pub ecies_serialize : Ciphertext → Text
ecies_serialize ct =
    bytes_to_hex ct.ephemeral_pub
    ++ (b':'
        ∷ (bytes_to_hex ct.ciphertext
            ++ (b':' ∷ (bytes_to_hex ct.iv ++ (b':' ∷ bytes_to_hex ct.tag)))))

-- `none` is the exception on fewer than three colons.
unfoldable pub ecies_deserialize : Text → Option Ciphertext
unfolding cut
ecies_deserialize s = do
  pub_key ← cut s
  ct ← cut pub_key.1
  iv ← cut ct.1
  some (record {
    ephemeral_pub = hex_to_bytes pub_key.0;
    ciphertext = hex_to_bytes ct.0;
    iv = hex_to_bytes iv.0;
    tag = hex_to_bytes iv.1;
  })

digit_char-ne-colon : (d : ℕ) → d < 16 → (digit_char d == b':') ≡ false
unfolding digit_char
digit_char-ne-colon d h = ground arith

-- Hex has no colon, so a field in front of one is cut off whole.
pub cut-bytes_to_hex :
    (bs : Bytes) (rest : Text)
    → IsBytes bs
    → cut (bytes_to_hex bs ++ (b':' ∷ rest)) ≡ some (bytes_to_hex bs, rest)
unfolding cut bytes_to_hex
cut-bytes_to_hex [] rest h = refl
cut-bytes_to_hex (b ∷ bs) rest (h, hs) =
    rw
      (
        digit_char-ne-colon (b / 16) (omega arith),
        digit_char-ne-colon (b % 16) (omega arith),
        cut-bytes_to_hex bs rest hs,
      )
      refl

xdigit-ne-colon : (c : ℕ) → is_xdigit c ≡ true → (c == b':') ≡ false
unfolding is_xdigit
xdigit-ne-colon c h = ground arith

pub cut_hex : (s rest : Text) → every is_xdigit s ≡ true → cut (s ++ (b':' ∷ rest)) ≡ some (s, rest)
unfolding cut
cut_hex [] rest h = refl
cut_hex (c ∷ s) rest h = ground (arith, xdigit-ne-colon c, cut_hex s rest)

-- Three hex fields between colons are the fields of a key.
pub aes_key_from_hex-fields :
    (key iv tag : Text)
    → every is_xdigit key ≡ true
    → every is_xdigit iv ≡ true
    → aes_key_from_hex (key ++ (b':' ∷ (iv ++ (b':' ∷ tag))))
      ≡ some (record { key = hex_to_bytes key; iv = hex_to_bytes iv; tag = hex_to_bytes tag })
unfolding aes_key_from_hex
aes_key_from_hex-fields key iv tag hk hi =
    rw (cut_hex key (iv ++ (b':' ∷ tag)) hk, cut_hex iv tag hi) refl

pub aes_key_from_hex-aes_key_to_hex :
    (k : AesKey)
    → IsBytes k.key
    → IsBytes k.iv
    → IsBytes k.tag
    → aes_key_from_hex (aes_key_to_hex k) ≡ some k
unfolding aes_key_from_hex aes_key_to_hex
aes_key_from_hex-aes_key_to_hex k hk hi ht =
    rw
      (
        cut-bytes_to_hex k.key (bytes_to_hex k.iv ++ (b':' ∷ bytes_to_hex k.tag)) hk,
        cut-bytes_to_hex k.iv (bytes_to_hex k.tag) hi,
        hex_to_bytes-bytes_to_hex k.key hk,
        hex_to_bytes-bytes_to_hex k.iv hi,
        hex_to_bytes-bytes_to_hex k.tag ht,
      )
      refl

pub record IsCiphertext (ct : Ciphertext) : Type 0 where
  pub pub_bytes : IsBytes ct.ephemeral_pub
  pub ciphertext_bytes : IsBytes ct.ciphertext
  pub iv_bytes : IsBytes ct.iv
  pub tag_bytes : IsBytes ct.tag

pub ecies_deserialize-ecies_serialize :
    (ct : Ciphertext) → IsCiphertext ct → ecies_deserialize (ecies_serialize ct) ≡ some ct
unfolding ecies_deserialize ecies_serialize
ecies_deserialize-ecies_serialize ct h =
    rw
      (
        cut-bytes_to_hex ct.ephemeral_pub
            (bytes_to_hex ct.ciphertext
              ++ (b':' ∷ (bytes_to_hex ct.iv ++ (b':' ∷ bytes_to_hex ct.tag))))
            h.pub_bytes,
        cut-bytes_to_hex ct.ciphertext (bytes_to_hex ct.iv ++ (b':' ∷ bytes_to_hex ct.tag))
            h.ciphertext_bytes,
        cut-bytes_to_hex ct.iv (bytes_to_hex ct.tag) h.iv_bytes,
        hex_to_bytes-bytes_to_hex ct.ephemeral_pub h.pub_bytes,
        hex_to_bytes-bytes_to_hex ct.ciphertext h.ciphertext_bytes,
        hex_to_bytes-bytes_to_hex ct.iv h.iv_bytes,
        hex_to_bytes-bytes_to_hex ct.tag h.tag_bytes,
      )
      refl
