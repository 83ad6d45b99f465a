-- ===== src/Crypto/Cipher.antt =====
-- aesEncrypt, aesDecrypt, generateFileKey and deriveWrapKey (pilot-module/src/pilot_crypto.cpp) over
-- OpenSSL, which is a parameter.
use logos_pilot.Prelude.{◌≡◌, Option, some, replicate, length}
use logos_pilot.Text.{Text}
use logos_pilot.Crypto.Hex.{Bytes, IsBytes}

-- What the code asks of OpenSSL. `gcm_seal` is AES-256-GCM on a key, an iv and a plaintext, with the
-- ciphertext and its tag; `gcm_open` takes key, iv, tag and ciphertext, and gives `none` where the
-- tag does not verify; `pbkdf2` is PKCS5_PBKDF2_HMAC with SHA-256 and 200000 rounds on a passphrase
-- and a salt, `none` where it fails; `shared_secret` is the ECDH secret of a private and a public
-- key on secp256k1, empty where the derivation fails, as the code reads it then.
pub record Cipher : Type 0 where
  pub gcm_seal : Bytes → Bytes → Bytes → Bytes × Bytes
  pub gcm_open : Bytes → Bytes → Bytes → Bytes → Option Bytes
  pub pbkdf2 : Text → Bytes → Option Bytes
  pub sha256 : Bytes → Bytes
  pub shared_secret : Bytes → Bytes → Bytes

-- On bytes, AES-GCM opens what it sealed, a ciphertext has the size of its plaintext, a tag has 16 bytes, and
-- the results are bytes.
pub record IsAead (c : Cipher) : Type 0 where
  pub opens :
      (key iv plain : Bytes)
      → IsBytes plain
      → c.gcm_open key iv (c.gcm_seal key iv plain).1 (c.gcm_seal key iv plain).0 ≡ some plain
  pub size :
      (key iv plain : Bytes) → IsBytes plain → length (c.gcm_seal key iv plain).0 ≡ length plain
  pub tag_size : (key iv plain : Bytes) → IsBytes plain → length (c.gcm_seal key iv plain).1 ≡ 16
  pub sealed_bytes :
      (key iv plain : Bytes)
      → IsBytes plain
      → IsBytes (c.gcm_seal key iv plain).0 × IsBytes (c.gcm_seal key iv plain).1

pub record AesKey : Type 0 where
  pub key : Bytes
  pub iv : Bytes
  pub tag : Bytes

-- The two draws of RAND_bytes, and a tag of zeros.
unfoldable pub generate_file_key : Bytes → Bytes → AesKey
generate_file_key key iv = record { key = key; iv = iv; tag = replicate 16 0 }

-- The ciphertext, and the key with the tag written into it.
unfoldable pub aes_encrypt : Cipher → Bytes → AesKey → Bytes × AesKey
aes_encrypt c plain k = let (ct, tag) = c.gcm_seal k.key k.iv plain in (ct, record k { tag = tag })

-- `none` is the exception on a tag that does not match.
unfoldable pub aes_decrypt : Cipher → Bytes → AesKey → Option Bytes
aes_decrypt c ct k = c.gcm_open k.key k.iv k.tag ct

pub aes_decrypt-aes_encrypt :
    (c : Cipher)
    → IsAead c
    → (plain : Bytes) (k : AesKey) → IsBytes plain
    → aes_decrypt c (aes_encrypt c plain k).0 (aes_encrypt c plain k).1 ≡ some plain
unfolding aes_decrypt aes_encrypt
aes_decrypt-aes_encrypt c law plain k b = law.opens k.key k.iv plain b
