-- ===== src/Crypto/Sealed.antt =====
-- eciesEncrypt, eciesDecrypt, wrapSecret and unwrapSecret (pilot-module/src/pilot_crypto.cpp). The
-- random draws are arguments.
use logos_pilot.Prelude.{
  ◌≡◌, refl, Bool, true, false, Option, none, some, [], ◌∷◌, ◌++◌, ◌||◌, not, ◌==◌, length, drop,
  ◌∙◌, if◌then◌else◌,
}
use logos_pilot.Prelude.Options.{◌>>=◌}
use logos_pilot.Text.{Text, codes, is_empty}
use logos_pilot.Text.Search.{starts_with}
use logos_pilot.Crypto.Hex.{Bytes, IsBytes, bytes_to_hex, hex_to_bytes, hex_to_bytes-bytes_to_hex}
use logos_pilot.Crypto.Cipher.{Cipher, IsAead, AesKey, aes_encrypt, aes_decrypt}
use logos_pilot.Crypto.Formats.{
  Ciphertext, cut, cut-bytes_to_hex, ecies_serialize, ecies_deserialize,
  ecies_deserialize-ecies_serialize,
}

-- The key pair that one encryption generates.
pub record Ephemeral : Type 0 where
  pub private_key : Bytes
  pub public_key : Bytes

unfoldable pub derived_key : Cipher → Bytes → Bytes → Bytes → Bytes → AesKey
derived_key c private_key public_key iv tag = record {
  key = c.sha256 (c.shared_secret private_key public_key);
  iv = iv;
  tag = tag;
}

unfoldable pub sealed_with : Bytes → Bytes × AesKey → Ciphertext
sealed_with ephemeral_pub (ct, k) = record {
  ephemeral_pub = ephemeral_pub;
  ciphertext = ct;
  iv = k.iv;
  tag = k.tag;
}

-- `none` is the exception on a recipient key that is no hex string.
unfoldable pub ecies_encrypt : Cipher → Ephemeral → Bytes → Text → Bytes → Option Ciphertext
unfolding derived_key sealed_with
ecies_encrypt c eph iv recipient_npk plain =
    let recipient_pub = hex_to_bytes recipient_npk in
    if is_empty recipient_pub
    then none
    else some (
        sealed_with eph.public_key
          (aes_encrypt c plain (derived_key c eph.private_key recipient_pub iv [])))

unfoldable pub ecies_decrypt : Cipher → Text → Ciphertext → Option Bytes
unfolding derived_key
ecies_decrypt c private_hex ct =
    aes_decrypt c ct.ciphertext
      (derived_key c (hex_to_bytes private_hex) ct.ephemeral_pub ct.iv ct.tag)

-- The text that a send puts on the wire, and its reading by the receiver.
unfoldable pub seal_to : Cipher → Ephemeral → Bytes → Text → Bytes → Option Text
unfolding ecies_encrypt
seal_to c eph iv recipient plain = do
  ct ← ecies_encrypt c eph iv recipient plain
  some (ecies_serialize ct)

unfoldable pub unseal : Cipher → Text → Text → Option Bytes
unfolding ecies_decrypt
unseal c private_hex text = do ct ← ecies_deserialize text; ecies_decrypt c private_hex ct

-- The constant prefix of a sealed secret.
abbrev pub secret_prefix : Text
secret_prefix = codes "enc:v1:"

unfoldable pub is_wrapped_secret : Text → Bool
unfolding starts_with
is_wrapped_secret s = starts_with secret_prefix s

unfoldable pub secret_text : Bytes → Bytes × AesKey → Text
secret_text salt (ct, k) =
    secret_prefix
    ++ (bytes_to_hex salt
        ++ (b':'
            ∷ (bytes_to_hex k.iv ++ (b':' ∷ (bytes_to_hex k.tag ++ (b':' ∷ bytes_to_hex ct))))))

unfoldable pub wrap_secret : Cipher → Bytes → Bytes → Text → Text → Option Text
unfolding secret_text
wrap_secret c salt iv plaintext passphrase = do
  key ← c.pbkdf2 passphrase salt
  some (secret_text salt (aes_encrypt c plaintext (record { key = key; iv = iv; tag = [] })))

-- The fields after the prefix, in the order of the text.
pub record SecretFields : Type 0 where
  pub salt : Bytes
  pub iv : Bytes
  pub tag : Bytes
  pub ct : Bytes

unfoldable pub secret_fields : Text → Option SecretFields
unfolding cut
secret_fields body = do
  salt ← cut body
  iv ← cut salt.1
  tag ← cut iv.1
  some (record {
    salt = hex_to_bytes salt.0;
    iv = hex_to_bytes iv.0;
    tag = hex_to_bytes tag.0;
    ct = hex_to_bytes tag.1;
  })

unfoldable pub open_secret : Cipher → Text → SecretFields → Option Text
open_secret c passphrase f =
    if is_empty f.salt || not (length f.iv == 12) || not (length f.tag == 16) then none else do
      key ← c.pbkdf2 passphrase f.salt
      aes_decrypt c f.ct (record { key = key; iv = f.iv; tag = f.tag })

unfoldable pub unwrap_secret : Cipher → Text → Text → Option Text
unfolding is_wrapped_secret secret_fields open_secret
unwrap_secret c blob passphrase =
    if not (is_wrapped_secret blob)
    then none
    else do f ← secret_fields (drop 7 blob); open_secret c passphrase f

secret_fields-secret_text :
    (salt ct : Bytes) (k : AesKey)
    → IsBytes salt
    → IsBytes k.iv
    → IsBytes k.tag
    → IsBytes ct
    → secret_fields (drop 7 (secret_text salt (ct, k)))
      ≡ some (record { salt = salt; iv = k.iv; tag = k.tag; ct = ct })
unfolding secret_fields secret_text
secret_fields-secret_text salt ct k hs hi ht hc =
    rw
      (
        cut-bytes_to_hex salt
            (bytes_to_hex k.iv ++ (b':' ∷ (bytes_to_hex k.tag ++ (b':' ∷ bytes_to_hex ct)))) hs,
        cut-bytes_to_hex k.iv (bytes_to_hex k.tag ++ (b':' ∷ bytes_to_hex ct)) hi,
        cut-bytes_to_hex k.tag (bytes_to_hex ct) ht,
        hex_to_bytes-bytes_to_hex salt hs,
        hex_to_bytes-bytes_to_hex k.iv hi,
        hex_to_bytes-bytes_to_hex k.tag ht,
        hex_to_bytes-bytes_to_hex ct hc,
      )
      refl

wrapped_text :
    (salt : Bytes) (made : Bytes × AesKey) → is_wrapped_secret (secret_text salt made) ≡ true
unfolding is_wrapped_secret starts_with secret_text
wrapped_text salt made = refl

unwrap_secret-secret_text :
    (c : Cipher) (salt ct key : Bytes) (k : AesKey) (passphrase : Text)
    → is_empty salt ≡ false
    → length k.iv ≡ 12
    → length k.tag ≡ 16
    → c.pbkdf2 passphrase salt ≡ some key
    → secret_fields (drop 7 (secret_text salt (ct, k)))
      ≡ some (record { salt = salt; iv = k.iv; tag = k.tag; ct = ct })
    → unwrap_secret c (secret_text salt (ct, k)) passphrase ≡ c.gcm_open key k.iv k.tag ct
unfolding unwrap_secret open_secret aes_decrypt
unwrap_secret-secret_text c salt ct key k passphrase hs li lt e fields =
    rw (wrapped_text salt (ct, k), fields, hs, li, lt, e) refl

-- A text of bytes that is sealed under a passphrase is read back with that passphrase, where the
-- salt is not empty and the iv has its 12 bytes.
pub unwrap_secret-wrap_secret :
    (c : Cipher)
    → IsAead c
    → (salt iv key : Bytes) (plaintext passphrase : Text) → is_empty salt ≡ false
    → IsBytes plaintext
    → IsBytes salt
    → IsBytes iv
    → length iv ≡ 12
    → c.pbkdf2 passphrase salt ≡ some key
    → (wrap_secret c salt iv plaintext passphrase >>= λ blob. unwrap_secret c blob passphrase)
      ≡ some plaintext
unfolding wrap_secret aes_encrypt
unwrap_secret-wrap_secret c law salt iv key plaintext passphrase hs bp bs bi li e =
    let sealed = c.gcm_seal key iv plaintext in
    let k : AesKey = record { key = key; iv = iv; tag = sealed.1 } in
    rw e (
      unwrap_secret-secret_text c salt sealed.0 key k passphrase hs li
        (law.tag_size key iv plaintext bp) e
        (secret_fields-secret_text salt sealed.0 k bs bi (law.sealed_bytes key iv plaintext bp).1
          (law.sealed_bytes key iv plaintext bp).0)
      ∙ law.opens key iv plaintext bp)

-- A message of bytes sealed to a peer's public key and put into text is opened by the peer's private key,
-- where the two Diffie-Hellman products agree.
pub unseal-seal_to :
    (c : Cipher)
    → IsAead c
    → (eph : Ephemeral) (iv : Bytes) (public_hex private_hex : Text) (plain : Bytes)
    → is_empty (hex_to_bytes public_hex) ≡ false
    → IsBytes plain
    → IsBytes eph.public_key
    → IsBytes iv
    → c.shared_secret eph.private_key (hex_to_bytes public_hex)
      ≡ c.shared_secret (hex_to_bytes private_hex) eph.public_key
    → (seal_to c eph iv public_hex plain >>= unseal c private_hex) ≡ some plain
unfolding seal_to unseal ecies_encrypt ecies_decrypt derived_key sealed_with aes_encrypt aes_decrypt
unseal-seal_to c law eph iv public_hex private_hex plain ne bt bp bi agree =
    let key = c.sha256 (c.shared_secret eph.private_key (hex_to_bytes public_hex)) in
    let ct : Ciphertext = record {
      ephemeral_pub = eph.public_key;
      ciphertext = (c.gcm_seal key iv plain).0;
      iv = iv;
      tag = (c.gcm_seal key iv plain).1;
    } in
    let read = ecies_deserialize-ecies_serialize ct (record {
      pub_bytes = bp;
      ciphertext_bytes = (law.sealed_bytes key iv plain bt).0;
      iv_bytes = bi;
      tag_bytes = (law.sealed_bytes key iv plain bt).1;
    }) in
    rw (ne, read, ← agree) (law.opens key iv plain bt)

-- Where the key derivation fails, as it does for a recipient key that is hex but no point of the
-- curve, the encryption succeeds all the same, under a key that is the hash of nothing.
pub ecies_encrypt-bad_recipient :
    (c : Cipher)
    → IsAead c
    → (eph : Ephemeral) (iv : Bytes) (recipient : Text) (plain : Bytes)
    → is_empty (hex_to_bytes recipient) ≡ false
    → IsBytes plain
    → c.shared_secret eph.private_key (hex_to_bytes recipient) ≡ []
    → (ecies_encrypt c eph iv recipient plain >>= λ ct.
        c.gcm_open (c.sha256 []) ct.iv ct.tag ct.ciphertext)
      ≡ some plain
unfolding ecies_encrypt derived_key sealed_with aes_encrypt
ecies_encrypt-bad_recipient c law eph iv recipient plain ne bt fails =
    rw (ne, fails) (law.opens (c.sha256 []) iv plain bt)
