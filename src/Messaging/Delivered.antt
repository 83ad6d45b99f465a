-- ===== src/Messaging/Delivered.antt =====
-- A group message from its sender to a member: sealed, put on the group's topic, opened, recorded.
use logos_pilot.Prelude.{
  ℕ, suc, ◌≡◌, refl, ◌∙◌, ap, true, false, some, [], ◌∷◌, ◌++◌, arith, length, take, drop,
  replicate, every,
}
use logos_pilot.Prelude.Options.{◌>>=◌}
use logos_pilot.Prelude.Cuts.{take-append, drop-append_cons}
use logos_pilot.Text.{Text, is_empty}
use logos_pilot.Text.Search.{is_xdigit}
use logos_pilot.Crypto.Hex.{
  Bytes, IsBytes, bytes_to_hex, hex_to_bytes, every_hex, length-bytes_to_hex,
  hex_to_bytes-bytes_to_hex,
}
use logos_pilot.Crypto.Cipher.{IsAead, AesKey, generate_file_key, aes_encrypt, aes_decrypt}
use logos_pilot.Crypto.Formats.{aes_key_to_hex, aes_key_from_hex-fields}
use logos_pilot.Messaging.Mailbox.{Wire, group_keyed}
use logos_pilot.Messaging.Groups.{
  is_hex, is_group_key, key_text, envelope_of, seal_group_message, open_envelope,
  open_group_message,
}

-- What is asked of Qt and OpenSSL for group messages: base64 reads back the bytes it wrote, and so
-- does the JSON of an envelope whose fields are hex and base64.
pub record IsGroupWire (w : Wire) : Type 0 where
  pub aead : IsAead w.cipher
  pub base64 : (b : Bytes) → IsBytes b → w.from_base64 (w.to_base64 b) ≡ b
  pub envelope :
      (iv tag : Text) (b : Bytes)
      → is_hex iv ≡ true
      → is_hex tag ≡ true
      → IsBytes b
      → w.parse_envelope (w.print_envelope (record { iv = iv; tag = tag; ct = w.to_base64 b }))
        ≡ some (record { iv = iv; tag = tag; ct = w.to_base64 b })

-- The key and the iv that generateFileKey draws.
pub record IsDraw (draw : Bytes × Bytes) : Type 0 where
  pub key_bytes : IsBytes draw.0
  pub key_size : length draw.0 ≡ 32
  pub iv_bytes : IsBytes draw.1
  pub iv_size : length draw.1 ≡ 12

fresh_iv :
    (draw : Bytes × Bytes)
    → IsDraw draw
    → take 24 (drop 65 (aes_key_to_hex (generate_file_key draw.0 draw.1))) ≡ bytes_to_hex draw.1
unfolding aes_key_to_hex generate_file_key
fresh_iv draw d =
    ap (take 24) (
      drop-append_cons 64 (bytes_to_hex draw.0)
        (bytes_to_hex draw.1 ++ (b':' ∷ bytes_to_hex (replicate 16 0))) b':'
        (omega (arith, length-bytes_to_hex draw.0, d.key_size)))
    ∙ take-append 24 (bytes_to_hex draw.1) (b':' ∷ bytes_to_hex (replicate 16 0))
        (omega (arith, length-bytes_to_hex draw.1, d.iv_size))

bytes_to_hex-IsHex :
    (n : ℕ) (bs : Bytes) → IsBytes bs → length bs ≡ suc n → is_hex (bytes_to_hex bs) ≡ true
unfolding is_hex bytes_to_hex
bytes_to_hex-IsHex n [] h e = absurd (omega arith)
bytes_to_hex-IsHex n (b ∷ bs) h e = every_hex (b ∷ bs) h

is_hex-every : (s : Text) → is_hex s ≡ true → every is_xdigit s ≡ true
unfolding is_hex
is_hex-every s h = ground arith

nonempty_of_length : (n : ℕ) (bs : Bytes) → length bs ≡ suc n → is_empty bs ≡ false
nonempty_of_length n [] h = absurd (omega arith)
nonempty_of_length n (b ∷ bs) h = refl

pub nonempty_size :
    (xs ys : Bytes) → length xs ≡ length ys → is_empty ys ≡ false → is_empty xs ≡ false
nonempty_size [] [] h e = cc
nonempty_size [] (y ∷ ys) h e = absurd (omega arith)
nonempty_size (x ∷ xs) ys h e = refl

-- The key under which a group message is sealed.
abbrev pub group_aes : Text → Bytes → Bytes → AesKey
group_aes group_key iv tag = record { key = hex_to_bytes group_key; iv = iv; tag = tag }

module _ (w : Wire) (laws : IsGroupWire w) (group_key : Text)
    (k : is_group_key group_key ≡ true) where
  group_key_hex : every is_xdigit group_key ≡ true
  group_key_hex = is_hex-every group_key (ground (arith))

  sealed_message :
      (draw : Bytes × Bytes)
      → IsDraw draw
      → (from message : Text)
      → seal_group_message w draw group_key from message
        ≡ some (
            w.print_envelope (
              envelope_of w (
                aes_encrypt w.cipher
                  (w.print_inner from message)
                  (group_aes group_key draw.1 (hex_to_bytes (replicate 32 b'0'))))))
  unfolding seal_group_message key_text
  sealed_message draw d from message =
      rw
        (
          k,
          fresh_iv draw d,
          aes_key_from_hex-fields group_key (bytes_to_hex draw.1) (replicate 32 b'0') group_key_hex
              (every_hex draw.1 d.iv_bytes),
          hex_to_bytes-bytes_to_hex draw.1 d.iv_bytes,
        )
        refl

  opened_envelope :
      (iv tag ct : Bytes)
      → IsBytes iv
      → length iv ≡ 12
      → IsBytes tag
      → length tag ≡ 16
      → is_empty ct ≡ false
      → IsBytes ct
      → open_envelope w group_key
          (record { iv = bytes_to_hex iv; tag = bytes_to_hex tag; ct = w.to_base64 ct })
        ≡ (aes_decrypt w.cipher ct (group_aes group_key iv tag) >>= λ plain. w.parse_inner plain)
  unfolding open_envelope key_text
  opened_envelope iv tag ct bi li bt lt ne bc =
      let iv_size : length (bytes_to_hex iv) ≡ 24 = omega (arith, length-bytes_to_hex iv, li) in
      let tag_size : length (bytes_to_hex tag) ≡ 32 = omega (arith, length-bytes_to_hex tag, lt) in
      rw
        (
          iv_size,
          tag_size,
          bytes_to_hex-IsHex 11 iv bi li,
          bytes_to_hex-IsHex 15 tag bt lt,
          laws.base64 ct bc,
          ne,
          aes_key_from_hex-fields group_key (bytes_to_hex iv) (bytes_to_hex tag) group_key_hex
              (every_hex iv bi),
          hex_to_bytes-bytes_to_hex iv bi,
          hex_to_bytes-bytes_to_hex tag bt,
        )
        refl

  -- A message that is sealed under a group's key is opened under that key to its sender and its
  -- text, where the JSON of the inner object reads back.
  pub open_group_message-seal_group_message :
      (draw : Bytes × Bytes)
      → IsDraw draw
      → (from message : Text) → is_empty (w.print_inner from message) ≡ false
      → IsBytes (w.print_inner from message)
      → w.parse_inner (w.print_inner from message) ≡ some (from, message)
      → (seal_group_message w draw group_key from message >>= λ payload.
          open_group_message w group_key payload)
        ≡ some (from, message)
  unfolding open_group_message envelope_of aes_encrypt aes_decrypt
  open_group_message-seal_group_message draw d from message ne bp reads =
      let plain = w.print_inner from message in
      let key = hex_to_bytes group_key in
      let sealed = w.cipher.gcm_seal key draw.1 plain in
      let (ct_bytes, tag_bytes) = laws.aead.sealed_bytes key draw.1 plain bp in
      let tag_size = laws.aead.tag_size key draw.1 plain bp in
      let read =
        laws.envelope (bytes_to_hex draw.1) (bytes_to_hex sealed.1) sealed.0
          (bytes_to_hex-IsHex 11 draw.1 d.iv_bytes d.iv_size)
          (bytes_to_hex-IsHex 15 sealed.1 tag_bytes tag_size) ct_bytes in
      let full = nonempty_size sealed.0 plain (laws.aead.size key draw.1 plain bp) ne in
      rw
        (
          sealed_message draw d from message,
          k,
          read,
          opened_envelope draw.1 sealed.1 sealed.0 d.iv_bytes d.iv_size tag_bytes tag_size full
              ct_bytes,
          laws.aead.opens key draw.1 plain bp,
        )
        reads
