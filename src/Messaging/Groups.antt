-- ===== src/Messaging/Groups.antt =====
-- pilotSealGroupMessage, pilotOpenGroupMessage, genGroupKeyHex and groupKeyFor
-- (pilot-module/src/pilot_messaging.cpp).
use logos_pilot.Prelude.{
  Bool, Option, none, some, ◌∷◌, ◌++◌, ◌&&◌, ◌||◌, not, ◌==◌, length, take, drop, replicate, every,
  if◌then◌else◌,
}
use logos_pilot.Prelude.Options.{◌>>=◌}
use logos_pilot.Text.{Text, is_empty}
use logos_pilot.Text.Search.{is_xdigit}
use logos_pilot.Table.{find}
use logos_pilot.Crypto.Hex.{Bytes, bytes_to_hex}
use logos_pilot.Crypto.Cipher.{AesKey, generate_file_key, aes_encrypt, aes_decrypt}
use logos_pilot.Crypto.Formats.{aes_key_to_hex, aes_key_from_hex}
use logos_pilot.Messaging.Mailbox.{Mailbox, Wire, Group, group_keyed, GroupEnvelope}

unfoldable pub is_hex : Text → Bool
unfolding is_xdigit
is_hex s = not (is_empty s) && every is_xdigit s

-- The first 64 characters of a fresh key's text; `key` and `iv` are its random draws.
unfoldable pub gen_group_key_hex : Bytes → Bytes → Text
gen_group_key_hex key iv = take 64 (aes_key_to_hex (generate_file_key key iv))

abbrev pub is_group_key : Text → Bool
is_group_key key = length key == 64 && is_hex key

unfoldable pub key_text : Text → Text → Text → Text
key_text key iv tag = key ++ (b':' ∷ (iv ++ (b':' ∷ tag)))

unfoldable pub envelope_of : Wire → Bytes × AesKey → GroupEnvelope
envelope_of w (ct, k) = record {
  iv = bytes_to_hex k.iv;
  tag = bytes_to_hex k.tag;
  ct = w.to_base64 ct;
}

-- `none` is the empty text that stands for a failure. `draw` is the key and the iv that generateFileKey draws.
unfoldable pub seal_group_message : Wire → Bytes × Bytes → Text → Text → Text → Option Text
unfolding key_text envelope_of
seal_group_message w draw group_key from message = if not (is_group_key group_key) then none else do
  k ← aes_key_from_hex (
      key_text group_key (take 24 (drop 65 (aes_key_to_hex (generate_file_key draw.0 draw.1))))
        (replicate 32 b'0'))
  some (w.print_envelope (envelope_of w (aes_encrypt w.cipher (w.print_inner from message) k)))

abbrev pub is_sealed : GroupEnvelope → Bool
is_sealed e = length e.iv == 24 && length e.tag == 32 && is_hex e.iv && is_hex e.tag

unfoldable pub open_envelope : Wire → Text → GroupEnvelope → Option (Text × Text)
unfolding key_text
open_envelope w group_key e =
    if not (is_sealed e) then none else if is_empty (w.from_base64 e.ct) then none else do
      k ← aes_key_from_hex (key_text group_key e.iv e.tag)
      plain ← aes_decrypt w.cipher (w.from_base64 e.ct) k
      w.parse_inner plain

-- The sender and the message, `none` where the code returns false.
unfoldable pub open_group_message : Wire → Text → Text → Option (Text × Text)
unfolding open_envelope
open_group_message w group_key payload =
    if not (is_group_key group_key)
    then none
    else do e ← w.parse_envelope payload; open_envelope w group_key e

abbrev usable_key : Bool → Option Group → Option Group
usable_key require_joined none = none
usable_key require_joined (some g) =
    if is_empty g.key_hex || (require_joined && not g.joined) then none else some g

-- The row whose key and topic groupKeyFor hands out, `none` where it returns the empty text.
unfoldable pub group_key_for : Mailbox → Text → Bool → Option Group
group_key_for m group_id require_joined =
    if not m.has_db || is_empty group_id
    then none
    else usable_key require_joined (find group_id m.groups)
