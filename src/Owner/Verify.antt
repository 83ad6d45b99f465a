-- ===== src/Owner/Verify.antt =====
-- verifyOwnerMessage (pilot-module/src/pilot_impl.cpp): which messages on the owner channel count as
-- the owner's.
use logos_pilot.Prelude.{
  ℕ, zero, suc, ◌^◌, ◌==◌, Option, none, some, [], ◌∷◌, ◌&&◌, ◌||◌, ltb, not, if◌then◌else◌,
}
use logos_pilot.Prelude.Int.{ℤ, pos, negsuc, leb_ℤ}
use logos_pilot.Text.{Text, codes, same, is_empty}
use logos_pilot.Text.Decimal.{decimal_ℤ}
use logos_pilot.Text.Trim.{trim_left}
use logos_pilot.Table.{find, insert, upsert}
use logos_pilot.Agent.{Pilot, Entry, entry_keyed}
use logos_pilot.Agent.World.{World}
use logos_pilot.Settings.Parse.{is_space, read_digits}

-- What is read of a message that is a signed envelope: a JSON object with a text `message` and the
-- texts _logos.signing_key and _logos.signature. `nonce` is _logos.nonce as a 64-bit integer, `none`
-- where it is missing or no number; `canonical` the compact bytes without the signature.
pub record OwnerEnvelope : Type 0 where
  pub message : Text
  pub signing_key : Text
  pub signature : Text
  pub canonical : Text
  pub nonce : Option ℤ

abbrev pub signing_key_row : Text
signing_key_row = codes "owner.signing_key"

abbrev pub last_nonce_row : Text
last_nonce_row = codes "owner.last_nonce"

abbrev pub entry_value : Option Entry → Text
entry_value none = []
entry_value (some e) = e.value

-- The bounds of a 64-bit integer, at which strtoll stops.
abbrev pub clamp_pos : ℕ → ℤ
clamp_pos n = if ltb n (2 ^ 63) then pos n else pos 9223372036854775807

abbrev pub clamp_neg : ℕ → ℤ
clamp_neg zero = pos 0
clamp_neg (suc n) = if ltb n (2 ^ 63) then negsuc n else negsuc 9223372036854775807

abbrev pub strtoll_signed : Text → ℤ
strtoll_signed [] = pos 0
strtoll_signed (c ∷ s) =
    if c == b'-'
    then clamp_neg (read_digits 0 s).0
    else if c == b'+'
    then clamp_pos (read_digits 0 s).0
    else clamp_pos (read_digits 0 (c ∷ s)).0

-- std::strtoll in base 10; a text without digits is 0.
unfoldable pub strtoll : Text → ℤ
unfolding trim_left read_digits
strtoll s = strtoll_signed (trim_left is_space s)

unfoldable pub pinned_owner : Pilot → Text
pinned_owner p = entry_value (find signing_key_row p.config)

unfoldable pub last_nonce : Pilot → ℤ
unfolding strtoll
last_nonce p = if p.has_db then strtoll (entry_value (find last_nonce_row p.config)) else pos 0

-- Text that is no signed envelope counts only while no owner is bound.
unfoldable pub verify_unsigned : Pilot → Text → Pilot × Option Text
unfolding pinned_owner
verify_unsigned p raw =
    if not (is_empty p.owner_npk)
    then (p, none)
    else if p.has_db && not (is_empty (pinned_owner p))
    then (p, none)
    else (p, some raw)

-- The INSERT OR IGNORE of the key that comes first.
unfoldable pub pin_owner : Text → Pilot → Pilot
pin_owner key p =
    if p.has_db
    then record p { config = insert (record { name = signing_key_row; value = key }) p.config }
    else p

unfoldable pub raise_nonce : ℤ → Pilot → Pilot
raise_nonce n p =
    if p.has_db
    then record p {
      config = upsert (record { name = last_nonce_row; value = decimal_ℤ n }) p.config;
    }
    else p

unfoldable pub verify_nonce : Pilot → OwnerEnvelope → Option ℤ → Pilot × Option Text
unfolding last_nonce raise_nonce
verify_nonce p e none = (p, none)
verify_nonce p e (some n) =
    if leb_ℤ n (last_nonce p) then (p, none) else (raise_nonce n p, some e.message)

unfoldable pub verify_pinned : Pilot → OwnerEnvelope → Pilot × Option Text
unfolding verify_nonce pinned_owner
verify_pinned p e =
    if p.has_db && (is_empty (pinned_owner p) || not (same (pinned_owner p) e.signing_key))
    then (p, none)
    else verify_nonce p e e.nonce

-- The message to act on, `none` where it is dropped. `o` is the envelope, `none` where the raw text
-- is none.
unfoldable pub verify_owner_message :
    World → Pilot → Text → Option OwnerEnvelope → Pilot × Option Text
unfolding verify_unsigned verify_pinned pin_owner
verify_owner_message w p raw none = verify_unsigned p raw
verify_owner_message w p raw (some e) =
    if not (w.verify_signature e.canonical e.signature e.signing_key)
    then (p, none)
    else verify_pinned (pin_owner e.signing_key p) e
