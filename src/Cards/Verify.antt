-- ===== src/Cards/Verify.antt =====
-- verifyCardStatus, in both forms (pilot-module/src/pilot_a2a.cpp).
use logos_pilot.Prelude.{Bool, Option, none, some, ◌&&◌, ◌||◌, not, if◌then◌else◌, true, false}
use logos_pilot.Text.{Text, same, is_empty}
use logos_pilot.Table.{find, insert}
use logos_pilot.Agent.{Pilot, Card, Pin, pin_keyed}
use logos_pilot.Agent.World.{World}

pub data CardStatus : Type 0 where
  valid invalid unsigned unbound : CardStatus

abbrev pub is_valid : CardStatus → Bool
is_valid valid = true
is_valid _ = false

-- The single-argument form: self-consistency of the card.
unfoldable pub card_status : World → Card → CardStatus
card_status w c =
    if not c.has_signature
    then unsigned
    else if is_empty c.sig_public_key || is_empty c.sig_value
    then invalid
    else if is_empty c.signing_key
    then unbound
    else if not (same c.sig_public_key c.signing_key)
    then invalid
    else if w.verify_signature c.canonical c.sig_value c.signing_key
    then valid
    else invalid

abbrev pub new_pin : World → Text → Text → Pin
new_pin w npk key = record { npk = npk; signing_key = key; first_seen = w.clock 0 }

-- `!pinned.empty() && pinned == key`
abbrev pub pin_matches : Text → Option Pin → Bool
pin_matches key none = false
pin_matches key (some pin) = not (is_empty pin.signing_key) && same pin.signing_key key

abbrev pub pin_card : World → Card → Pilot → Pilot
pin_card w c p = record p { card_pins = insert (new_pin w c.npk c.signing_key) p.card_pins }

-- The form with the database: the first signing key seen for an npk is pinned, and the card must
-- have the pinned one.
unfoldable pub verify_card_status : World → Pilot → Card → Pilot × CardStatus
verify_card_status w p c =
    if not p.has_db || not (is_valid (card_status w c))
    then (p, card_status w c)
    else if is_empty c.npk || is_empty c.signing_key
    then (p, card_status w c)
    else (
      pin_card w c p,
      if pin_matches c.signing_key (find c.npk (pin_card w c p).card_pins) then valid else invalid,
    )
