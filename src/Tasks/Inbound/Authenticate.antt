-- ===== src/Tasks/Inbound/Authenticate.antt =====
-- verifyInboundRequest (pilot-module/src/pilot_a2a_inbox.cpp): the signature of an inbound request
-- and the pin of its sender.
use logos_pilot.Prelude.{Bool, true, false, Option, none, some, ◌||◌, not, if◌then◌else◌}
use logos_pilot.Text.{Text, is_empty}
use logos_pilot.Table.{find, insert}
use logos_pilot.Agent.{Pilot, Pin, pin_keyed}
use logos_pilot.Agent.World.{World}
use logos_pilot.Cards.Verify.{new_pin, pin_matches}

-- What the code reads of the envelope: the fields of _logos, and the compact bytes of the request
-- without the signature.
pub record Envelope : Type 0 where
  pub signing_key : Text
  pub signature : Text
  pub sender_npk : Text
  pub canonical : Text

-- The answer, and whether this message is the first of its sender.
pub record Verdict : Type 0 where
  pub accepted : Bool
  pub first_contact : Bool

abbrev pub dropped : Verdict
dropped = record { accepted = false; first_contact = false }

abbrev pub is_missing : Option Pin → Bool
is_missing none = true
is_missing (some pin) = false

abbrev pub pin_request : World → Envelope → Pilot → Pilot
pin_request w r p = record p {
  request_pins = insert (new_pin w r.sender_npk r.signing_key) p.request_pins;
}

unfoldable pub verify_inbound_request : World → Pilot → Envelope → Pilot × Verdict
verify_inbound_request w p r =
    if is_empty r.signing_key || is_empty r.signature
    then (p, dropped)
    else if not (w.verify_signature r.canonical r.signature r.signing_key)
    then (p, dropped)
    else if not p.has_db
    then (p, record { accepted = true; first_contact = true })
    else if is_empty r.sender_npk
    then (p, record { accepted = true; first_contact = false })
    else (
      pin_request w r p,
      record {
        accepted = pin_matches r.signing_key (find r.sender_npk (pin_request w r p).request_pins);
        first_contact = is_missing (find r.sender_npk p.request_pins);
      },
    )
