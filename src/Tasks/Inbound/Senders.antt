-- ===== src/Tasks/Inbound/Senders.antt =====
-- What the pins of request senders promise (verifyInboundRequest).
use mathlib.Core.Path.{subst}
use logos_pilot.Prelude.{◌≡◌, sym, ◌∙◌, inl, inr, true, false, some, arith, Option-cases}
use logos_pilot.Text.{Text, same-eq, is_empty}
use logos_pilot.Table.{find, insert}
use logos_pilot.Table.Laws.{find-insert}
use logos_pilot.Agent.{Pilot, Pin, pin_keyed}
use logos_pilot.Agent.World.{World}
use logos_pilot.Cards.Verify.{new_pin}
use logos_pilot.Tasks.Inbound.Authenticate.{Envelope, verify_inbound_request}

accepted_pinned :
    (w : World) (p : Pilot) (r : Envelope)
    → p.has_db ≡ true
    → is_empty r.sender_npk ≡ false
    → (verify_inbound_request w p r).1.accepted ≡ true
    → (pin : Pin) × ((find r.sender_npk (verify_inbound_request w p r).0.request_pins ≡ some pin)
        × (pin.signing_key ≡ r.signing_key))
unfolding verify_inbound_request
accepted_pinned w p r db named h =
    elim (Option-cases
      (find r.sender_npk (insert (new_pin w r.sender_npk r.signing_key) p.request_pins))) [
        | inl e ↦ ground (arith, e, h, db, named)
        | inr (pin, e) ↦ (
          pin,
          (
            ground (arith, e, h, db, named),
            same-eq pin.signing_key r.signing_key (ground (arith, e, h, db, named)),
          ),
        )
      ]

pin_stays :
    (w : World) (p : Pilot) (r : Envelope) (npk : Text) (pin : Pin)
    → find npk p.request_pins ≡ some pin
    → find npk (verify_inbound_request w p r).0.request_pins ≡ some pin
unfolding verify_inbound_request
pin_stays w p r npk pin e =
    ground (arith, e, find-insert npk (new_pin w r.sender_npk r.signing_key) p.request_pins)

verify_db :
    (w : World) (p : Pilot) (r : Envelope) → (verify_inbound_request w p r).0.has_db ≡ p.has_db
unfolding verify_inbound_request
verify_db w p r = ground arith

known_sender :
    (w : World) (p : Pilot) (r : Envelope) (pin : Pin)
    → find r.sender_npk p.request_pins ≡ some pin
    → p.has_db ≡ true
    → (verify_inbound_request w p r).1.first_contact ≡ false
unfolding verify_inbound_request
known_sender w p r pin e db = ground (arith, e, db)

-- Two accepted requests that name one sender are signed with one key, the first one seen, and the
-- second is never shown as a first contact. The database is open and the sender is not empty.
pub verify_inbound_request-one_key :
    (w u : World) (p : Pilot) (r s : Envelope)
    → p.has_db ≡ true
    → is_empty r.sender_npk ≡ false
    → s.sender_npk ≡ r.sender_npk
    → (verify_inbound_request w p r).1.accepted ≡ true
    → (verify_inbound_request u (verify_inbound_request w p r).0 s).1.accepted ≡ true
    → (s.signing_key ≡ r.signing_key)
      × ((verify_inbound_request u (verify_inbound_request w p r).0 s).1.first_contact ≡ false)
verify_inbound_request-one_key w u p r s db named twin h k =
    let q = (verify_inbound_request w p r).0 in
    let (pin, (e, f)) = accepted_pinned w p r db named h in
    let known : find s.sender_npk q.request_pins ≡ some pin =
      subst (λ n. find n q.request_pins ≡ some pin) (sym twin) e in
    let (pin', (e', f')) =
      accepted_pinned u q s (verify_db w p r ∙ db)
        (subst (λ n. is_empty n ≡ false) (sym twin) named) k in
    (
      ground (arith, e', f', f, pin_stays u q s s.sender_npk pin known),
      known_sender u q s pin known (verify_db w p r ∙ db),
    )
