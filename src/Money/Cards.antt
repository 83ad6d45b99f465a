-- ===== src/Money/Cards.antt =====
-- Looking at cards (verifyCardStatus, matchedCardLogos and the functions over it) and the rest of the
-- state.
use logos_pilot.Prelude.{◌≡◌, refl, Option, none, some, List, [], ◌∷◌, not, if_cases, ◌||◌, arith}
use logos_pilot.Text.{Text, same, is_empty}
use logos_pilot.Agent.{Pilot, Card, Discovered}
use logos_pilot.Agent.World.{World, later}
use logos_pilot.Cards.Verify.{verify_card_status, is_valid}
use logos_pilot.Cards.Match.{
  extract_encryption_key, match_cards, matched_card, discovered_payout_for,
}
use logos_pilot.Money.Frame.{KeepsMoney}

-- Nothing but the pins of cards differs.
abbrev pub OnlyPins : Pilot → Pilot → Type 0
OnlyPins p q = q ≡ record p { card_pins = q.card_pins }

OnlyPins-trans : (p : Pilot) {q r : Pilot} → OnlyPins p q → OnlyPins q r → OnlyPins p r
OnlyPins-trans p {q} {r} h k = ground arith

pub OnlyPins-KeepsMoney : {p q : Pilot} → OnlyPins p q → KeepsMoney p q
OnlyPins-KeepsMoney {p} {q} h = ground arith

pub verify_card_status-OnlyPins :
    (w : World) (p : Pilot) (c : Card) → OnlyPins p (verify_card_status w p c).0
unfolding verify_card_status
verify_card_status-OnlyPins w p c = ground arith

match_cards-OnlyPins :
    (w : World) (key : Text) (rows : List Discovered) (found : Option Card) (p : Pilot)
    → OnlyPins p (match_cards w key rows found p).0
unfolding match_cards
match_cards-OnlyPins w key [] found p = refl
match_cards-OnlyPins w key (row ∷ rows) none p =
    if_cases (λ (q : Pilot × Option Card). OnlyPins p q.0)
      (not (same (extract_encryption_key w row.card.npk) key))
      (λ _. match_cards-OnlyPins w key rows none p)
      (λ _.
        if_cases (λ (q : Pilot × Option Card). OnlyPins p q.0)
          (not (is_valid (verify_card_status w p row.card).1))
          (λ _.
            OnlyPins-trans p (verify_card_status-OnlyPins w p row.card)
              (match_cards-OnlyPins (later 1 w) key rows none _))
          (λ _.
            OnlyPins-trans p (verify_card_status-OnlyPins w p row.card)
              (match_cards-OnlyPins (later 1 w) key rows (some row.card) _)))
match_cards-OnlyPins w key (row ∷ rows) (some c) p =
    if_cases (λ (q : Pilot × Option Card). OnlyPins p q.0)
      (not (same (extract_encryption_key w row.card.npk) key))
      (λ _. match_cards-OnlyPins w key rows (some c) p)
      (λ _.
        if_cases (λ (q : Pilot × Option Card). OnlyPins p q.0)
          (not (is_valid (verify_card_status w p row.card).1))
          (λ _.
            OnlyPins-trans p (verify_card_status-OnlyPins w p row.card)
              (match_cards-OnlyPins (later 1 w) key rows (some c) _))
          (λ _.
            if_cases (λ (q : Pilot × Option Card). OnlyPins p q.0) (same row.card.payout c.payout)
              (λ _.
                OnlyPins-trans p (verify_card_status-OnlyPins w p row.card)
                  (match_cards-OnlyPins (later 1 w) key rows (some c) _))
              (λ _. verify_card_status-OnlyPins w p row.card)))

pub matched_card-OnlyPins :
    (w : World) (p : Pilot) (address : Text) → OnlyPins p (matched_card w p address).0
unfolding matched_card
matched_card-OnlyPins w p address =
    if_cases (λ (q : Pilot × Option Card). OnlyPins p q.0)
      (not p.has_db || is_empty (extract_encryption_key w address)) (λ _. refl)
      (λ _. match_cards-OnlyPins w (extract_encryption_key w address) p.discovered none p)

pub verify_card_status-KeepsMoney :
    (w : World) (p : Pilot) (c : Card) → KeepsMoney p (verify_card_status w p c).0
verify_card_status-KeepsMoney w p c = OnlyPins-KeepsMoney (verify_card_status-OnlyPins w p c)

pub matched_card-KeepsMoney :
    (w : World) (p : Pilot) (address : Text) → KeepsMoney p (matched_card w p address).0
matched_card-KeepsMoney w p address = OnlyPins-KeepsMoney (matched_card-OnlyPins w p address)

pub discovered_payout_for-KeepsMoney :
    (w : World) (p : Pilot) (address : Text) → KeepsMoney p (discovered_payout_for w p address).0
unfolding discovered_payout_for
discovered_payout_for-KeepsMoney w p address = matched_card-KeepsMoney w p address
