-- ===== src/Cards/Pinning.antt =====
-- The pins of cards: which key, which card and which payout account they let through.
use mathlib.Core.Path.{subst}
use logos_pilot.Prelude.{
  ◌≡◌, sym, ◌∙◌, ◌⊎◌, inl, inr, true, false, Option, none, some, List, [], ◌∷◌, arith, Option-cases,
  if_cases, not, ◌||◌,
}
use logos_pilot.Text.{Text, same, same-eq, is_empty}
use logos_pilot.Table.{find, insert}
use logos_pilot.Table.Laws.{find-insert}
use logos_pilot.Agent.{Pilot, Card, Pin, Discovered, pin_keyed, discovered_keyed}
use logos_pilot.Agent.World.{World, later}
use logos_pilot.Cards.Verify.{CardStatus, card_status, verify_card_status, is_valid, new_pin}
use logos_pilot.Cards.Match.{
  extract_encryption_key, match_cards, matched_card, discovered_payout_for,
}

valid_key :
    (w : World) (c : Card) → is_valid (card_status w c) ≡ true → is_empty c.signing_key ≡ false
unfolding card_status
valid_key w c h = ground arith

-- A valid card's key is the one that is pinned for its identity afterwards.
valid_pinned :
    (w : World) (p : Pilot) (c : Card)
    → p.has_db ≡ true
    → is_empty c.npk ≡ false
    → is_valid (verify_card_status w p c).1 ≡ true
    → (pin : Pin) × ((find c.npk (verify_card_status w p c).0.card_pins ≡ some pin)
        × (pin.signing_key ≡ c.signing_key))
unfolding verify_card_status
valid_pinned w p c db named h =
    elim (Option-cases (find c.npk (insert (new_pin w c.npk c.signing_key) p.card_pins))) [
      | inl e ↦ ground (arith, e, h, db, named, valid_key w c)
      | inr (pin, e) ↦ (
        pin,
        (
          ground (arith, e, h, db, named, valid_key w c),
          same-eq pin.signing_key c.signing_key (ground (arith, e, h, db, named, valid_key w c)),
        ),
      )
    ]

-- A pin that is there stays, whatever card is looked at.
pub verify_card_status-pin_stays :
    (w : World) (p : Pilot) (c : Card) (npk : Text) (pin : Pin)
    → find npk p.card_pins ≡ some pin
    → find npk (verify_card_status w p c).0.card_pins ≡ some pin
unfolding verify_card_status
verify_card_status-pin_stays w p c npk pin e =
    ground (arith, e, find-insert npk (new_pin w c.npk c.signing_key) p.card_pins)

verify_db : (w : World) (p : Pilot) (c : Card) → (verify_card_status w p c).0.has_db ≡ p.has_db
unfolding verify_card_status
verify_db w p c = ground arith

-- Two cards of one payment identity that both verify have the same signing key, the first one seen:
-- whoever reuses an identity with a key of their own is invalid. The database is open.
pub verify_card_status-no_impostor :
    (w u : World) (p : Pilot) (c d : Card)
    → p.has_db ≡ true
    → is_empty c.npk ≡ false
    → d.npk ≡ c.npk
    → is_valid (verify_card_status w p c).1 ≡ true
    → is_valid (verify_card_status u (verify_card_status w p c).0 d).1 ≡ true
    → d.signing_key ≡ c.signing_key
verify_card_status-no_impostor w u p c d db named twin h k =
    let q = (verify_card_status w p c).0 in
    let (pin, (e, f)) = valid_pinned w p c db named h in
    let (pin', (e', f')) =
      valid_pinned u q d (verify_db w p c ∙ db) (subst (λ n. is_empty n ≡ false) (sym twin) named)
        k in
    let stays = verify_card_status-pin_stays u q d c.npk pin e in
    ground (arith, e', f', f, stays, twin)

-- The row is in the table.
abbrev pub OnFile : Card → List Discovered → Type 0
OnFile c [] = ⊥
OnFile c (row ∷ rows) = (row.card ≡ c) ⊎ OnFile c rows

-- A card on file that is self-consistent, for the key that was asked for.
abbrev pub Matches : World → Text → List Discovered → Card → Type 0
Matches w key rows c =
    OnFile c rows × ((card_status w c ≡ CardStatus.valid) × (extract_encryption_key w c.npk ≡ key))

valid_self :
    (w : World) (p : Pilot) (c : Card)
    → is_valid (verify_card_status w p c).1 ≡ true
    → card_status w c ≡ CardStatus.valid
unfolding verify_card_status
valid_self w p c h = ground arith

-- A match is one that was found before, or a card in these rows.
abbrev Found : World → Text → List Discovered → Option Card → Option Card → Type 0
Found w key rows found o = (c : Card) → o ≡ some c → (found ≡ some c) ⊎ Matches w key rows c

further :
    (w : World) (key : Text) (row : Discovered) (rows : List Discovered) (found o : Option Card)
    → Found w key rows found o
    → Found w key (row ∷ rows) found o
further w key row rows found o h c e = elim (h c e) [
  | inl before ↦ inl before
  | inr (on, rest) ↦ inr (inr on, rest)
]

taken :
    (w : World) (key : Text) (row : Discovered) (rows : List Discovered) (o : Option Card)
    → card_status w row.card ≡ CardStatus.valid
    → extract_encryption_key w row.card.npk ≡ key
    → Found w key rows (some row.card) o
    → Found w key (row ∷ rows) none o
taken w key row rows o ok named h c e = elim (h c e) [
  | inl before ↦ inr (inl (ground (arith, before)), ground (arith, before, ok, named))
  | inr (on, rest) ↦ inr (inr on, rest)
]

match_cards-Found :
    (w : World) (key : Text) (rows : List Discovered) (found : Option Card) (p : Pilot)
    → Found w key rows found (match_cards w key rows found p).1
unfolding match_cards card_status extract_encryption_key
match_cards-Found w key [] found p = λ c e. inl e
match_cards-Found w key (row ∷ rows) none p =
    if_cases (λ (q : Pilot × Option Card). Found w key (row ∷ rows) none q.1)
      (not (same (extract_encryption_key w row.card.npk) key))
      (λ _. further w key row rows none _ (match_cards-Found w key rows none p))
      (λ named.
        if_cases (λ (q : Pilot × Option Card). Found w key (row ∷ rows) none q.1)
          (not (is_valid (verify_card_status w p row.card).1))
          (λ _. further w key row rows none _ (match_cards-Found (later 1 w) key rows none _))
          (λ ok.
            taken w key row rows _ (valid_self w p row.card (ground (arith, ok)))
              (same-eq (extract_encryption_key w row.card.npk) key (ground (arith, named)))
              (match_cards-Found (later 1 w) key rows (some row.card) _)))
match_cards-Found w key (row ∷ rows) (some d) p =
    if_cases (λ (q : Pilot × Option Card). Found w key (row ∷ rows) (some d) q.1)
      (not (same (extract_encryption_key w row.card.npk) key))
      (λ _. further w key row rows (some d) _ (match_cards-Found w key rows (some d) p))
      (λ _.
        if_cases (λ (q : Pilot × Option Card). Found w key (row ∷ rows) (some d) q.1)
          (not (is_valid (verify_card_status w p row.card).1))
          (λ _.
            further w key row rows (some d) _ (match_cards-Found (later 1 w) key rows (some d) _))
          (λ _.
            if_cases (λ (q : Pilot × Option Card). Found w key (row ∷ rows) (some d) q.1)
              (same row.card.payout d.payout)
              (λ _.
                further w key row rows (some d) _
                  (match_cards-Found (later 1 w) key rows (some d) _))
              (λ _ c e. ground (arith, e))))

-- The card that matchedCardLogos returns for an address is on file, is validly signed under its own
-- signing key, and is the card of the address's key.
pub matched_card-Matches :
    (w : World) (p : Pilot) (address : Text) (c : Card)
    → (matched_card w p address).1 ≡ some c
    → Matches w (extract_encryption_key w address) p.discovered c
unfolding matched_card
matched_card-Matches w p address c =
    if_cases
      (λ (q : Pilot × Option Card).
        q.1 ≡ some c → Matches w (extract_encryption_key w address) p.discovered c)
      (not p.has_db || is_empty (extract_encryption_key w address)) (λ _ e. ground (arith, e))
      (λ _ e.
        elim (match_cards-Found w (extract_encryption_key w address) p.discovered none p c e) [
          | inl before ↦ ground (arith, before)
          | inr found ↦ found
        ])

-- Where discoveredPayoutFor gives an account to pay, that account is the payment identity of a card
-- that is on file, validly signed, and the card of the address's key.
pub discovered_payout_for-bound :
    (w : World) (p : Pilot) (address : Text)
    → is_empty (discovered_payout_for w p address).1 ≡ false
    → (c : Card) × (Matches w (extract_encryption_key w address) p.discovered c
        × ((discovered_payout_for w p address).1 ≡ c.npk))
unfolding discovered_payout_for
discovered_payout_for-bound w p address h = elim (Option-cases (matched_card w p address).1) [
  | inl e ↦ ground (arith, e, h)
  | inr (c, e) ↦
      (c, (matched_card-Matches w p address c e, ground (arith, e, h, same-eq c.payout c.npk)))
]
