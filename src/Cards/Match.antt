-- ===== src/Cards/Match.antt =====
-- extractEncryptionKey, matchedCardLogos, discoveredPriceFor, discoveredPayoutFor and
-- a2aResolveRoutingKey (pilot-module/src/pilot_a2a.cpp).
use logos_pilot.Prelude.{Option, none, some, List, [], ◌∷◌, ◌||◌, if◌then◌else◌, not}
use logos_pilot.Prelude.Int.{ℤ, pos}
use logos_pilot.Text.{Text, same, is_empty}
use logos_pilot.Agent.{Pilot, Card, Discovered}
use logos_pilot.Agent.World.{World, later}
use logos_pilot.Cards.Verify.{verify_card_status, is_valid}

abbrev or_whole : Text → Option Text → Text
or_whole addr none = addr
or_whole addr (some key) = key

unfoldable pub extract_encryption_key : World → Text → Text
extract_encryption_key w addr = or_whole addr (w.viewing_key_of addr)

-- The walk over the table: `found` is the card that matched so far. A second match with another
-- payout ends it with nothing.
unfoldable pub match_cards :
    World → Text → List Discovered → Option Card → Pilot → Pilot × Option Card
match_cards w key [] found p = (p, found)
match_cards w key (row ∷ rows) found p =
    let skipped = match_cards w key rows found p in
    let (p', status) = verify_card_status w p row.card in
    let unverified = match_cards (later 1 w) key rows found p' in
    let first = match_cards (later 1 w) key rows (some row.card) p' in
    if not (same (extract_encryption_key w row.card.npk) key)
    then skipped
    else if not (is_valid status)
    then unverified
    else elim found [
      | none ↦ first
      | some c ↦ if same row.card.payout c.payout then unverified else (p', none)
    ]

unfoldable pub matched_card : World → Pilot → Text → Pilot × Option Card
unfolding match_cards
matched_card w p address =
    if not p.has_db || is_empty (extract_encryption_key w address)
    then (p, none)
    else match_cards w (extract_encryption_key w address) p.discovered none p

abbrev price_in : Text → List (Text × ℤ) → ℤ
price_in skill [] = pos 0
price_in skill ((s, price) ∷ rest) = if same s skill then price else price_in skill rest

abbrev card_price : Text → Option Card → ℤ
card_price skill none = pos 0
card_price skill (some c) = price_in skill c.pricing

unfoldable pub discovered_price_for : World → Pilot → Text → Text → Pilot × ℤ
discovered_price_for w p address skill =
    let (p', c) = matched_card w p address in (p', card_price skill c)

-- The payout counts only where it is the card's payment identity.
abbrev bound_payout : Option Card → Text
bound_payout none = []
bound_payout (some c) = if is_empty c.npk || not (same c.payout c.npk) then [] else c.payout

unfoldable pub discovered_payout_for : World → Pilot → Text → Pilot × Text
discovered_payout_for w p address = let (p', c) = matched_card w p address in (p', bound_payout c)

abbrev card_routing_key : Option Card → Text
card_routing_key none = []
card_routing_key (some c) = if is_empty c.enc_key then c.signing_key else c.enc_key

unfoldable pub resolve_routing_key : World → Pilot → Text → Pilot × Text
resolve_routing_key w p address = let (p', c) = matched_card w p address in (p', card_routing_key c)
