-- ===== src/Cards/Genuine.antt =====
-- The cache of cards against whatever arrives: the card on file of a pinned identity
-- (handleDiscoveryCard, agentImportCard and a2aCacheDiscoveredCard of pilot-module/src/pilot_a2a.cpp).
pub mod Arrivals
use mathlib.Core.Path.{subst}
use logos_pilot.Prelude.{
  ℕ, ◌≡◌, refl, sym, ◌∙◌, Bool, true, false, Option, none, some, List, [], ◌∷◌, arith, inl, inr,
  Bool-cases, if_cases, not, ◌||◌,
}
use logos_pilot.Text.{Text, same, same-eq, is_empty}
use logos_pilot.Table.{find}
use logos_pilot.Table.Laws.{IsKeyed, find-upsert, find-insert, upsert-IsKeyed}
use logos_pilot.Agent.{Pilot, Card, Pin, Discovered, pin_keyed, discovered_keyed}
use logos_pilot.Agent.World.{World, later}
use logos_pilot.Cards.Verify.{
  CardStatus, is_valid, new_pin, pin_card, pin_matches, verify_card_status, card_status,
}
use logos_pilot.Cards.Cache.{
  store_card, keep_or_store, cache_unverified, cache_checked, cache_discovered_card,
}
use logos_pilot.Cards.Arriving.{
  CardArrival, ImportResult, broadcast, file, arrive_all, handle_discovery_card, agent_import_card,
  after_caching, is_identical, card_topic, KeepsPin, verify_card_status-KeepsPin,
}

-- The cards are looked at with the signature check of one world.
abbrev pub SameCheck : World → World → Type 0
SameCheck w u = u.verify_signature ≡ w.verify_signature

same_status : (w u : World) (c : Card) → SameCheck w u → card_status u c ≡ card_status w c
unfolding card_status
same_status w u c h = rw h refl

-- The identity `k` is pinned, and the card on file for it is validly signed with the pinned key.
pub record Genuine (w : World) (k : Text) (pin : Pin) (p : Pilot) : Type 0 where
  pub keyed : IsKeyed p.discovered
  pub pinned : find k p.card_pins ≡ some pin
  pub row : Discovered
  pub on_file : find k p.discovered ≡ some row
  pub named : row.card.npk ≡ k
  pub signed_by : row.card.signing_key ≡ pin.signing_key
  pub authentic : is_valid (card_status w row.card) ≡ true

status_if_valid :
    (w : World) (p : Pilot) (c : Card)
    → is_valid (verify_card_status w p c).1 ≡ true
    → is_valid (card_status w c) ≡ true
unfolding verify_card_status
status_if_valid w p c h = ground (arith, h)

has_signing_key :
    (w : World) (c : Card) → is_valid (card_status w c) ≡ true → is_empty c.signing_key ≡ false
unfolding card_status
has_signing_key w c h = ground (arith, h)

-- A card of a pinned identity that verifies is signed with the pinned key.
signed_with_pin :
    (w : World) (p : Pilot) (c : Card) (pin : Pin)
    → p.has_db ≡ true
    → is_empty c.npk ≡ false
    → find c.npk p.card_pins ≡ some pin
    → is_valid (verify_card_status w p c).1 ≡ true
    → c.signing_key ≡ pin.signing_key
unfolding verify_card_status
signed_with_pin w p c pin db named e h =
    let ok = status_if_valid w p c (unfold verify_card_status in h) in
    sym (
      same-eq pin.signing_key c.signing_key (
        ground (
          arith,
          e,
          h,
          db,
          named,
          has_signing_key w c ok,
          find-insert c.npk (new_pin w c.npk c.signing_key) p.card_pins,
        )))

verify_frame :
    (w : World) (p : Pilot) (c : Card)
    → ((verify_card_status w p c).0.has_db ≡ p.has_db)
      × ((verify_card_status w p c).0.discovered ≡ p.discovered)
unfolding verify_card_status
verify_frame w p c = ground arith

module _ (w : World) (k : Text) (pin : Pin) (named : is_empty k ≡ false) where
  moved :
      {p q : Pilot}
      → q.discovered ≡ p.discovered
      → KeepsPin k pin q
      → Genuine w k pin p
      → Genuine w k pin q
  moved same_rows pinned h = record {
    keyed = subst IsKeyed (sym same_rows) h.keyed;
    pinned = pinned;
    row = h.row;
    on_file = subst (λ rows. find k rows ≡ some h.row) (sym same_rows) h.on_file;
    named = h.named;
    signed_by = h.signed_by;
    authentic = h.authentic;
  }

  looked-Genuine :
      (u : World) (p : Pilot) (c : Card)
      → Genuine w k pin p
      → Genuine w k pin (verify_card_status u p c).0
  looked-Genuine u p c h =
      moved (verify_frame u p c).1 (verify_card_status-KeepsPin k pin u p c h.pinned) h

  -- A card of the identity itself, signed with the pinned key.
  own-Genuine :
      (c : Card) (topic : Text) (last_seen : ℕ) (p : Pilot)
      → c.npk ≡ k
      → c.signing_key ≡ pin.signing_key
      → is_valid (card_status w c) ≡ true
      → Genuine w k pin p
      → Genuine w k pin (store_card c topic last_seen p)
  own-Genuine c topic last_seen p own key ok h =
      let row : Discovered = record {
        npk = c.npk;
        card = c;
        topic = topic;
        last_seen = last_seen;
      } in
      record {
        keyed = upsert-IsKeyed row p.discovered h.keyed;
        pinned = h.pinned;
        row = row;
        on_file = ground (arith, own, find-upsert k row p.discovered h.keyed, same-eq c.npk k);
        named = own;
        signed_by = key;
        authentic = ok;
      }

  -- A card of another identity.
  other-Genuine :
      (c : Card) (topic : Text) (last_seen : ℕ) (p : Pilot)
      → same c.npk k ≡ false
      → Genuine w k pin p
      → Genuine w k pin (store_card c topic last_seen p)
  other-Genuine c topic last_seen p other h =
      let row : Discovered = record {
        npk = c.npk;
        card = c;
        topic = topic;
        last_seen = last_seen;
      } in
      record {
        keyed = upsert-IsKeyed row p.discovered h.keyed;
        pinned = h.pinned;
        row = h.row;
        on_file = ground (arith, other, h.on_file, find-upsert k row p.discovered h.keyed);
        named = h.named;
        signed_by = h.signed_by;
        authentic = h.authentic;
      }

  -- The card on file still verifies.
  on_file_valid :
      (u : World) (p : Pilot)
      → SameCheck w u
      → p.has_db ≡ true
      → (h : Genuine w k pin p) → is_valid (verify_card_status u p h.row.card).1 ≡ true
  unfolding verify_card_status
  on_file_valid u p check db h =
      let c = h.row.card in
      let ok : is_valid (card_status u c) ≡ true =
        subst (λ s. is_valid s ≡ true) (sym (same_status w u c check)) h.authentic in
      ground (
        arith,
        db,
        ok,
        named,
        h.named,
        h.pinned,
        h.signed_by,
        has_signing_key u c ok,
        same-eq pin.signing_key c.signing_key,
        find-insert c.npk (new_pin u c.npk c.signing_key) p.card_pins,
      )
