-- ===== src/Cards/Genuine/Arrivals.antt =====
-- The card on file of a pinned identity, through each card that arrives.
use mathlib.Core.Path.{subst}
use logos_pilot.Prelude.{
  ℕ, ◌≡◌, sym, ◌∙◌, Bool, true, false, Option, none, some, List, [], ◌∷◌, arith, inl, inr,
  Bool-cases, if_cases, not, ◌||◌,
}
use logos_pilot.Text.{Text, same, same-eq, is_empty}
use logos_pilot.Table.{find}
use logos_pilot.Agent.{Pilot, Card, Pin, Discovered, pin_keyed, discovered_keyed}
use logos_pilot.Agent.World.{World, later}
use logos_pilot.Cards.Verify.{is_valid, verify_card_status}
use logos_pilot.Cards.Cache.{store_card, cache_unverified, cache_checked, cache_discovered_card}
use logos_pilot.Cards.Arriving.{
  CardArrival, ImportResult, broadcast, file, arrive_all, handle_discovery_card, agent_import_card,
  after_caching, is_identical, card_topic,
}
use logos_pilot.Cards.Genuine.{
  SameCheck, Genuine, same_status, status_if_valid, signed_with_pin, verify_frame, looked-Genuine,
  own-Genuine, other-Genuine, on_file_valid,
}

module _ (w : World) (k : Text) (pin : Pin) (named : is_empty k ≡ false) where
  other_unverified :
      (u : World) (c : Card) (topic : Text) (last_seen : ℕ) (p : Pilot) (o : Option Discovered)
      → same c.npk k ≡ false
      → Genuine w k pin p
      → Genuine w k pin (cache_unverified u c topic last_seen p o).0
  unfolding cache_unverified
  other_unverified u c topic last_seen p none other h =
      other-Genuine w k pin named c topic last_seen p other h
  other_unverified u c topic last_seen p (some row) other h =
      let looked = looked-Genuine w k pin named u p row.card h in
      if_cases (λ (q : Pilot × Bool). Genuine w k pin q.0)
        (is_valid (verify_card_status u p row.card).1) (λ _. looked)
        (λ _.
          other-Genuine w k pin named c topic last_seen (verify_card_status u p row.card).0 other
            looked)

  own_unverified :
      (u : World) (c : Card) (topic : Text) (last_seen : ℕ) (p : Pilot)
      → SameCheck w u
      → p.has_db ≡ true
      → (h : Genuine w k pin p)
      → Genuine w k pin (cache_unverified u c topic last_seen p (some h.row)).0
  unfolding cache_unverified
  own_unverified u c topic last_seen p check db h =
      if_cases (λ (q : Pilot × Bool). Genuine w k pin q.0)
        (is_valid (verify_card_status u p h.row.card).1)
        (λ _. looked-Genuine w k pin named u p h.row.card h)
        (λ bad. absurd (ground (arith, bad, on_file_valid w k pin named u p check db h)))

  unverified-Genuine :
      (u : World) (c : Card) (topic : Text) (last_seen : ℕ) (p : Pilot)
      → SameCheck w u
      → p.has_db ≡ true
      → Genuine w k pin p
      → Genuine w k pin (cache_unverified u c topic last_seen p (find c.npk p.discovered)).0
  unverified-Genuine u c topic last_seen p check db h = elim (Bool-cases (same c.npk k)) [
    | inl e ↦
        subst (λ o. Genuine w k pin (cache_unverified u c topic last_seen p o).0)
          (sym (subst (λ i. find i p.discovered ≡ some h.row) (sym (same-eq c.npk k e)) h.on_file))
          (own_unverified u c topic last_seen p check db h)
    | inr e ↦ other_unverified u c topic last_seen p _ e h
  ]

  -- A card that verifies is stored: it is of another identity, or signed with the pinned key.
  verified-Genuine :
      (u : World) (p : Pilot) (c : Card) (topic : Text) (last_seen : ℕ)
      → SameCheck w u
      → p.has_db ≡ true
      → is_valid (verify_card_status u p c).1 ≡ true
      → Genuine w k pin p
      → Genuine w k pin (store_card c topic last_seen (verify_card_status u p c).0)
  verified-Genuine u p c topic last_seen check db ok h = elim (Bool-cases (same c.npk k)) [
    | inl e ↦
        let own = same-eq c.npk k e in
        own-Genuine w k pin named c topic last_seen (verify_card_status u p c).0 own
          (signed_with_pin u p c pin db (subst (λ i. is_empty i ≡ false) (sym own) named)
            (subst (λ i. find i p.card_pins ≡ some pin) (sym own) h.pinned) ok)
          (subst (λ s. is_valid s ≡ true) (same_status w u c check) (status_if_valid u p c ok))
          (looked-Genuine w k pin named u p c h)
    | inr e ↦
        other-Genuine w k pin named c topic last_seen (verify_card_status u p c).0 e
          (looked-Genuine w k pin named u p c h)
  ]

  cache_discovered_card-Genuine :
      (u : World) (p : Pilot) (c : Card) (topic : Text) (last_seen : ℕ)
      → SameCheck w u
      → Genuine w k pin p
      → Genuine w k pin (cache_discovered_card u p c topic last_seen).0
  unfolding cache_discovered_card cache_checked
  cache_discovered_card-Genuine u p c topic last_seen check h =
      if_cases (λ (q : Pilot × Bool). Genuine w k pin q.0) (not p.has_db) (λ _. h)
        (λ no_db.
          if_cases (λ (q : Pilot × Bool). Genuine w k pin q.0) (is_empty c.npk) (λ _. h)
            (λ _.
              if_cases (λ (q : Pilot × Bool). Genuine w k pin q.0)
                (is_valid (verify_card_status u p c).1)
                (λ ok. verified-Genuine u p c topic last_seen check (ground (arith, no_db)) ok h)
                (λ _.
                  unverified-Genuine (later 1 u) c topic last_seen (verify_card_status u p c).0
                    check ((verify_frame u p c).0 ∙ ground (arith, no_db))
                    (looked-Genuine w k pin named u p c h))))

  handle_discovery_card-Genuine :
      (u : World) (json_of : Card → Text) (p : Pilot) (text : Text) (o : Option Card)
      → SameCheck w u
      → Genuine w k pin p
      → Genuine w k pin (handle_discovery_card u json_of p text o)
  unfolding handle_discovery_card
  handle_discovery_card-Genuine u json_of p text none check h = h
  handle_discovery_card-Genuine u json_of p text (some c) check h =
      if_cases (Genuine w k pin) (not p.has_db || is_empty c.npk) (λ _. h)
        (λ _.
          if_cases (Genuine w k pin) (is_identical json_of text (find c.npk p.discovered)) (λ _. h)
            (λ _. cache_discovered_card-Genuine (later 1 u) p c card_topic (u.clock 0) check h))

  after_caching-Genuine :
      (u : World) (c : Card) (r : Pilot × Bool)
      → Genuine w k pin r.0
      → Genuine w k pin (after_caching u c r).0
  unfolding after_caching
  after_caching-Genuine u c (p, false) h = h
  after_caching-Genuine u c (p, true) h = looked-Genuine w k pin named u p c h

  agent_import_card-Genuine :
      (u v : World) (p : Pilot) (o : Option Card)
      → SameCheck w u
      → Genuine w k pin p
      → Genuine w k pin (agent_import_card u v p o).0
  unfolding agent_import_card
  agent_import_card-Genuine u v p none check h =
      if_cases (λ (q : Pilot × ImportResult). Genuine w k pin q.0) (not p.has_db) (λ _. h) (λ _. h)
  agent_import_card-Genuine u v p (some c) check h =
      if_cases (λ (q : Pilot × ImportResult). Genuine w k pin q.0) (not p.has_db) (λ _. h)
        (λ _.
          if_cases (λ (q : Pilot × ImportResult). Genuine w k pin q.0) (is_empty c.npk) (λ _. h)
            (λ _.
              after_caching-Genuine v c _
                (cache_discovered_card-Genuine (later 1 u) p c card_topic (u.clock 0) check h)))

-- The arrivals are looked at with the signature check of `w`.
abbrev pub AllChecked : World → List CardArrival → Type 0
AllChecked w [] = Unit
AllChecked w (broadcast u json_of text o ∷ as') = SameCheck w u × AllChecked w as'
AllChecked w (file u v o ∷ as') = SameCheck w u × AllChecked w as'

-- Once an identity is pinned and the card on file for it is validly signed with the pinned key, this
-- stays so whatever cards arrive, by the discovery channel or by files, forged ones and cards of other
-- identities among them: what is on file for the identity afterwards is a card of it that is validly
-- signed with the same key. All of them are looked at with one signature check, the identity is not
-- the empty text, and the cards on file are of different identities.
pub arrive_all-Genuine :
    (w : World) (k : Text) (pin : Pin) (as' : List CardArrival) (p : Pilot)
    → is_empty k ≡ false
    → AllChecked w as'
    → Genuine w k pin p
    → Genuine w k pin (arrive_all as' p)
unfolding arrive_all
arrive_all-Genuine w k pin [] p named checks h = h
arrive_all-Genuine w k pin (broadcast u json_of text o ∷ as') p named (check, checks) h =
    arrive_all-Genuine w k pin as' (handle_discovery_card u json_of p text o) named checks
      (handle_discovery_card-Genuine w k pin named u json_of p text o check h)
arrive_all-Genuine w k pin (file u v o ∷ as') p named (check, checks) h =
    arrive_all-Genuine w k pin as' (agent_import_card u v p o).0 named checks
      (agent_import_card-Genuine w k pin named u v p o check h)
