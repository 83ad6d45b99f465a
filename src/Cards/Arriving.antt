-- ===== src/Cards/Arriving.antt =====
-- handleDiscoveryCard and agentImportCard (pilot-module/src/pilot_a2a.cpp): a card from the discovery
-- channel or from a file.
use logos_pilot.Prelude.{
  ℕ, ◌≡◌, Bool, true, false, Option, none, some, List, [], ◌∷◌, arith, if_cases, not, ◌||◌,
  if◌then◌else◌,
}
use logos_pilot.Text.{Text, codes, same, is_empty}
use logos_pilot.Table.{find}
use logos_pilot.Table.Laws
use logos_pilot.Agent.{Pilot, Card, Pin, Discovered, pin_keyed, discovered_keyed}
use logos_pilot.Agent.World.{World, later}
use logos_pilot.Cards.Verify.{
  CardStatus, is_valid, new_pin, pin_card, verify_card_status, card_status,
}
use logos_pilot.Cards.Cache.{keep_or_store, cache_unverified, cache_checked, cache_discovered_card}

-- The topic that every card is cached under.
abbrev pub card_topic : Text
card_topic = codes "/pilot/1/discovery/proto"

-- `json_of` is the compact text of a card, as it is on file.
abbrev pub is_identical : (Card → Text) → Text → Option Discovered → Bool
is_identical json_of text none = false
is_identical json_of text (some row) = same text (json_of row.card)

-- `o` is the card that the text parses to.
unfoldable pub handle_discovery_card : World → (Card → Text) → Pilot → Text → Option Card → Pilot
handle_discovery_card w json_of p text none = p
handle_discovery_card w json_of p text (some c) =
    if not p.has_db || is_empty c.npk
    then p
    else if is_identical json_of text (find c.npk p.discovered)
    then p
    else (cache_discovered_card (later 1 w) p c card_topic (w.clock 0)).0

-- The `error` of an answer, or the npk with the status of the signature.
pub data ImportResult : Type 0 where
  not_initialized no_object no_npk refused : ImportResult
  imported : Text → CardStatus → ImportResult

unfoldable pub after_caching : World → Card → Pilot × Bool → Pilot × ImportResult
after_caching w c (p, false) = (p, refused)
after_caching w c (p, true) =
    let (p', status) = verify_card_status w p c in (p', imported c.npk status)

unfoldable pub agent_import_card : World → World → Pilot → Option Card → Pilot × ImportResult
unfolding after_caching
agent_import_card w u p o = if not p.has_db then (p, not_initialized) else elim o [
  | none ↦ (p, no_object)
  | some c ↦
      if is_empty c.npk
      then (p, no_npk)
      else after_caching u c (cache_discovered_card (later 1 w) p c card_topic (w.clock 0))
]

-- Every pin of a card's identity stays as it was.
abbrev pub KeepsPin : Text → Pin → Pilot → Type 0
KeepsPin k pin p = find k p.card_pins ≡ some pin

module _ (k : Text) (pin : Pin) where
  KeepsPin-if :
      {A : Type 0} (b : Bool) (x y : Pilot × A)
      → KeepsPin k pin x.0
      → KeepsPin k pin y.0
      → KeepsPin k pin (if b then x else y).0
  KeepsPin-if true x y h g = h
  KeepsPin-if false x y h g = g

  pin_card-KeepsPin :
      (w : World) (c : Card) (p : Pilot) → KeepsPin k pin p → KeepsPin k pin (pin_card w c p)
  pin_card-KeepsPin w c p h =
      ground (arith, h, Laws.find-insert k (new_pin w c.npk c.signing_key) p.card_pins)

  pub verify_card_status-KeepsPin :
      (w : World) (p : Pilot) (c : Card)
      → KeepsPin k pin p
      → KeepsPin k pin (verify_card_status w p c).0
  unfolding verify_card_status
  verify_card_status-KeepsPin w p c h =
      KeepsPin-if (not p.has_db || not (is_valid (card_status w c))) _ _ h
        (KeepsPin-if (is_empty c.npk || is_empty c.signing_key) _ _ h (pin_card-KeepsPin w c p h))

  kept_or_stored-KeepsPin :
      (c : Card) (topic : Text) (last_seen : ℕ) (r : Pilot × CardStatus)
      → KeepsPin k pin r.0
      → KeepsPin k pin (keep_or_store c topic last_seen r).0
  kept_or_stored-KeepsPin c topic last_seen (p, status) h = KeepsPin-if (is_valid status) _ _ h h

  unverified-KeepsPin :
      (w : World) (c : Card) (topic : Text) (last_seen : ℕ) (p : Pilot) (o : Option Discovered)
      → KeepsPin k pin p
      → KeepsPin k pin (cache_unverified w c topic last_seen p o).0
  unfolding cache_unverified
  unverified-KeepsPin w c topic last_seen p none h = h
  unverified-KeepsPin w c topic last_seen p (some row) h =
      kept_or_stored-KeepsPin c topic last_seen (verify_card_status w p row.card)
        (verify_card_status-KeepsPin w p row.card h)

  checked-KeepsPin :
      (w : World) (c : Card) (topic : Text) (last_seen : ℕ) (r : Pilot × CardStatus)
      → KeepsPin k pin r.0
      → KeepsPin k pin (cache_checked w c topic last_seen r).0
  unfolding cache_checked
  checked-KeepsPin w c topic last_seen (p, status) h =
      KeepsPin-if (is_valid status) _ _ h
        (unverified-KeepsPin (later 1 w) c topic last_seen p (find c.npk p.discovered) h)

  cache_discovered_card-KeepsPin :
      (w : World) (p : Pilot) (c : Card) (topic : Text) (last_seen : ℕ)
      → KeepsPin k pin p
      → KeepsPin k pin (cache_discovered_card w p c topic last_seen).0
  unfolding cache_discovered_card
  cache_discovered_card-KeepsPin w p c topic last_seen h = KeepsPin-if (not p.has_db) _ _ h (
      KeepsPin-if (is_empty c.npk) _ _ h (
        checked-KeepsPin w c topic last_seen (verify_card_status w p c)
          (verify_card_status-KeepsPin w p c h)))

  handle_discovery_card-KeepsPin :
      (w : World) (json_of : Card → Text) (p : Pilot) (text : Text) (o : Option Card)
      → KeepsPin k pin p
      → KeepsPin k pin (handle_discovery_card w json_of p text o)
  unfolding handle_discovery_card
  handle_discovery_card-KeepsPin w json_of p text none h = h
  handle_discovery_card-KeepsPin w json_of p text (some c) h =
      if_cases (KeepsPin k pin) (not p.has_db || is_empty c.npk) (λ _. h)
        (λ _.
          if_cases (KeepsPin k pin) (is_identical json_of text (find c.npk p.discovered)) (λ _. h)
            (λ _. cache_discovered_card-KeepsPin (later 1 w) p c card_topic (w.clock 0) h))

  after_caching-KeepsPin :
      (w : World) (c : Card) (r : Pilot × Bool)
      → KeepsPin k pin r.0
      → KeepsPin k pin (after_caching w c r).0
  unfolding after_caching
  after_caching-KeepsPin w c (p, false) h = h
  after_caching-KeepsPin w c (p, true) h = verify_card_status-KeepsPin w p c h

  agent_import_card-KeepsPin :
      (w u : World) (p : Pilot) (o : Option Card)
      → KeepsPin k pin p
      → KeepsPin k pin (agent_import_card w u p o).0
  unfolding agent_import_card
  agent_import_card-KeepsPin w u p none h = KeepsPin-if (not p.has_db) _ _ h h
  agent_import_card-KeepsPin w u p (some c) h = KeepsPin-if (not p.has_db) _ _ h (
      KeepsPin-if (is_empty c.npk) _ _ h (
        after_caching-KeepsPin u c _
          (cache_discovered_card-KeepsPin (later 1 w) p c card_topic (w.clock 0) h)))

-- A card that arrives by the channel, with its text, or by a file.
pub data CardArrival : Type 0 where
  broadcast : World → (Card → Text) → Text → Option Card → CardArrival
  file : World → World → Option Card → CardArrival

unfoldable pub arrive_all : List CardArrival → Pilot → Pilot
arrive_all [] p = p
arrive_all (broadcast w json_of text o ∷ as') p =
    arrive_all as' (handle_discovery_card w json_of p text o)
arrive_all (file w u o ∷ as') p = arrive_all as' (agent_import_card w u p o).0

-- Whatever cards arrive, by the discovery channel or by files and in any order, the signing key that
-- was pinned for an identity stays pinned.
pub arrive_all-KeepsPin :
    (k : Text) (pin : Pin) (as' : List CardArrival) (p : Pilot)
    → find k p.card_pins ≡ some pin
    → find k (arrive_all as' p).card_pins ≡ some pin
unfolding arrive_all
arrive_all-KeepsPin k pin [] p h = h
arrive_all-KeepsPin k pin (broadcast w json_of text o ∷ as') p h =
    arrive_all-KeepsPin k pin as' (handle_discovery_card w json_of p text o)
      (handle_discovery_card-KeepsPin k pin w json_of p text o h)
arrive_all-KeepsPin k pin (file w u o ∷ as') p h =
    arrive_all-KeepsPin k pin as' (agent_import_card w u p o).0
      (agent_import_card-KeepsPin k pin w u p o h)
