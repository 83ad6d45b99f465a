-- ===== src/Cards/Cache.antt =====
-- a2aCacheDiscoveredCard (pilot-module/src/pilot_a2a.cpp).
use logos_pilot.Prelude.{ℕ, Bool, true, false, Option, none, some, if◌then◌else◌, not}
use logos_pilot.Text.{Text, is_empty}
use logos_pilot.Table.{find, upsert}
use logos_pilot.Agent.{Pilot, Card, Discovered, discovered_keyed}
use logos_pilot.Agent.World.{World, later}
use logos_pilot.Cards.Verify.{CardStatus, verify_card_status, is_valid}

abbrev pub store_card : Card → Text → ℕ → Pilot → Pilot
store_card c topic last_seen p = record p {
  discovered =
      upsert (record { npk = c.npk; card = c; topic = topic; last_seen = last_seen }) p.discovered;
}

-- The row on file still verifies, so the card that does not is turned away.
abbrev pub keep_or_store : Card → Text → ℕ → Pilot × CardStatus → Pilot × Bool
keep_or_store c topic last_seen (p, status) =
    if is_valid status then (p, false) else (store_card c topic last_seen p, true)

unfoldable pub cache_unverified : World → Card → Text → ℕ → Pilot → Option Discovered → Pilot × Bool
cache_unverified w c topic last_seen p none = (store_card c topic last_seen p, true)
cache_unverified w c topic last_seen p (some row) =
    keep_or_store c topic last_seen (verify_card_status w p row.card)

unfoldable pub cache_checked : World → Card → Text → ℕ → Pilot × CardStatus → Pilot × Bool
cache_checked w c topic last_seen (p, status) =
    if is_valid status
    then (store_card c topic last_seen p, true)
    else cache_unverified (later 1 w) c topic last_seen p (find c.npk p.discovered)

unfoldable pub cache_discovered_card : World → Pilot → Card → Text → ℕ → Pilot × Bool
unfolding cache_checked
cache_discovered_card w p c topic last_seen =
    if not p.has_db
    then (p, false)
    else if is_empty c.npk
    then (p, false)
    else cache_checked w c topic last_seen (verify_card_status w p c)
