-- ===== src/Money/Idle.antt =====
-- Arrivals and restarts that leave the money alone: cards, requests to authenticate, and the recovery
-- of inbound tasks.
use logos_pilot.Prelude.{List, ℕ, Bool, Option, none, some, not, if_cases, arith}
use logos_pilot.Text.{Text, is_empty}
use logos_pilot.Agent.{Pilot, Card, Discovered, spend_keyed, discovered_keyed}
use logos_pilot.Agent.World.{World, later}
use logos_pilot.Cards.Verify.{verify_card_status, is_valid}
use logos_pilot.Cards.Cache.{cache_discovered_card, cache_checked, cache_unverified}
use logos_pilot.Tasks.Inbound.Request.{Env}
use logos_pilot.Money.Frame.{KeepsMoney, KeepsMoney-refl, KeepsMoney-trans}
use logos_pilot.Money.Cards.{verify_card_status-KeepsMoney}
use logos_pilot.Tasks.Recover.{inbound_tasks_recover, evict_discovery_cache}
use logos_pilot.Tasks.Inbound.Limits.{evict_old_inbound_tasks}
use logos_pilot.Tasks.Inbound.Authenticate.{Envelope, verify_inbound_request}

unverified-KeepsMoney :
    (w : World) (p : Pilot) (c : Card) (topic : Text) (last_seen : ℕ) (o : Option Discovered)
    → KeepsMoney p (cache_unverified w c topic last_seen p o).0
unfolding cache_unverified
unverified-KeepsMoney w p c topic last_seen none = ground arith
unverified-KeepsMoney w p c topic last_seen (some row) =
    KeepsMoney-trans (verify_card_status-KeepsMoney w p row.card) (
      if_cases (λ (q : Pilot × Bool). KeepsMoney (verify_card_status w p row.card).0 q.0)
        (is_valid (verify_card_status w p row.card).1) (λ _. KeepsMoney-refl _) (λ _. ground arith))

pub discover-KeepsMoney :
    (w : World) (p : Pilot) (c : Card) (topic : Text) (last_seen : ℕ)
    → KeepsMoney p (cache_discovered_card w p c topic last_seen).0
unfolding cache_discovered_card cache_checked
discover-KeepsMoney w p c topic last_seen =
    if_cases (λ (q : Pilot × Bool). KeepsMoney p q.0) (not p.has_db) (λ _. KeepsMoney-refl p)
      (λ _.
        if_cases (λ (q : Pilot × Bool). KeepsMoney p q.0) (is_empty c.npk) (λ _. KeepsMoney-refl p)
          (λ _. KeepsMoney-trans seen (
            if_cases (λ (q : Pilot × Bool). KeepsMoney (verify_card_status w p c).0 q.0)
              (is_valid (verify_card_status w p c).1) (λ _. ground arith)
              (λ _. unverified-KeepsMoney (later 1 w) _ c topic last_seen _))))
  where
    seen : KeepsMoney p (verify_card_status w p c).0
    seen = verify_card_status-KeepsMoney w p c

pub restart_inbound-KeepsMoney :
    (w : World) (e : Env) (newest_first : List Discovered → List Discovered) (p : Pilot)
    → KeepsMoney p (inbound_tasks_recover w e newest_first p)
unfolding inbound_tasks_recover evict_discovery_cache evict_old_inbound_tasks
restart_inbound-KeepsMoney w e newest_first p = ground arith

pub authenticate-KeepsMoney :
    (w : World) (p : Pilot) (r : Envelope) → KeepsMoney p (verify_inbound_request w p r).0
unfolding verify_inbound_request
authenticate-KeepsMoney w p r = ground arith
