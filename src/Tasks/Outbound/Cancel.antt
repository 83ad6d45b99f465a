-- ===== src/Tasks/Outbound/Cancel.antt =====
-- agentCancel (pilot-module/src/pilot_a2a.cpp).
use logos_pilot.Prelude.{Bool, true, false, Option, none, some, ◌∷◌, not, if◌then◌else◌}
use logos_pilot.Text.{Text, is_empty}
use logos_pilot.Agent.{Pilot, deliver, unsubscribe}
use logos_pilot.Agent.States.{OutboundState, is_submitted}
use logos_pilot.Agent.World.{World}
use logos_pilot.Cards.Match.{resolve_routing_key}
use logos_pilot.Tasks.Settle.{task_write, after_match}
use logos_pilot.Tasks.Outbound.Submit.{reply_topic_of, inbox_of}

-- `UPDATE outbound_tasks SET state='canceled' … WHERE id=? AND state='submitted'`
unfoldable pub mark_canceled : World → Text → Pilot → Pilot
mark_canceled w id p =
    if p.has_db then task_write is_submitted id OutboundState.canceled (w.clock 0) p else p

unfoldable pub send_cancel : World → Text → Text → Pilot → Option Text → Pilot × Bool
unfolding mark_canceled
send_cancel w id key p none = (p, false)
send_cancel w id key p (some payload) = (
  mark_canceled w id
      (record p { log = unsubscribe (reply_topic_of id) ∷ deliver (inbox_of key) payload ∷ p.log }),
  true,
)

unfoldable pub cancel_routed : World → Text → Text → Pilot × Text → Pilot × Bool
unfolding send_cancel
cancel_routed w id request (p, key) =
    if is_empty key then (p, false) else send_cancel w id key p (w.encrypt key request)

-- `request` is the text of the signed request.
unfoldable pub agent_cancel : World → Pilot → Text → Text → Text → Pilot × Bool
unfolding cancel_routed
agent_cancel w p address id request =
    if not w.context_ready
    then (p, false)
    else cancel_routed (after_match p w) id request (resolve_routing_key w p address)
