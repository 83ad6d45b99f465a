-- ===== src/Tasks/Outbound/Submit.antt =====
-- agentTask and agentSubscribe (pilot-module/src/pilot_a2a.cpp). The rows that agentTask writes to
-- delivery_events as progress markers are not part of the state.
use logos_pilot.Prelude.{ℕ, Option, none, some, [], ◌∷◌, ◌++◌, not, if◌then◌else◌}
use logos_pilot.Prelude.Int.{ℤ}
use logos_pilot.Text.{Text, codes, is_empty}
use logos_pilot.Table.{insert}
use logos_pilot.Agent.{Pilot, OutboundTask, outbound_keyed, deliver, subscribe}
use logos_pilot.Agent.States.{OutboundState}
use logos_pilot.Agent.World.{World, later}
use logos_pilot.Cards.Match.{discovered_price_for, resolve_routing_key}
use logos_pilot.Tasks.Settle.{after_match}

-- The topic of the replies to a task.
abbrev pub reply_topic_of : Text → Text
reply_topic_of id = codes "/pilot/1/reply-" ++ (id ++ codes "/proto")

abbrev pub inbox_of : Text → Text
inbox_of key = codes "/pilot/1/inbox-" ++ (key ++ codes "/proto")

-- The `error` of an answer; the id and the price of a task; or the id that is subscribed to.
pub data TaskResult : Type 0 where
  not_initialized unroutable encryption_failed : TaskResult
  submitted : Text → ℤ → TaskResult
  subscribed : Text → TaskResult

abbrev pub submitted_task : Text → Text → Text → ℤ → ℕ → OutboundTask
submitted_task id address skill price now = record {
  id = id;
  agent_address = address;
  skill = skill;
  price = price;
  reply_topic = reply_topic_of id;
  state = OutboundState.submitted;
  payout = [];
  spend_request_id = [];
  created_at = now;
  updated_at = now;
}

-- ON CONFLICT(id) DO NOTHING
unfoldable pub insert_task : OutboundTask → Pilot → Pilot
insert_task t p = if p.has_db then record p { outbound = insert t p.outbound } else p

unfoldable pub send_request : TaskResult → Text → Pilot → Option Text → Pilot × TaskResult
send_request done key p none = (p, encryption_failed)
send_request done key p (some payload) =
    (record p { log = deliver (inbox_of key) payload ∷ p.log }, done)

unfoldable pub send_routed : World → TaskResult → Text → Pilot × Text → Pilot × TaskResult
unfolding send_request
send_routed w done request (p, key) =
    if is_empty key then (p, unroutable) else send_request done key p (w.encrypt key request)

unfoldable pub submit_priced : World → Text → Text → Text → Pilot × ℤ → Pilot × TaskResult
unfolding insert_task send_routed
submit_priced w address skill request (p, price) =
    let id = w.generated_id in
    let recorded = insert_task (submitted_task id address skill price (w.clock 0)) p in
    send_routed w (submitted id price) request (resolve_routing_key (later 1 w) recorded address)

-- The agent that has subscribed to the replies of the task it is about to submit.
abbrev pub armed_for : World → Pilot → Pilot
armed_for w p = record p { log = subscribe (reply_topic_of w.generated_id) ∷ p.log }

-- `request` is the text of the signed request.
unfoldable pub agent_task : World → Pilot → Text → Text → Text → Pilot × TaskResult
unfolding submit_priced
agent_task w p address skill request =
    if not w.context_ready
    then (p, not_initialized)
    else submit_priced (after_match p w) address skill request
        (discovered_price_for w (armed_for w p) address skill)

unfoldable pub agent_subscribe : World → Pilot → Text → Text → Text → Pilot × TaskResult
unfolding send_routed
agent_subscribe w p address id request =
    if not w.context_ready
    then (p, not_initialized)
    else send_routed w (subscribed id) request
        (resolve_routing_key w (record p { log = subscribe (reply_topic_of id) ∷ p.log }) address)
