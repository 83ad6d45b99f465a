-- ===== src/Tasks/Inbound/Process.antt =====
-- processInboundRequest (pilot-module/src/pilot_a2a_inbox.cpp): tasks/cancel, tasks/sendSubscribe
-- and tasks/send.
use logos_pilot.Prelude.{
  ℕ, Bool, true, false, Option, none, some, [], ◌&&◌, ◌||◌, not, length, ltb, if◌then◌else◌,
}
use logos_pilot.Text.{Text, codes, same, is_empty}
use logos_pilot.Table.{find, upsert}
use logos_pilot.Agent.{Pilot, InboundTask, inbound_keyed}
use logos_pilot.Agent.States.{InboundState, is_terminal}
use logos_pilot.Agent.World.{World, later}
use logos_pilot.Tasks.Linked.{inbound_task_set_state}
use logos_pilot.Spending.Approve.{release_held_spend}
use logos_pilot.Tasks.Inbound.Request.{
  Env, Request, RpcReply, RpcCode, rpc_error, rpc_task, is_serviced, is_owner_gated,
}
use logos_pilot.Tasks.Inbound.Limits.{
  evict_old_inbound_tasks, max_params_bytes, inbound_max_per_window,
}
use logos_pilot.Tasks.Inbound.Skills.{
  answer_at_once, serve, inbound_wallet_send, gate_privileged, over_limit, fail_task,
  rate_limit_json, unsupported_json,
}

-- The ownership binding: an unauthenticated call is not bound.
abbrev pub is_foreign : Text → InboundTask → Bool
is_foreign npk t = not (is_empty npk) && not (same t.sender_npk npk)

unfoldable pub release_linked : World → Text → Pilot → Pilot
release_linked w sid p = if is_empty sid then p else (release_held_spend w p sid).0

unfoldable pub cancel_row : World → Pilot → Text → Request → Option InboundTask → Pilot × RpcReply
unfolding release_linked
cancel_row w p npk r none = (p, rpc_error r.id RpcCode.task_not_found)
cancel_row w p npk r (some t) =
    if is_foreign npk t
    then (p, rpc_error r.id RpcCode.unauthorized)
    else if is_terminal t.state
    then (p, rpc_error r.id RpcCode.not_cancelable)
    else (
      release_linked (later 1 w) t.spend_request_id
          (inbound_task_set_state w p r.task_id InboundState.canceled []),
      rpc_task r.id r.task_id InboundState.canceled [],
    )

unfoldable pub subscribe_row : Env → Text → Request → Option InboundTask → RpcReply
subscribe_row e npk r none = rpc_error r.id RpcCode.task_not_found
subscribe_row e npk r (some t) =
    if is_foreign npk t
    then rpc_error r.id RpcCode.unauthorized
    else rpc_task r.id r.task_id t.state (e.object_of t.result_json)

-- A row in any state but 'accepted', or with a linked spend.
abbrev pub is_handled : InboundTask → Bool
is_handled t =
    not (is_empty t.spend_request_id) || elim t.state [ InboundState.accepted ↦ false | _ ↦ true ]

abbrev pub new_task : ℕ → Request → InboundTask
new_task now r = record {
  id = r.task_id;
  sender_npk = r.sender_npk;
  sender_ecies = r.sender_ecies;
  reply_topic = r.reply_topic;
  skill = r.skill;
  params_json = r.params_json;
  state = InboundState.accepted;
  spend_request_id = [];
  result_json = [];
  created_at = now;
  updated_at = now;
}

unfoldable pub by_skill : World → Env → Pilot → Text → Bool → Request → ℕ → Pilot × RpcReply
by_skill w e p npk first_contact r now =
    if same r.skill (codes "ping")
    then answer_at_once w p r (e.pong now)
    else if same r.skill (codes "capabilities")
    then answer_at_once w p r e.card
    else if is_serviced r.skill
    then serve w e p npk r
    else if same r.skill (codes "wallet-send")
    then inbound_wallet_send w p npk first_contact r
    else if is_owner_gated r.skill
    then gate_privileged w p npk first_contact r
    else (fail_task w p r.task_id unsupported_json, rpc_error r.id RpcCode.unsupported)

abbrev pub accept_row : ℕ → Request → Pilot → Pilot
accept_row now r p = record p { inbound = upsert (new_task now r) p.inbound }

-- From the INSERT OR REPLACE on.
unfoldable pub accept_task : World → Env → Pilot → Text → Bool → Request → Pilot × RpcReply
accept_task w e p npk first_contact r =
    let p' = accept_row (w.clock 0) r p in
    if over_limit (later 1 w) p' npk [] inbound_max_per_window
    then (fail_task (later 2 w) p' r.task_id rate_limit_json, rpc_error r.id RpcCode.rate_limited)
    else by_skill (later 2 w) e (evict_old_inbound_tasks e p' (w.clock 0)) npk first_contact r
        (w.clock 0)

unfoldable pub send_new : World → Env → Pilot → Text → Bool → Request → Pilot × RpcReply
send_new w e p npk first_contact r =
    if ltb max_params_bytes (length r.params_json)
    then (p, rpc_error r.id RpcCode.too_large)
    else accept_task w e p npk first_contact r

unfoldable pub send_row :
    World → Env → Pilot → Text → Bool → Request → Option InboundTask → Pilot × RpcReply
send_row w e p npk first_contact r none = send_new w e p npk first_contact r
send_row w e p npk first_contact r (some t) =
    if is_handled t
    then (p, rpc_task r.id r.task_id t.state (e.object_of t.result_json))
    else send_new w e p npk first_contact r

unfoldable pub send_task : World → Env → Pilot → Text → Bool → Request → Pilot × RpcReply
send_task w e p npk first_contact r =
    if is_empty r.task_id || (is_empty r.skill || is_empty r.sender_npk)
    then (p, rpc_error r.id RpcCode.invalid_params)
    else send_row w e p npk first_contact r (find r.task_id p.inbound)

-- `none` is a text that is no JSON object; `npk` is the authenticated sender, empty if there is none.
unfoldable pub process_inbound_request :
    World → Env → Pilot → Option Request → Text → Bool → Pilot × RpcReply
process_inbound_request w e p none npk first_contact =
    (p, rpc_error [] (if p.has_db then RpcCode.parse else RpcCode.internal))
process_inbound_request w e p (some r) npk first_contact =
    if not p.has_db
    then (p, rpc_error [] RpcCode.internal)
    else if same r.method (codes "tasks/cancel")
    then cancel_row w p npk r (find r.task_id p.inbound)
    else if same r.method (codes "tasks/sendSubscribe")
    then (p, subscribe_row e npk r (find r.task_id p.inbound))
    else if same r.method (codes "tasks/send")
    then send_task w e p npk first_contact r
    else (p, rpc_error r.id RpcCode.method_not_found)
