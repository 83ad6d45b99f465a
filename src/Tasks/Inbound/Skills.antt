-- ===== src/Tasks/Inbound/Skills.antt =====
-- The branches of tasks/send by skill (processInboundRequest,
-- pilot-module/src/pilot_a2a_inbox.cpp).
use logos_pilot.Prelude.{
  ℕ, ◌-◌, Bool, true, false, Option, none, some, [], ◌∷◌, ◌++◌, ◌&&◌, not, length, ltb, ◌==◌,
  if◌then◌else◌,
}
use logos_pilot.Text.{Text, codes, is_empty}
use logos_pilot.Text.Flatten.{flatten_for_prompt}
use logos_pilot.Table.{find, set_at}
use logos_pilot.Agent.{Pilot, InboundTask, inbound_keyed}
use logos_pilot.Agent.States.{InboundState, SpendState}
use logos_pilot.Agent.World.{World, later}
use logos_pilot.Owner.Channel.{send_to_owner}
use logos_pilot.Tasks.Linked.{inbound_task_set_state}
use logos_pilot.Tasks.Inbound.Request.{
  Env, Request, RpcReply, RpcCode, rpc_error, rpc_task, result_is_success,
}
use logos_pilot.Tasks.Inbound.Limits.{
  recent_skill_count, service_window_sec, service_max_per_window, max_service_bytes,
}
use logos_pilot.Tasks.Inbound.Prompt.{
  sender_display, wallet_send_approval_message, privileged_message,
}
use logos_pilot.Spending.Ledger.{create_spend_request, set_spend_state}

abbrev pub size_limit_json : Text
size_limit_json = codes "{\"error\":\"request exceeds size limit\"}"

abbrev pub rate_limit_json : Text
rate_limit_json = codes "{\"error\":\"rate limit exceeded; retry later\"}"

abbrev pub missing_recipient_json : Text
missing_recipient_json = codes "{\"error\":\"wallet-send missing recipient\"}"

abbrev pub unsupported_json : Text
unsupported_json = codes "{\"error\":\"unsupported skill\"}"

-- Whether the sender has more than `limit` requests in the window that ends now.
abbrev pub over_limit : World → Pilot → Text → Text → ℕ → Bool
over_limit w p npk skill limit =
    not (is_empty npk)
    && ltb limit (recent_skill_count p npk skill (w.clock 0 - service_window_sec))

abbrev pub fail_task : World → Pilot → Text → Text → Pilot
fail_task w p id result = inbound_task_set_state w p id InboundState.failed result

-- ping and capabilities: working, then completed with a result that needs no skill.
unfoldable pub answer_at_once : World → Pilot → Request → Text → Pilot × RpcReply
answer_at_once w p r result = (
  inbound_task_set_state (later 1 w) (inbound_task_set_state w p r.task_id InboundState.working [])
      r.task_id InboundState.completed result,
  rpc_task r.id r.task_id InboundState.completed result,
)

-- The registry name: dashes become dots.
abbrev pub registry_name : Text → Text
registry_name [] = []
registry_name (c ∷ s) = (if c == b'-' then b'.' else c) ∷ registry_name s

abbrev pub served_state : Bool → InboundState
served_state true = InboundState.completed
served_state false = InboundState.failed

abbrev pub same_state : InboundState → InboundState → Bool
same_state InboundState.completed InboundState.completed = true
same_state InboundState.failed InboundState.failed = true
same_state _ _ = false

-- The reply carries what the row says after the write; the result only if that write won.
unfoldable pub served_reply : Request → InboundState → Text → Option InboundTask → RpcReply
served_reply r state result none = rpc_task r.id r.task_id state []
served_reply r state result (some t) =
    rpc_task r.id r.task_id t.state (if same_state t.state state then result else [])

unfoldable pub run_service : World → Env → Pilot → Request → Pilot × RpcReply
run_service w e p r =
    let p' = e.meanwhile (inbound_task_set_state w p r.task_id InboundState.working []) in
    let result = e.dispatch (registry_name r.skill) r.args_json in
    let state = served_state (result_is_success (e.read_result result)) in
    let q = inbound_task_set_state (later 1 w) p' r.task_id state result in
    (q, served_reply r state result (find r.task_id q.inbound))

unfoldable pub serve : World → Env → Pilot → Text → Request → Pilot × RpcReply
serve w e p npk r =
    if ltb max_service_bytes (length r.args_json)
    then (fail_task w p r.task_id size_limit_json, rpc_error r.id RpcCode.too_large)
    else if over_limit w p npk r.skill service_max_per_window
    then (fail_task (later 1 w) p r.task_id rate_limit_json, rpc_error r.id RpcCode.rate_limited)
    else run_service (later 1 w) e p r

-- `UPDATE inbound_tasks SET state='input-required' WHERE id=?`
abbrev pub park_task : ℕ → Text → Pilot → Pilot
park_task now id p = record p {
  inbound =
      set_at id (λ t. record t { state = InboundState.input_required; updated_at = now }) p.inbound;
}

-- `UPDATE inbound_tasks SET spend_request_id=? WHERE id=?`
abbrev pub link_task : ℕ → Text → Text → Pilot → Pilot
link_task now id sid p = record p {
  inbound = set_at id (λ t. record t { spend_request_id = sid; updated_at = now }) p.inbound;
}

abbrev pub inbound_reason : Request → Text
inbound_reason r =
    codes "A2A wallet-send task "
    ++ (r.task_id ++ (codes " from " ++ flatten_for_prompt r.sender_npk))

-- The transaction of an inbound wallet-send: the request is created, linked and HELD.
abbrev pub hold_inbound : World → Request → Pilot × Text → Pilot × Text
hold_inbound w r (p, sid) = (
  set_spend_state (later 1 w)
      (park_task (w.clock 1) r.task_id (link_task (w.clock 0) r.task_id sid p)) sid SpendState.held,
  sid,
)

abbrev pub ask_owner : World → Text → Bool → Request → Pilot × Text → Pilot × RpcReply
ask_owner w npk first_contact r (p, sid) = (
  (send_to_owner w p (
      wallet_send_approval_message r.skill
        (sender_display (not (is_empty npk)) first_contact r.sender_npk) r.amount r.recipient
        r.reason sid)).0,
  rpc_task r.id r.task_id InboundState.input_required
      (codes "{\"reason\":\"awaiting owner approval\"}"),
)

unfoldable pub inbound_wallet_send : World → Pilot → Text → Bool → Request → Pilot × RpcReply
inbound_wallet_send w p npk first_contact r =
    if is_empty r.recipient
    then (fail_task w p r.task_id missing_recipient_json, rpc_error r.id RpcCode.invalid_params)
    else ask_owner w npk first_contact r (
        hold_inbound (later 1 w) r
          (create_spend_request w p r.recipient r.amount (inbound_reason r)))

unfoldable pub gate_privileged : World → Pilot → Text → Bool → Request → Pilot × RpcReply
gate_privileged w p npk first_contact r = (
  (send_to_owner w (park_task (w.clock 0) r.task_id p) (
      privileged_message r.skill (sender_display (not (is_empty npk)) first_contact r.sender_npk)
        r.task_id)).0,
  rpc_task r.id r.task_id InboundState.input_required
      (codes "{\"reason\":\"requires owner approval (privileged skill)\"}"),
)
