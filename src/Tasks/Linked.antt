-- ===== src/Tasks/Linked.antt =====
-- The task rows that a spend request is linked to: inboundTaskSetState, resumeInboundTask and
-- replyToPeer (pilot-module/src/pilot_a2a_inbox.cpp), and advanceLinkedOutboundTask
-- (pilot-module/src/pilot_spending.cpp).
use logos_pilot.Prelude.{
  ℕ, zero, suc, ◌+◌, Bool, true, false, Option, none, some, List, [], ◌∷◌, ◌++◌, ◌&&◌, ◌||◌, not,
  if◌then◌else◌,
}
use logos_pilot.Text.{Text, codes, same, is_empty}
use logos_pilot.Table.{update, rows_where}
use logos_pilot.Agent.{Pilot, InboundTask, Effect, deliver}
use logos_pilot.Agent.States.{
  InboundState, OutboundState, is_terminal, is_input_required, awaits_spend,
}
use logos_pilot.Agent.World.{World, later}

-- A terminal row is left as it is.
unfoldable pub inbound_task_set_state : World → Pilot → Text → InboundState → Text → Pilot
inbound_task_set_state w p task_id state result =
    if p.has_db
    then record p {
      inbound =
          update (λ r. same r.id task_id && not (is_terminal r.state))
            (λ r. record r { state = state; result_json = result; updated_at = w.clock 0 })
            p.inbound;
    }
    else p

-- The three attempts of the send: an accepted one ends the loop.
abbrev pub send_attempts : ℕ → ℕ → World → Text → Text → List Effect → List Effect × Bool
send_attempts zero i w topic payload log = (log, false)
send_attempts (suc n) i w topic payload log = elim (w.send_accepted i) [
  | true ↦ (deliver topic payload ∷ log, true)
  | false ↦ send_attempts n (i + 1) w topic payload (deliver topic payload ∷ log)
]

unfoldable pub send_sealed : World → Pilot → Text → Option Text → Pilot × Bool
send_sealed w p topic none = (p, false)
send_sealed w p topic (some payload) =
    let (log', ok) = send_attempts 3 0 w topic payload p.log in (record p { log = log' }, ok)

unfoldable pub reply_to_peer : World → Pilot → Text → Text → Text → Pilot × Bool
unfolding send_sealed
reply_to_peer w p topic recipient_key json =
    if not w.context_ready || is_empty topic
    then (p, false)
    else send_sealed w p topic (w.encrypt recipient_key (w.sign_reply json))

-- The first row that waits for the owner's decision on this spend request.
abbrev pub first_waiting : Text → List InboundTask → List InboundTask
first_waiting sid = rows_where (λ r. same r.spend_request_id sid && is_input_required r.state)

abbrev pub resumed_state : Bool → InboundState
resumed_state true = InboundState.completed
resumed_state false = InboundState.failed

abbrev pub state_text : Bool → Text
state_text true = codes "completed"
state_text false = codes "failed"

abbrev pub detail_json : Text → Text
detail_json detail = codes "{\"detail\":\"" ++ (detail ++ codes "\"}")

unfoldable pub resume_rows : World → Pilot → Bool → Text → List InboundTask → Pilot
resume_rows w p approved detail [] = p
resume_rows w p approved detail (t ∷ rest) =
    let p' = inbound_task_set_state w p t.id (resumed_state approved) (detail_json detail) in
    (reply_to_peer (later 1 w) p' t.reply_topic t.sender_ecies
      (w.status_note t.id (state_text approved) detail)).0

-- The owner's decision on a spend request, or its expiry, ends the peer task that waits for it.
unfoldable pub resume_inbound_task : World → Pilot → Text → Bool → Text → Pilot
unfolding resume_rows
resume_inbound_task w p sid approved detail =
    if not p.has_db || is_empty sid
    then p
    else resume_rows w p approved detail (first_waiting sid p.inbound)

-- Only a row that waits for this spend is moved.
unfoldable pub advance_linked_outbound_task : World → Pilot → Text → OutboundState → Pilot
advance_linked_outbound_task w p sid state = if not p.has_db || is_empty sid then p else record p {
  outbound =
      update (λ r. same r.spend_request_id sid && awaits_spend r.state)
        (λ r. record r { state = state; updated_at = w.clock 0 }) p.outbound;
}
