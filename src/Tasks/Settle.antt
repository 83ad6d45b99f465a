-- ===== src/Tasks/Settle.antt =====
-- settleOutboundReply and verifyAndSettleReply (pilot-module/src/pilot_a2a.cpp): payment for a task
-- that this agent submitted.
use logos_pilot.Prelude.{
  ℕ, Bool, true, false, Option, none, some, [], ◌++◌, ◌&&◌, ◌||◌, not, length, if◌then◌else◌,
}
use logos_pilot.Prelude.Int.{ℤ, pos, leb_ℤ}
use logos_pilot.Prelude.Int64.{add_int64}
use logos_pilot.Text.{Text, codes, same, is_empty}
use logos_pilot.Text.Decimal.{decimal_ℤ}
use logos_pilot.Text.Flatten.{flatten_for_prompt}
use logos_pilot.Table.{find, update, any_row, set_at}
use logos_pilot.Agent.{Pilot, OutboundTask, outbound_keyed, Card}
use logos_pilot.Agent.States.{OutboundState, is_submitted, is_undecided, is_awaiting_approval}
use logos_pilot.Agent.World.{World, later}
use logos_pilot.Cards.Match.{matched_card, discovered_payout_for}
use logos_pilot.Spending.Ledger.{create_spend_request, period_spent}
use logos_pilot.Spending.Execute.{execute_spend}
use logos_pilot.Spending.Approve.{reject_spend}
use logos_pilot.Spending.Send.{hold_for_approval}

-- `UPDATE outbound_tasks SET state=? WHERE id=? AND …`
abbrev pub task_write : (OutboundState → Bool) → Text → OutboundState → ℕ → Pilot → Pilot
task_write allowed id state now p = record p {
  outbound =
      update (λ r. same r.id id && allowed r.state)
        (λ r. record r { state = state; updated_at = now }) p.outbound;
}

-- setOutbound: state, payout and link of the row.
abbrev pub set_outbound : ℕ → Text → OutboundState → Text → Text → Pilot → Pilot
set_outbound now id state payout spend_id p = record p {
  outbound =
      set_at id
        (λ r. record r {
          state = state;
          payout = payout;
          spend_request_id = spend_id;
          updated_at = now;
        })
        p.outbound;
}

-- `{failed, canceled, rejected}`, the terminal negatives.
abbrev pub negative_state : Text → Option OutboundState
negative_state state =
    if same state (codes "failed")
    then some OutboundState.failed
    else if same state (codes "canceled")
    then some OutboundState.canceled
    else if same state (codes "rejected")
    then some OutboundState.rejected
    else none

-- The spend that a row in 'awaiting-approval' waits for.
abbrev pub awaited_spend : Option OutboundTask → Text
awaited_spend none = []
awaited_spend (some t) = if is_awaiting_approval t.state then t.spend_request_id else []

unfoldable pub settle_negative : World → Pilot → Text → Option OutboundState → Pilot
settle_negative w p id none = p
settle_negative w p id (some state) =
    let sid = awaited_spend (find id p.outbound) in
    if is_empty sid
    then task_write is_undecided id state (w.clock 0) p
    else (reject_spend w p sid).0

unfoldable pub approval_message : Text → ℤ → Text → Text → Text
approval_message skill price payout spend_id =
    codes "A2A payment needs approval:\nSkill: "
    ++ (skill
        ++ (codes "\nAmount: "
            ++ (decimal_ℤ price
                ++ (codes " LEZ\nTo (payout): "
                    ++ (payout
                        ++ (codes "\nExpires: 60 min\n/approve "
                            ++ (spend_id ++ (codes "\n/reject " ++ spend_id))))))))

unfoldable pub pay_reason : Text → Text → Text
pay_reason skill id =
    codes "A2A pay-on-completion: " ++ (skill ++ (codes " (task " ++ (id ++ codes ")")))

abbrev pub within_limits : World → Pilot → ℤ → Bool
within_limits w p price =
    leb_ℤ price p.spend_limit_per_tx
    && leb_ℤ (add_int64 (period_spent w p) price) p.spend_limit_per_period

abbrev pub paid_or_failed : Bool → OutboundState
paid_or_failed true = OutboundState.paid
paid_or_failed false = OutboundState.pay_failed

-- The gate, after the COMMIT: within both limits the spend is executed, otherwise the owner decides.
unfoldable pub pay_linked : World → Pilot → OutboundTask → Text → Text → Pilot
pay_linked w p t payout sid =
    let (paid, ok) = execute_spend (later 1 w) p sid in
    if within_limits w p t.price
    then set_outbound (w.clock 3) t.id (paid_or_failed ok) payout sid paid
    else set_outbound (w.clock 3) t.id OutboundState.awaiting_approval payout sid
        (hold_for_approval (later 1 w) p sid
          (approval_message (flatten_for_prompt t.skill) t.price (flatten_for_prompt payout) sid)
          (codes "Awaiting owner approval")).0

-- A payout is on file: the request is created and linked before the gate.
unfoldable pub pay_payout : World → OutboundTask → Pilot × Text → Pilot
pay_payout w t (p, payout) =
    if is_empty payout
    then set_outbound (w.clock 0) t.id OutboundState.pay_failed [] [] p
    else let (made, sid) = create_spend_request w p payout t.price (pay_reason t.skill t.id) in
      pay_linked (later 2 w) (set_outbound (w.clock 1) t.id OutboundState.settling payout sid made)
        t payout sid

-- The walk over the cards reads the clock at most once for each of them.
abbrev pub after_match : Pilot → World → World
after_match p w = later (length p.discovered) w

-- The row as the SELECT after the claim reads it.
unfoldable pub settle_claimed : World → Pilot → Option OutboundTask → Pilot
settle_claimed w p none = p
settle_claimed w p (some t) =
    if leb_ℤ t.price (pos 0)
    then set_outbound (w.clock 0) t.id OutboundState.accepted_nopay [] [] p
    else pay_payout (after_match p w) t (discovered_payout_for w p t.agent_address)

abbrev pub submitted_row : Text → OutboundTask → Bool
submitted_row id r = same r.id id && is_submitted r.state

unfoldable pub settle_completed : World → Pilot → Text → Pilot
settle_completed w p id =
    let claimed = task_write is_submitted id OutboundState.settling (w.clock 0) p in
    if any_row (submitted_row id) p.outbound
    then settle_claimed (later 1 w) claimed (find id claimed.outbound)
    else claimed

unfoldable pub settle_outbound_reply : World → Pilot → Text → Text → Pilot
settle_outbound_reply w p id state =
    if not p.has_db || is_empty id || is_empty state
    then p
    else if same state (codes "completed")
    then settle_completed w p id
    else settle_negative w p id (negative_state state)

-- What verifyAndSettleReply reads of a reply that is a JSON object; `canonical` is its compact bytes
-- without the signature.
pub record Reply : Type 0 where
  pub result_state : Text
  pub params_state : Text
  pub result_id : Text
  pub params_id : Text
  pub signature : Text
  pub canonical : Text

abbrev pub or_else : Text → Text → Text
or_else first second = if is_empty first then second else first

abbrev pub signer : Option Card → Text
signer none = []
signer (some c) = c.signing_key

abbrev pub address_of : Option OutboundTask → Text
address_of none = []
address_of (some t) = t.agent_address

unfoldable pub settle_if_signed : World → Text → Reply → Pilot × Option Card → Pilot
settle_if_signed w id r (p, c) =
    if is_empty (signer c) || is_empty r.signature
    then p
    else if w.verify_signature r.canonical r.signature (signer c)
    then settle_outbound_reply w p id (or_else r.result_state r.params_state)
    else p

unfoldable pub verify_and_settle_reply : World → Pilot → Text → Option Reply → Pilot
verify_and_settle_reply w p id none = p
verify_and_settle_reply w p id (some r) =
    if not p.has_db || is_empty id || is_empty (or_else r.result_state r.params_state)
    then p
    else if not (same (or_else r.result_id r.params_id) id)
    then p
    else if is_empty (address_of (find id p.outbound))
    then p
    else settle_if_signed (after_match p w) id r
        (matched_card w p (address_of (find id p.outbound)))
