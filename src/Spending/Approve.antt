-- ===== src/Spending/Approve.antt =====
-- approveSpend, rejectSpend and releaseHeldSpend (pilot-module/src/pilot_spending.cpp).
use logos_pilot.Prelude.{Bool, true, false, Option, none, some, ◌++◌, ◌&&◌, not, ltb, if◌then◌else◌}
use logos_pilot.Text.{Text, codes, same}
use logos_pilot.Text.Decimal.{decimal_ℤ}
use logos_pilot.Table.{find, update, any_row}
use logos_pilot.Agent.{spend_keyed, Pilot, Spend}
use logos_pilot.Agent.States.{SpendState, OutboundState, is_held}
use logos_pilot.Agent.World.{World, later}
use logos_pilot.Owner.Channel.{send_to_owner}
use logos_pilot.Tasks.Linked.{resume_inbound_task, advance_linked_outbound_task}
use logos_pilot.Spending.Ledger.{set_spend_state, with_state}
use logos_pilot.Spending.Execute.{execute_spend}

unfoldable pub completed_message : Spend → Text
completed_message r =
    codes "Transaction "
    ++ (r.id
        ++ (codes " completed: " ++ (decimal_ℤ r.amount ++ (codes " LEZ sent to " ++ r.recipient))))

unfoldable pub failed_message : Text → Text
failed_message id = codes "Transaction " ++ (id ++ codes " FAILED")

unfoldable pub expired_message : Text → Text
expired_message id = codes "Spend request " ++ (id ++ codes " has expired.")

unfoldable pub rejected_message : Text → Text
rejected_message id = codes "Transaction " ++ (id ++ codes " rejected.")

-- What approveSpend does with the outcome of the executor.
unfoldable pub after_execution : World → Spend → Pilot × Bool → Pilot × Bool
after_execution w r (p, ok) =
    let told = (send_to_owner w p (if ok then completed_message r else failed_message r.id)).0 in
    let resumed =
      resume_inbound_task w told r.id ok
        (codes (if ok then "owner approved; executed" else "owner approved; execution failed")) in
    (
      advance_linked_outbound_task (later 1 w) resumed r.id
          (if ok then OutboundState.paid else OutboundState.pay_failed),
      ok,
    )

unfoldable pub expire_on_approval : World → Pilot → Spend → Pilot × Bool
expire_on_approval w p r = (
  (send_to_owner w (set_spend_state w p r.id SpendState.expired) (expired_message r.id)).0,
  false,
)

-- `clock 0` decides the expiry, `clock 1` stamps the approval.
unfoldable pub approve_row : World → Pilot → Option Spend → Pilot × Bool
unfolding expire_on_approval after_execution
approve_row w p none = (p, false)
approve_row w p (some r) =
    if not (is_held r.state)
    then (p, false)
    else if ltb r.expires_at (w.clock 0)
    then expire_on_approval w p r
    else after_execution (later 4 w) r
        (execute_spend (later 2 w) (set_spend_state (later 1 w) p r.id SpendState.approved) r.id)

unfoldable pub approve_spend : World → Pilot → Text → Pilot × Bool
unfolding approve_row
approve_spend w p id = if p.has_db then approve_row w p (find id p.spends) else (p, false)

-- `UPDATE … SET state = 'REJECTED' WHERE id = ? AND state IN ('HELD', 'NOTIFIED')`
abbrev pub held_row : Text → Spend → Bool
held_row id r = same r.id id && is_held r.state

abbrev pub reject_held : World → Pilot → Text → Pilot
reject_held w p id = record p {
  spends = update (held_row id) (with_state SpendState.rejected (w.clock 0)) p.spends;
}

unfoldable pub after_rejection : World → Text → Pilot → Pilot
after_rejection w id p =
    let told = (send_to_owner w p (rejected_message id)).0 in
    let resumed = resume_inbound_task w told id false (codes "owner rejected") in
    advance_linked_outbound_task (later 1 w) resumed id OutboundState.pay_failed

unfoldable pub reject_spend : World → Pilot → Text → Pilot × Bool
unfolding after_rejection
reject_spend w p id =
    if not p.has_db
    then (p, false)
    else if any_row (held_row id) p.spends
    then (after_rejection (later 1 w) id (reject_held w p id), true)
    else (reject_held w p id, false)

unfoldable pub release_held_spend : World → Pilot → Text → Pilot × Bool
release_held_spend w p id =
    if p.has_db then (reject_held w p id, any_row (held_row id) p.spends) else (p, false)
