-- ===== src/Money/Prices.antt =====
-- The price of a task against the limits (settleOutboundReply).
use mathlib.Core.Path.{subst}
use logos_pilot.Prelude.{
  ℕ, ◌≡◌, refl, sym, ◌∙◌, Bool, true, false, Option, none, some, arith, if_cases, not, ◌&&◌, ◌||◌,
}
use logos_pilot.Prelude.Int.{ℤ, pos, leb_ℤ, ltb_ℤ}
use logos_pilot.Text.{Text, codes, same, is_empty}
use logos_pilot.Table.{find, any_row}
use logos_pilot.Table.Laws.{find-update}
use logos_pilot.Agent.{Pilot, OutboundTask, outbound_keyed}
use logos_pilot.Agent.States.{SpendState, OutboundState, is_submitted}
use logos_pilot.Agent.World.{World, later}
use logos_pilot.Owner.Channel.{send_to_owner}
use logos_pilot.Cards.Match.{discovered_payout_for}
use logos_pilot.Spending.Ledger.{create_spend_request, set_spend_state}
use logos_pilot.Spending.Approve.{reject_spend, after_rejection, reject_held, held_row}
use logos_pilot.Spending.Send.{hold_for_approval}
use logos_pilot.Tasks.Settle.{
  task_write, set_outbound, pay_linked, pay_payout, within_limits, settle_claimed, settle_completed,
  settle_negative, negative_state, awaited_spend, submitted_row, settle_outbound_reply, after_match,
  pay_reason,
}
use logos_pilot.Money.Frame.{transfers, send_to_owner-KeepsMoney}
use logos_pilot.Money.Operations.{tell-KeepsMoney}
use logos_pilot.Money.Quiet.{set_spend_state-log, create-log}
use logos_pilot.Money.Cards.{discovered_payout_for-KeepsMoney}

-- Nothing is handed to the wallet.
abbrev pub PaysNothing : Pilot → Pilot → Type 0
PaysNothing p q = transfers q.log ≡ transfers p.log

reject-PaysNothing : (w : World) (p : Pilot) (id : Text) → PaysNothing p (reject_spend w p id).0
unfolding reject_spend after_rejection
reject-PaysNothing w p id =
    if_cases (λ (q : Pilot × Bool). PaysNothing p q.0) (not p.has_db) (λ _. refl)
      (λ _.
        if_cases (λ (q : Pilot × Bool). PaysNothing p q.0) (any_row (held_row id) p.spends)
          (λ _.
            (tell-KeepsMoney (later 1 w) (later 1 w) (later 1 (later 1 w)) (reject_held w p id) _ id
              false _ _).transfers)
          (λ _. refl))

negative-PaysNothing :
    (w : World) (p : Pilot) (id : Text) (s : Option OutboundState)
    → PaysNothing p (settle_negative w p id s)
unfolding settle_negative
negative-PaysNothing w p id none = refl
negative-PaysNothing w p id (some s) =
    if_cases (PaysNothing p) (is_empty (awaited_spend (find id p.outbound))) (λ _. refl)
      (λ _. reject-PaysNothing w p (awaited_spend (find id p.outbound)))

hold-PaysNothing :
    (w : World) (p : Pilot) (id owner_message held_message : Text)
    → PaysNothing p (hold_for_approval w p id owner_message held_message).0
unfolding hold_for_approval
hold-PaysNothing w p id owner_message held_message =
    let held = set_spend_state w p id SpendState.held in
    let told = (send_to_owner-KeepsMoney w held owner_message).transfers in
    if_cases (PaysNothing p) (send_to_owner w held owner_message).1
      (λ _. ground (
        arith,
        told,
        set_spend_state-log w p id SpendState.held,
        set_spend_state-log (later 1 w) (send_to_owner w held owner_message).0 id
            SpendState.notified,
      ))
      (λ _. ground (arith, told, set_spend_state-log w p id SpendState.held))

create-limit :
    (w : World) (p : Pilot) (recipient : Text) (amount : ℤ) (reason : Text)
    → (create_spend_request w p recipient amount reason).0.spend_limit_per_tx ≡ p.spend_limit_per_tx
unfolding create_spend_request
create-limit w p recipient amount reason = ground arith

linked-PaysNothing :
    (w : World) (p : Pilot) (t : OutboundTask) (payout sid : Text)
    → ltb_ℤ p.spend_limit_per_tx t.price ≡ true
    → PaysNothing p (pay_linked w p t payout sid)
unfolding pay_linked
linked-PaysNothing w p t payout sid over =
    if_cases (PaysNothing p) (within_limits w p t.price) (λ h. ground (arith, h, over))
      (λ _. hold-PaysNothing (later 1 w) p sid _ _)

payout-PaysNothing :
    (w : World) (t : OutboundTask) (p : Pilot) (payout : Text)
    → ltb_ℤ p.spend_limit_per_tx t.price ≡ true
    → PaysNothing p (pay_payout w t (p, payout))
unfolding pay_payout
payout-PaysNothing w t p payout over =
    if_cases (PaysNothing p) (is_empty payout) (λ _. refl)
      (λ _.
        let made = create_spend_request w p payout t.price (pay_reason t.skill t.id) in
        linked-PaysNothing (later 2 w)
          (set_outbound (w.clock 1) t.id OutboundState.settling payout made.1 made.0) t payout
          made.1
          (subst (λ l. ltb_ℤ l t.price ≡ true)
            (sym (create-limit w p payout t.price (pay_reason t.skill t.id))) over)
        ∙ ground (arith, create-log w p payout t.price (pay_reason t.skill t.id)))

claimed-PaysNothing :
    (w : World) (p : Pilot) (t : OutboundTask)
    → ltb_ℤ p.spend_limit_per_tx t.price ≡ true
    → PaysNothing p (settle_claimed w p (some t))
unfolding settle_claimed
claimed-PaysNothing w p t over =
    let looked = discovered_payout_for-KeepsMoney w p t.agent_address in
    if_cases (PaysNothing p) (leb_ℤ t.price (pos 0)) (λ _. refl)
      (λ _.
        payout-PaysNothing (after_match p w) t (discovered_payout_for w p t.agent_address).0 _
          (subst (λ l. ltb_ℤ l t.price ≡ true) (sym looked.per_tx) over)
        ∙ looked.transfers)

claimed_none : (w : World) (p : Pilot) → PaysNothing p (settle_claimed w p none)
unfolding settle_claimed
claimed_none w p = refl

claimed_price :
    (now : ℕ) (p : Pilot) (id : Text) (t t' : OutboundTask)
    → find id p.outbound ≡ some t
    → find id (task_write is_submitted id OutboundState.settling now p).outbound ≡ some t'
    → t'.price ≡ t.price
claimed_price now p id t t' found e = ground (
  arith,
  found,
  e,
  find-update id (λ r. same r.id id && is_submitted r.state)
      (λ r. record r { state = OutboundState.settling; updated_at = now }) p.outbound (λ _. refl),
)

completed-PaysNothing :
    (w : World) (p : Pilot) (id : Text) (t : OutboundTask)
    → find id p.outbound ≡ some t
    → ltb_ℤ p.spend_limit_per_tx t.price ≡ true
    → PaysNothing p (settle_completed w p id)
unfolding settle_completed
completed-PaysNothing w p id t found over =
    if_cases (PaysNothing p) (any_row (submitted_row id) p.outbound)
      (λ _. row (find id claimed.outbound) refl) (λ _. refl)
  where
    claimed : Pilot
    claimed = task_write is_submitted id OutboundState.settling (w.clock 0) p

    row :
        (o : Option OutboundTask)
        → find id claimed.outbound ≡ o
        → PaysNothing p (settle_claimed (later 1 w) claimed o)
    row none e = claimed_none (later 1 w) claimed
    row (some t') e = claimed-PaysNothing (later 1 w) claimed t' (
        subst (λ x. ltb_ℤ p.spend_limit_per_tx x ≡ true)
          (sym (claimed_price (w.clock 0) p id t t' found e)) over)

-- Where a task's price is above the limit for one payment, no reply to it, with whatever state, hands
-- anything to the wallet.
pub settle_outbound_reply-over_limit :
    (w : World) (p : Pilot) (id state : Text) (t : OutboundTask)
    → find id p.outbound ≡ some t
    → ltb_ℤ p.spend_limit_per_tx t.price ≡ true
    → PaysNothing p (settle_outbound_reply w p id state)
unfolding settle_outbound_reply
settle_outbound_reply-over_limit w p id state t found over =
    if_cases (PaysNothing p) (not p.has_db || is_empty id || is_empty state) (λ _. refl)
      (λ _.
        if_cases (PaysNothing p) (same state (codes "completed"))
          (λ _. completed-PaysNothing w p id t found over)
          (λ _. negative-PaysNothing w p id (negative_state state)))
