-- ===== src/Money/Settle.antt =====
-- Payment for a task of this agent's own: settleOutboundReply and verifyAndSettleReply.
use mathlib.Core.Path.{subst}
use logos_pilot.Prelude.{
  ℕ, ◌≡◌, sym, ◌∙◌, Bool, true, Option, none, some, not, if_cases, ◌||◌, arith,
}
use logos_pilot.Prelude.Int.{pos, leb_ℤ}
use logos_pilot.Text.{Text, same, is_empty, codes}
use logos_pilot.Table.{find, any_row}
use logos_pilot.Table.Laws.{IsKeyed}
use logos_pilot.Agent.{Pilot, OutboundTask, Card, spend_keyed, outbound_keyed}
use logos_pilot.Agent.States.{SpendState, OutboundState, is_submitted, is_undecided}
use logos_pilot.Agent.World.{World, later}
use logos_pilot.Cards.Match.{matched_card, discovered_payout_for}
use logos_pilot.Spending.Ledger.{create_spend_request}
use logos_pilot.Tasks.Settle.{
  task_write, set_outbound, settle_negative, awaited_spend, pay_linked, pay_payout, within_limits,
  pay_reason, settle_claimed, settle_completed, submitted_row, settle_outbound_reply,
  negative_state, verify_and_settle_reply, settle_if_signed, Reply, or_else, signer, address_of,
  after_match,
}
use logos_pilot.Money.Frame.{KeepsMoney}
use logos_pilot.Money.Rows.{Moves, Moves-refl, Moves-trans, KeepsMoney-Moves}
use logos_pilot.Money.Execute.{execute_spend-Moves}
use logos_pilot.Money.Updates.{create-Moves}
use logos_pilot.Money.Operations.{reject_spend-Moves, then_keeps}
use logos_pilot.Money.Sends.{
  InState, create-id, create-InState, create-has_db, hold_for_approval-Moves,
}
use logos_pilot.Money.Cards.{matched_card-KeepsMoney, discovered_payout_for-KeepsMoney}

pub task_write-KeepsMoney :
    (allowed : OutboundState → Bool) (id : Text) (s : OutboundState) (now : ℕ) (p : Pilot)
    → KeepsMoney p (task_write allowed id s now p)
task_write-KeepsMoney allowed id s now p = ground arith

pub set_outbound-KeepsMoney :
    (now : ℕ) (id : Text) (s : OutboundState) (payout sid : Text) (p : Pilot)
    → KeepsMoney p (set_outbound now id s payout sid p)
set_outbound-KeepsMoney now id s payout sid p = ground arith

pub settle_negative-Moves :
    (w : World) (p : Pilot) (id : Text) (s : Option OutboundState)
    → IsKeyed p.spends
    → Moves p (settle_negative w p id s)
unfolding settle_negative
settle_negative-Moves w p id none v = Moves-refl p v
settle_negative-Moves w p id (some s) v =
    if_cases (Moves p) (is_empty (awaited_spend (find id p.outbound)))
      (λ _. KeepsMoney-Moves v (task_write-KeepsMoney is_undecided id s (w.clock 0) p))
      (λ _. reject_spend-Moves w p (awaited_spend (find id p.outbound)) v)

pay_linked-Moves :
    (w : World) (p : Pilot) (t : OutboundTask) (payout sid : Text)
    → IsKeyed p.spends
    → p.has_db ≡ true
    → InState sid SpendState.created p.spends
    → Moves p (pay_linked w p t payout sid)
unfolding pay_linked
pay_linked-Moves w p t payout sid v db fresh =
    if_cases (Moves p) (within_limits w p t.price)
      (λ _.
        then_keeps (execute_spend-Moves (later 1 w) p sid v)
          (set_outbound-KeepsMoney (w.clock 3) t.id _ payout sid _))
      (λ _.
        then_keeps (hold_for_approval-Moves (later 1 w) p sid _ _ v db fresh)
          (set_outbound-KeepsMoney (w.clock 3) t.id OutboundState.awaiting_approval payout sid _))

pay_payout-Moves :
    (w : World) (t : OutboundTask) (p : Pilot) (payout : Text)
    → IsKeyed p.spends
    → p.has_db ≡ true
    → find w.generated_id p.spends ≡ none
    → Moves p (pay_payout w t (p, payout))
unfolding pay_payout
pay_payout-Moves w t p payout v db fresh =
    if_cases (Moves p) (is_empty payout)
      (λ _. KeepsMoney-Moves v (set_outbound-KeepsMoney (w.clock 0) t.id _ _ _ p))
      (λ _. Moves-trans linked (
        pay_linked-Moves (later 2 w) _ t payout made.1 linked.keyed
          (linking.has_db ∙ (create-has_db w p payout t.price reason ∙ db))
          (subst (λ id. InState id SpendState.created made.0.spends)
            (sym (create-id w p payout t.price reason db))
            (create-InState w p payout t.price reason fresh))))
  where
    reason : Text
    reason = pay_reason t.skill t.id

    made : Pilot × Text
    made = create_spend_request w p payout t.price reason

    linking :
        KeepsMoney made.0
          (set_outbound (w.clock 1) t.id OutboundState.settling payout made.1 made.0)
    linking = set_outbound-KeepsMoney (w.clock 1) t.id OutboundState.settling payout made.1 made.0

    linked : Moves p (set_outbound (w.clock 1) t.id OutboundState.settling payout made.1 made.0)
    linked = then_keeps (create-Moves w p payout t.price reason v fresh) linking

settle_claimed-Moves :
    (w : World) (p : Pilot) (o : Option OutboundTask)
    → IsKeyed p.spends
    → p.has_db ≡ true
    → find w.generated_id p.spends ≡ none
    → Moves p (settle_claimed w p o)
unfolding settle_claimed
settle_claimed-Moves w p none v db fresh = Moves-refl p v
settle_claimed-Moves w p (some t) v db fresh =
    if_cases (Moves p) (leb_ℤ t.price (pos 0))
      (λ _. KeepsMoney-Moves v (set_outbound-KeepsMoney (w.clock 0) t.id _ _ _ p))
      (λ _. Moves-trans (KeepsMoney-Moves v looked) (
        pay_payout-Moves (after_match p w) t _ _ (subst IsKeyed (sym looked.spends) v)
          (looked.has_db ∙ db)
          (subst (λ ss. find w.generated_id ss ≡ none) (sym looked.spends) fresh)))
  where
    looked : KeepsMoney p (discovered_payout_for w p t.agent_address).0
    looked = discovered_payout_for-KeepsMoney w p t.agent_address

settle_completed-Moves :
    (w : World) (p : Pilot) (id : Text)
    → IsKeyed p.spends
    → p.has_db ≡ true
    → find w.generated_id p.spends ≡ none
    → Moves p (settle_completed w p id)
unfolding settle_completed
settle_completed-Moves w p id v db fresh =
    if_cases (Moves p) (any_row (submitted_row id) p.outbound)
      (λ _.
        Moves-trans (KeepsMoney-Moves v claim) (settle_claimed-Moves (later 1 w) _ _ v db fresh))
      (λ _. KeepsMoney-Moves v claim)
  where
    claim : KeepsMoney p (task_write is_submitted id OutboundState.settling (w.clock 0) p)
    claim = task_write-KeepsMoney is_submitted id OutboundState.settling (w.clock 0) p

-- settleOutboundReply, where the generated id is fresh.
pub settle_outbound_reply-Moves :
    (w : World) (p : Pilot) (id state : Text)
    → IsKeyed p.spends
    → find w.generated_id p.spends ≡ none
    → Moves p (settle_outbound_reply w p id state)
unfolding settle_outbound_reply
settle_outbound_reply-Moves w p id state v fresh =
    if_cases (Moves p) (not p.has_db || is_empty id || is_empty state) (λ _. Moves-refl p v)
      (λ h.
        if_cases (Moves p) (same state (codes "completed"))
          (λ _. settle_completed-Moves w p id v (ground (arith, h)) fresh)
          (λ _. settle_negative-Moves w p id (negative_state state) v))

settle_if_signed-Moves :
    (w : World) (id : Text) (r : Reply) (p : Pilot) (c : Option Card)
    → IsKeyed p.spends
    → find w.generated_id p.spends ≡ none
    → Moves p (settle_if_signed w id r (p, c))
unfolding settle_if_signed
settle_if_signed-Moves w id r p c v fresh =
    if_cases (Moves p) (is_empty (signer c) || is_empty r.signature) (λ _. Moves-refl p v)
      (λ _.
        if_cases (Moves p) (w.verify_signature r.canonical r.signature (signer c))
          (λ _. settle_outbound_reply-Moves w p id (or_else r.result_state r.params_state) v fresh)
          (λ _. Moves-refl p v))

-- verifyAndSettleReply, where the generated id is fresh.
pub verify_and_settle_reply-Moves :
    (w : World) (p : Pilot) (id : Text) (r : Option Reply)
    → IsKeyed p.spends
    → find w.generated_id p.spends ≡ none
    → Moves p (verify_and_settle_reply w p id r)
unfolding verify_and_settle_reply
verify_and_settle_reply-Moves w p id none v fresh = Moves-refl p v
verify_and_settle_reply-Moves w p id (some r) v fresh =
    if_cases (Moves p)
      (not p.has_db || is_empty id || is_empty (or_else r.result_state r.params_state))
      (λ _. Moves-refl p v)
      (λ _.
        if_cases (Moves p) (not (same (or_else r.result_id r.params_id) id)) (λ _. Moves-refl p v)
          (λ _.
            if_cases (Moves p) (is_empty (address_of (find id p.outbound))) (λ _. Moves-refl p v)
              (λ _. Moves-trans (KeepsMoney-Moves v looked) (
                settle_if_signed-Moves (after_match p w) id r _ _
                  (subst IsKeyed (sym looked.spends) v)
                  (subst (λ ss. find w.generated_id ss ≡ none) (sym looked.spends) fresh)))))
  where
    looked : KeepsMoney p (matched_card w p (address_of (find id p.outbound))).0
    looked = matched_card-KeepsMoney w p (address_of (find id p.outbound))
