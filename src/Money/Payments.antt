-- ===== src/Money/Payments.antt =====
-- What a reply to a task of this agent's own may do: settleOutboundReply, verifyAndSettleReply.
use mathlib.Core.Path.{subst}
use logos_pilot.Prelude.{
  ℕ, ℕ_discrete, ◌≡◌, refl, sym, Bool, true, false, Option, none, some, List, [], ◌∷◌, arith,
  if_cases, not, ◌&&◌, ◌||◌,
}
use logos_pilot.Prelude.Int.{pos, leb_ℤ}
use logos_pilot.Text.{text_dec, Text, codes, same, is_empty}
use logos_pilot.Table.{find, update, any_row, set_at}
use logos_pilot.Table.Laws.{find_key}
use logos_pilot.Agent.{Pilot, OutboundTask, Card, spend_keyed, outbound_keyed}
use logos_pilot.Agent.States.{OutboundState, is_submitted}
use logos_pilot.Agent.World.{World, later}
use logos_pilot.Cards.Match.{matched_card}
use logos_pilot.Tasks.Settle.{
  task_write, set_outbound, pay_linked, pay_payout, within_limits, settle_claimed, settle_completed,
  submitted_row, settle_outbound_reply, verify_and_settle_reply, settle_if_signed, Reply, or_else,
  signer, address_of, after_match,
}
use logos_pilot.Money.Cards.{OnlyPins, matched_card-OnlyPins}

-- No row of this id is 'submitted'.
abbrev pub Settled : Text → Pilot → Type 0
Settled id p = any_row (submitted_row id) p.outbound ≡ false

set_away :
    (now : ℕ) (id : Text) (s : OutboundState) (payout sid : Text) (rows : List OutboundTask)
    → is_submitted s ≡ false
    → any_row (submitted_row id) (
        set_at id
          (λ r. record r { state = s; payout = payout; spend_request_id = sid; updated_at = now })
          rows)
      ≡ false
unfolding any_row set_at update
set_away now id s payout sid [] h = refl
set_away now id s payout sid (r ∷ rows) h = ground (arith, h, set_away now id s payout sid rows h)

set_outbound-Settled :
    (now : ℕ) (id : Text) (s : OutboundState) (payout sid : Text) (p : Pilot)
    → is_submitted s ≡ false
    → Settled id (set_outbound now id s payout sid p)
set_outbound-Settled now id s payout sid p h = set_away now id s payout sid p.outbound h

pay_linked-Settled :
    (w : World) (p : Pilot) (t : OutboundTask) (payout sid : Text)
    → Settled t.id (pay_linked w p t payout sid)
unfolding pay_linked
pay_linked-Settled w p t payout sid =
    if_cases (Settled t.id) (within_limits w p t.price)
      (λ _. set_away (w.clock 3) t.id _ payout sid _ (ground arith))
      (λ _. set_away (w.clock 3) t.id OutboundState.awaiting_approval payout sid _ refl)

pay_payout-Settled :
    (w : World) (t : OutboundTask) (q : Pilot × Text) → Settled t.id (pay_payout w t q)
unfolding pay_payout
pay_payout-Settled w t (p, payout) =
    if_cases (Settled t.id) (is_empty payout)
      (λ _. set_outbound-Settled (w.clock 0) t.id OutboundState.pay_failed [] [] p refl)
      (λ _. pay_linked-Settled (later 2 w) _ t payout _)

settle_claimed-Settled :
    (w : World) (p : Pilot) (t : OutboundTask) → Settled t.id (settle_claimed w p (some t))
unfolding settle_claimed
settle_claimed-Settled w p t =
    if_cases (Settled t.id) (leb_ℤ t.price (pos 0))
      (λ _. set_outbound-Settled (w.clock 0) t.id OutboundState.accepted_nopay [] [] p refl)
      (λ _. pay_payout-Settled (after_match p w) t _)

claim_away :
    (now : ℕ) (id : Text) (rows : List OutboundTask)
    → any_row (submitted_row id) (
        update
          (λ r. same r.id id && is_submitted r.state)
          (λ r. record r { state = OutboundState.settling; updated_at = now })
          rows)
      ≡ false
unfolding any_row update
claim_away now id [] = refl
claim_away now id (r ∷ rows) = ground (arith, claim_away now id rows)

settle_completed-Settled :
    (w : World) (p : Pilot) (id : Text) → Settled id (settle_completed w p id)
unfolding settle_completed settle_claimed update
settle_completed-Settled w p id =
    if_cases (Settled id) (any_row (submitted_row id) p.outbound)
      (λ _. found (find id claimed.outbound) refl) (λ _. claim_away (w.clock 0) id p.outbound)
  where
    claimed : Pilot
    claimed = task_write is_submitted id OutboundState.settling (w.clock 0) p

    found :
        (o : Option OutboundTask)
        → find id claimed.outbound ≡ o
        → Settled id (settle_claimed (later 1 w) claimed o)
    found none e = claim_away (w.clock 0) id p.outbound
    found (some t) e =
        subst (λ k. Settled k (settle_claimed (later 1 w) claimed (some t)))
          (find_key id claimed.outbound t e) (settle_claimed-Settled (later 1 w) claimed t)

unclaimed :
    (now : ℕ) (id : Text) (rows : List OutboundTask)
    → any_row (submitted_row id) rows ≡ false
    → update
        (λ r. same r.id id && is_submitted r.state)
        (λ r. record r { state = OutboundState.settling; updated_at = now })
        rows
      ≡ rows
unfolding any_row update
unclaimed now id [] h = refl
unclaimed now id (r ∷ rows) h = ground (arith, unclaimed now id rows)

-- A 'completed' reply for a task with no submitted row changes nothing at all.
pub completed_again :
    (u : World) (p : Pilot) (id : Text) → Settled id p → settle_completed u p id ≡ p
unfolding settle_completed
completed_again u p id h = ground (arith, h, unclaimed (u.clock 0) id p.outbound h)

-- A second 'completed' reply for a task, at any later time, changes nothing: repeated replies do not
-- settle or pay it again.
pub settle_completed-once :
    (w u : World) (p : Pilot) (id : Text)
    → settle_outbound_reply u
        (settle_outbound_reply w p id (codes "completed"))
        id
        (codes "completed")
      ≡ settle_outbound_reply w p id (codes "completed")
unfolding settle_outbound_reply text_dec ℕ_discrete
settle_completed-once w u p id =
    if_cases (λ q. settle_outbound_reply u q id (codes "completed") ≡ q)
      (not p.has_db || is_empty id || is_empty (codes "completed")) (λ h. ground (arith, h))
      (λ h.
        let q = settle_completed w p id in
        if_cases (λ x. x ≡ q) (not q.has_db || is_empty id || is_empty (codes "completed"))
          (λ _. refl) (λ _. completed_again u q id (settle_completed-Settled w p id)))

-- The reply names this task and carries a signature that verifies under the key of this card.
abbrev pub authentic : World → Text → Reply → Option Card → Bool
authentic w id r c =
    same (or_else r.result_id r.params_id) id
    && (not (is_empty r.signature)
        && (not (is_empty (signer c)) && w.verify_signature r.canonical r.signature (signer c)))

settle_if_signed-forged :
    (w : World) (id : Text) (r : Reply) (p : Pilot) (c : Option Card)
    → same (or_else r.result_id r.params_id) id ≡ true
    → authentic w id r c ≡ false
    → settle_if_signed w id r (p, c) ≡ p
unfolding settle_if_signed
settle_if_signed-forged w id r p c named h = ground (arith, named, h)

-- A reply that names another task, carries no signature, or carries one that does not verify under
-- the signing key of the task's agent's card changes nothing but the pins of cards: no task is settled
-- or failed by it, and nothing is paid.
pub verify_and_settle_reply-forged :
    (w : World) (p : Pilot) (id : Text) (r : Reply)
    → authentic w id r (matched_card w p (address_of (find id p.outbound))).1 ≡ false
    → OnlyPins p (verify_and_settle_reply w p id (some r))
unfolding verify_and_settle_reply
verify_and_settle_reply-forged w p id r h =
    if_cases (OnlyPins p)
      (not p.has_db || is_empty id || is_empty (or_else r.result_state r.params_state)) (λ _. refl)
      (λ _.
        if_cases (OnlyPins p) (not (same (or_else r.result_id r.params_id) id)) (λ _. refl)
          (λ named.
            if_cases (OnlyPins p) (is_empty (address_of (find id p.outbound))) (λ _. refl)
              (λ _.
                let m = matched_card w p (address_of (find id p.outbound)) in
                subst (OnlyPins p)
                  (sym (
                    settle_if_signed-forged (after_match p w) id r m.0 m.1 (ground (arith, named))
                      h))
                  (matched_card-OnlyPins w p (address_of (find id p.outbound))))))
