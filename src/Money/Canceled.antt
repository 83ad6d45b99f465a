-- ===== src/Money/Canceled.antt =====
-- agentCancel against a late reply.
use logos_pilot.Prelude.{
  ℕ, ℕ_discrete, ◌≡◌, refl, ◌∙◌, Bool, true, false, Option, none, some, List, [], ◌∷◌, arith,
  if_cases, not, ◌&&◌, ◌||◌,
}
use logos_pilot.Text.{text_dec, Text, codes, same, is_empty}
use logos_pilot.Table.{update, any_row}
use logos_pilot.Agent.{Pilot, OutboundTask, outbound_keyed}
use logos_pilot.Agent.States.{OutboundState, is_submitted}
use logos_pilot.Agent.World.{World}
use logos_pilot.Cards.Match.{resolve_routing_key}
use logos_pilot.Tasks.Settle.{submitted_row, settle_outbound_reply, after_match}
use logos_pilot.Tasks.Outbound.Cancel.{mark_canceled, send_cancel, cancel_routed, agent_cancel}
use logos_pilot.Money.Frame.{KeepsMoney, KeepsMoney-refl, KeepsMoney-trans}
use logos_pilot.Money.Cards.{OnlyPins-KeepsMoney, matched_card-OnlyPins}
use logos_pilot.Money.Payments.{Settled, completed_again}

canceled_away :
    (now : ℕ) (id : Text) (rows : List OutboundTask)
    → any_row (submitted_row id) (
        update
          (λ r. same r.id id && is_submitted r.state)
          (λ r. record r { state = OutboundState.canceled; updated_at = now })
          rows)
      ≡ false
unfolding any_row update
canceled_away now id [] = refl
canceled_away now id (r ∷ rows) = ground (arith, canceled_away now id rows)

-- A cancel: no money moves, and if it succeeds no row of the task is left 'submitted'.
abbrev Cancels : Pilot → Text → Pilot × Bool → Type 0
Cancels p id (q, done) = KeepsMoney p q × (done ≡ true → p.has_db ≡ true → Settled id q)

mark_canceled-Settled :
    (w : World) (id : Text) (p : Pilot) → p.has_db ≡ true → Settled id (mark_canceled w id p)
unfolding mark_canceled
mark_canceled-Settled w id p db =
    if_cases (Settled id) p.has_db (λ _. canceled_away (w.clock 0) id p.outbound) (λ f. absurd (cc))

send_cancel-Cancels :
    (w : World) (id key : Text) (p : Pilot) (o : Option Text)
    → Cancels p id (send_cancel w id key p o)
unfolding send_cancel
send_cancel-Cancels w id key p none = (KeepsMoney-refl p, λ f db. absurd (cc))
send_cancel-Cancels w id key p (some payload) =
    (unfold mark_canceled in ground arith, λ _ db. mark_canceled-Settled w id _ db)

cancel_routed-Cancels :
    (w : World) (id request : Text) (p : Pilot) (r : Pilot × Text)
    → KeepsMoney p r.0
    → Cancels p id (cancel_routed w id request r)
unfolding cancel_routed
cancel_routed-Cancels w id request p (q, key) keeps =
    if_cases (Cancels p id) (is_empty key) (λ _. (keeps, λ f db. absurd (cc)))
      (λ _.
        let (kept, settled) = send_cancel-Cancels w id key q (w.encrypt key request) in
        (KeepsMoney-trans keeps kept, λ d db. settled d (keeps.has_db ∙ db)))

pub agent_cancel-Cancels :
    (w : World) (p : Pilot) (address id request : Text)
    → Cancels p id (agent_cancel w p address id request)
unfolding agent_cancel resolve_routing_key
agent_cancel-Cancels w p address id request =
    if_cases (Cancels p id) (not w.context_ready) (λ _. (KeepsMoney-refl p, λ f db. absurd (cc)))
      (λ _.
        cancel_routed-Cancels (after_match p w) id request p _
          (OnlyPins-KeepsMoney (matched_card-OnlyPins w p address)))

-- A cancel moves no money, whether it succeeds or not. After one that succeeds, a 'completed' reply
-- for the task, whenever it comes, changes nothing: a canceled task is not paid.
pub agent_cancel-not_paid :
    (w u : World) (p : Pilot) (address id request : Text)
    → p.has_db ≡ true
    → (agent_cancel w p address id request).1 ≡ true
    → KeepsMoney p (agent_cancel w p address id request).0
      × (settle_outbound_reply u (agent_cancel w p address id request).0 id (codes "completed")
          ≡ (agent_cancel w p address id request).0)
unfolding settle_outbound_reply text_dec ℕ_discrete
agent_cancel-not_paid w u p address id request db done =
    let (keeps, settled) = agent_cancel-Cancels w p address id request in
    let q = (agent_cancel w p address id request).0 in
    (
      keeps,
      if_cases (λ x. x ≡ q) (not q.has_db || is_empty id || is_empty (codes "completed"))
          (λ _. refl) (λ _. completed_again u q id (settled done db)),
    )
