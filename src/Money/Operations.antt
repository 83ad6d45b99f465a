-- ===== src/Money/Operations.antt =====
-- The owner's operations on requests, and the life of a request.
use mathlib.Core.Path.{subst}
use logos_pilot.Prelude.{
  ℕ, ◌≡◌, refl, sym, ◌⊎◌, inl, inr, Bool, true, false, Option, none, some, arith, if_cases, not,
  ltb,
}
use logos_pilot.Text.{Text}
use logos_pilot.Table.{find, any_row}
use logos_pilot.Table.Laws.{IsKeyed, find_key}
use logos_pilot.Agent.{Pilot, Spend, spend_keyed}
use logos_pilot.Agent.States.{SpendState, OutboundState, is_held}
use logos_pilot.Agent.World.{World, later}
use logos_pilot.Owner.Channel.{send_to_owner}
use logos_pilot.Tasks.Linked.{resume_inbound_task, advance_linked_outbound_task}
use logos_pilot.Spending.Ledger.{set_spend_state, with_state}
use logos_pilot.Spending.Approve.{
  approve_spend, approve_row, after_execution, expire_on_approval, reject_spend, after_rejection,
  reject_held, held_row, release_held_spend,
}
use logos_pilot.Money.Frame.{
  KeepsMoney, KeepsMoney-trans, send_to_owner-KeepsMoney, resume_inbound_task-KeepsMoney,
  advance_linked_outbound_task-KeepsMoney,
}
use logos_pilot.Money.Rows.{RowMoves, Moves, Moves-refl, Moves-trans, KeepsMoney-Moves, attempt}
use logos_pilot.Money.Execute.{execute_spend-Moves}
use logos_pilot.Money.Updates.{update-Moves, set_spend_state-Moves}

-- A message, then the two linked tasks: none of these touches money.
pub tell-KeepsMoney :
    (w v u : World) (p : Pilot) (m : Text) (id : Text) (ok : Bool) (detail : Text)
    (s : OutboundState)
    → KeepsMoney p (
        advance_linked_outbound_task u
          (resume_inbound_task v (send_to_owner w p m).0 id ok detail)
          id
          s)
tell-KeepsMoney w v u p m id ok detail s = KeepsMoney-trans (send_to_owner-KeepsMoney w p m) (
    KeepsMoney-trans (resume_inbound_task-KeepsMoney v _ id ok detail)
      (advance_linked_outbound_task-KeepsMoney u _ id s))

-- `p` moves to `q`, and then only messages and task rows change.
pub then_keeps : {p q r : Pilot} → Moves p q → KeepsMoney q r → Moves p r
then_keeps h k = Moves-trans h (KeepsMoney-Moves h.keyed k)

after_execution-Moves :
    (w : World) (p : Pilot) (r : Spend) (q : Pilot × Bool)
    → Moves p q.0
    → Moves p (after_execution w r q).0
unfolding after_execution
after_execution-Moves w p r (q, ok) h =
    then_keeps h (tell-KeepsMoney w w (later 1 w) q _ r.id ok _ _)

-- From HELD or NOTIFIED a request may be approved, rejected or expired.
held_row-moves :
    (s : SpendState) (now : ℕ) (r : Spend)
    → is_held r.state ≡ true
    → (s ≡ SpendState.approved) ⊎ ((s ≡ SpendState.rejected) ⊎ (s ≡ SpendState.expired))
    → RowMoves r (with_state s now r) × (attempt (with_state s now r) ≡ attempt r)
held_row-moves s now r h e = ground arith

approve_row-Moves :
    (w : World) (p : Pilot) (id : Text)
    → IsKeyed p.spends
    → Moves p (approve_row w p (find id p.spends)).0
unfolding approve_row expire_on_approval
approve_row-Moves w p id v = go (find id p.spends) refl
  where
    go : (o : Option Spend) → find id p.spends ≡ o → Moves p (approve_row w p o).0
    go none e = Moves-refl p v
    go (some r) e =
        let at : find r.id p.spends ≡ some r =
          subst (λ k. find k p.spends ≡ some r) (sym (find_key id p.spends r e)) e in
        if_cases (λ (q : Pilot × Bool). Moves p q.0) (not (is_held r.state)) (λ _. Moves-refl p v)
          (λ is_held_row.
            let step : (s : SpendState)
                → (s ≡ SpendState.approved) ⊎ ((s ≡ SpendState.rejected) ⊎ (s ≡ SpendState.expired))
                → (u : World) → Moves p (set_spend_state u p r.id s) =
              λ s one u.
                set_spend_state-Moves u p r.id s v
                  (λ x e'. held_row-moves s (u.clock 0) x (ground arith) one) in
            if_cases (λ (q : Pilot × Bool). Moves p q.0) (ltb r.expires_at (w.clock 0))
              (λ _.
                then_keeps (step SpendState.expired (inr (inr refl)) w)
                  (send_to_owner-KeepsMoney w _ _))
              (λ _.
                let approved = step SpendState.approved (inl refl) (later 1 w) in
                after_execution-Moves (later 4 w) p r _
                  (Moves-trans approved (execute_spend-Moves (later 2 w) _ r.id approved.keyed))))

-- approveSpend.
pub approve_spend-Moves :
    (w : World) (p : Pilot) (id : Text) → IsKeyed p.spends → Moves p (approve_spend w p id).0
unfolding approve_spend
approve_spend-Moves w p id v =
    if_cases (λ (q : Pilot × Bool). Moves p q.0) p.has_db (λ _. approve_row-Moves w p id v)
      (λ _. Moves-refl p v)

reject_held-Moves :
    (w : World) (p : Pilot) (id : Text) → IsKeyed p.spends → Moves p (reject_held w p id)
reject_held-Moves w p id v =
    update-Moves p (held_row id) (with_state SpendState.rejected (w.clock 0)) v (λ _. refl)
      (λ r h. ground arith) (λ r h. ground arith)

-- rejectSpend.
pub reject_spend-Moves :
    (w : World) (p : Pilot) (id : Text) → IsKeyed p.spends → Moves p (reject_spend w p id).0
unfolding reject_spend after_rejection
reject_spend-Moves w p id v =
    if_cases (λ (q : Pilot × Bool). Moves p q.0) (not p.has_db) (λ _. Moves-refl p v)
      (λ _.
        if_cases (λ (q : Pilot × Bool). Moves p q.0) (any_row (held_row id) p.spends)
          (λ _.
            then_keeps (reject_held-Moves w p id v)
              (tell-KeepsMoney (later 1 w) (later 1 w) (later 1 (later 1 w)) _ _ id false _ _))
          (λ _. reject_held-Moves w p id v))

-- releaseHeldSpend.
pub release_held_spend-Moves :
    (w : World) (p : Pilot) (id : Text) → IsKeyed p.spends → Moves p (release_held_spend w p id).0
unfolding release_held_spend
release_held_spend-Moves w p id v =
    if_cases (λ (q : Pilot × Bool). Moves p q.0) p.has_db (λ _. reject_held-Moves w p id v)
      (λ _. Moves-refl p v)
