-- ===== src/Money/Sends.antt =====
-- New requests on their way: holdForApproval and walletSend.
use mathlib.Core.Path.{subst}
use logos_pilot.Prelude.{
  ℕ, ◌≡◌, refl, sym, ◌⊎◌, inl, inr, Bool, true, false, none, some, List, arith, if_cases,
  Bool-cases, ◌∙◌, ◌||◌, ◌&&◌, not,
}
use logos_pilot.Prelude.Int.{ℤ, ltb_ℤ}
use logos_pilot.Text.{Text, is_empty}
use logos_pilot.Table.{find}
use logos_pilot.Table.Laws.{IsKeyed, find-set_at, find-insert}
use logos_pilot.Agent.{Pilot, Spend, spend_keyed}
use logos_pilot.Agent.States.{SpendState}
use logos_pilot.Agent.World.{World, later}
use logos_pilot.Owner.Channel.{send_to_owner}
use logos_pilot.Spending.Ledger.{
  period_spent, create_spend_request, new_spend, set_spend_state, with_state,
}
use logos_pilot.Spending.Execute.{execute_spend}
use logos_pilot.Spending.Send.{
  SendResult, hold_for_approval, hold_new, execute_new, executed, exceeds_period, wallet_send,
  period_message, amount_message,
}
use logos_pilot.Money.Frame.{KeepsMoney, KeepsMoney-trans, send_to_owner-KeepsMoney}
use logos_pilot.Money.Rows.{RowMoves, attempt, Moves, Moves-refl, Moves-trans}
use logos_pilot.Money.Execute.{execute_spend-Moves}
use logos_pilot.Money.Updates.{create-Moves, set_spend_state-Moves}
use logos_pilot.Money.Operations.{then_keeps}

-- The request of this id, if there is one, is in state `s`.
abbrev pub InState : Text → SpendState → List Spend → Type 0
InState id s ss = (r : Spend) → find id ss ≡ some r → r.state ≡ s

pub set_spend_state-InState :
    (w : World) (p : Pilot) (id : Text) (s : SpendState)
    → p.has_db ≡ true
    → InState id s (set_spend_state w p id s).spends
unfolding set_spend_state
set_spend_state-InState w p id s db r e =
    ground (arith, find-set_at id id (with_state s (w.clock 0)) p.spends (λ _. refl))

pub create-has_db :
    (w : World) (p : Pilot) (recipient : Text) (amount : ℤ) (reason : Text)
    → (create_spend_request w p recipient amount reason).0.has_db ≡ p.has_db
unfolding create_spend_request
create-has_db w p recipient amount reason = ground arith

pub create-id :
    (w : World) (p : Pilot) (recipient : Text) (amount : ℤ) (reason : Text)
    → p.has_db ≡ true
    → (create_spend_request w p recipient amount reason).1 ≡ w.generated_id
unfolding create_spend_request
create-id w p recipient amount reason db = ground arith

pub create-InState :
    (w : World) (p : Pilot) (recipient : Text) (amount : ℤ) (reason : Text)
    → find w.generated_id p.spends ≡ none
    → InState w.generated_id SpendState.created
        (create_spend_request w p recipient amount reason).0.spends
unfolding create_spend_request
create-InState w p recipient amount reason fresh r e =
    ground (arith, find-insert w.generated_id (new_spend w recipient amount reason) p.spends)

hold_states :
    (now : ℕ) (r : Spend) (s : SpendState)
    → (r.state ≡ SpendState.created) ⊎ (r.state ≡ SpendState.held)
    → (s ≡ SpendState.held) ⊎ (s ≡ SpendState.notified)
    → RowMoves r (with_state s now r) × (attempt (with_state s now r) ≡ attempt r)
hold_states now r s h k = ground arith

-- holdForApproval, on a request that was just created.
pub hold_for_approval-Moves :
    (w : World) (p : Pilot) (id owner_message held_message : Text)
    → IsKeyed p.spends
    → p.has_db ≡ true
    → InState id SpendState.created p.spends
    → Moves p (hold_for_approval w p id owner_message held_message).0
unfolding hold_for_approval
hold_for_approval-Moves w p id owner_message held_message v db fresh =
    if_cases (Moves p) (send_to_owner w held owner_message).1
      (λ _. Moves-trans told (
        set_spend_state-Moves (later 1 w) _ id SpendState.notified told.keyed (λ r e.
          hold_states (w.clock 1) r SpendState.notified
            (inr (
              set_spend_state-InState w p id SpendState.held db r (
                subst (λ ss. find id ss ≡ some r)
                  (send_to_owner-KeepsMoney w held owner_message).spends e)))
            (inr refl))))
      (λ _. told)
  where
    held : Pilot
    held = set_spend_state w p id SpendState.held

    parked : Moves p held
    parked =
        set_spend_state-Moves w p id SpendState.held v
          (λ r e. hold_states (w.clock 0) r SpendState.held (inl (fresh r e)) (inl refl))

    told : Moves p (send_to_owner w held owner_message).0
    told = then_keeps parked (send_to_owner-KeepsMoney w held owner_message)

execute_new-Moves :
    (w : World) (p : Pilot) (q : Pilot × Text) → Moves p q.0 → Moves p (execute_new w q).0
unfolding execute_new executed
execute_new-Moves w p (q, id) h =
    go (execute_spend w q id) (Moves-trans h (execute_spend-Moves w q id h.keyed))
  where
    go : (e : Pilot × Bool) → Moves p e.0 → Moves p (executed id e).0
    go (e, true) m = m
    go (e, false) m = m

-- Without a database nothing is written.
set_spend_state_nodb :
    (w : World) (p : Pilot) (id : Text) (s : SpendState)
    → p.has_db ≡ false
    → KeepsMoney p (set_spend_state w p id s)
unfolding set_spend_state
set_spend_state_nodb w p id s db = ground arith

hold_nodb :
    (w : World) (p : Pilot) (id owner_message held_message : Text)
    → p.has_db ≡ false
    → KeepsMoney p (hold_for_approval w p id owner_message held_message).0
unfolding hold_for_approval
hold_nodb w p id owner_message held_message db =
    let parked = set_spend_state_nodb w p id SpendState.held db in
    let told =
      KeepsMoney-trans parked
        (send_to_owner-KeepsMoney w (set_spend_state w p id SpendState.held) owner_message) in
    if_cases (KeepsMoney p)
      (send_to_owner w (set_spend_state w p id SpendState.held) owner_message).1
      (λ _.
        KeepsMoney-trans told
          (set_spend_state_nodb (later 1 w) _ id SpendState.notified (told.has_db ∙ db)))
      (λ _. told)

module _ (w u : World) (p : Pilot) (recipient : Text) (amount : ℤ) (reason : Text)
    (v : IsKeyed p.spends) (fresh : find w.generated_id p.spends ≡ none) where
  created : Pilot × Text
  created = create_spend_request w p recipient amount reason

  hold_new-Moves :
      (owner_message : Text → Text) (held_message : Text)
      → Moves p (hold_new u created owner_message held_message).0
  unfolding created hold_new
  hold_new-Moves owner_message held_message = elim (Bool-cases p.has_db) [
    | inl db ↦ Moves-trans made (
        hold_for_approval-Moves u created.0 created.1 _ _ made.keyed (ground (arith, made_db)) (
          subst (λ id. InState id SpendState.created created.0.spends)
            (sym (create-id w p recipient amount reason db))
            (create-InState w p recipient amount reason fresh)))
    | inr db ↦ then_keeps made (hold_nodb u created.0 created.1 _ _ (ground (arith, made_db)))
  ]
    where
      made : Moves p created.0
      made = create-Moves w p recipient amount reason v fresh

      made_db : created.0.has_db ≡ p.has_db
      made_db = create-has_db w p recipient amount reason

-- walletSend, where the generated id is fresh.
pub wallet_send-Moves :
    (w : World) (p : Pilot) (recipient : Text) (amount : ℤ) (reason : Text)
    → IsKeyed p.spends
    → find w.generated_id p.spends ≡ none
    → Moves p (wallet_send w p recipient amount reason).0
unfolding wallet_send created
wallet_send-Moves w p recipient amount reason v fresh =
    if_cases (λ (q : Pilot × SendResult). Moves p q.0)
      (not w.context_ready || is_empty p.agent_account_id) (λ _. Moves-refl p v)
      (λ _.
        if_cases (λ (q : Pilot × SendResult). Moves p q.0) (p.has_db && exceeds_period w p amount)
          (λ _.
            hold_new-Moves (later 1 w) (later 2 w) p recipient amount reason v fresh
              (period_message p (period_spent w p)) _)
          (λ _.
            if_cases (λ (q : Pilot × SendResult). Moves p q.0) (ltb_ℤ p.spend_limit_per_tx amount)
              (λ _.
                hold_new-Moves (later 1 w) (later 2 w) p recipient amount reason v fresh
                  (amount_message recipient amount reason) _)
              (λ _.
                execute_new-Moves (later 2 w) p _
                  (create-Moves (later 1 w) p recipient amount reason v fresh))))
