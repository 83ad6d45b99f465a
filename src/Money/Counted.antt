-- ===== src/Money/Counted.antt =====
-- What each step adds to the sum that periodSpent counts.
use mathlib.Core.Path.{subst}
use logos_pilot.Prelude.{
  ℕ, ◌≡◌, refl, sym, ◌∙◌, ◌⊎◌, inl, inr, true, none, some, List, arith, Option-cases, if_cases,
}
use logos_pilot.Prelude.Int.{ℤ, pos, ◌≤ℤ◌, ◌+ℤ◌, int_laws}
use logos_pilot.Text.{Text}
use logos_pilot.Table.{find, set_at, insert}
use logos_pilot.Table.Laws.{IsKeyed, find_key, find-set_at_self, set_at-IsKeyed}
use logos_pilot.Table.Sums.{total, total-set_at, total-set_at_none, total-insert}
use logos_pilot.Agent.{Pilot, Spend, spend_keyed}
use logos_pilot.Agent.States.{SpendState, is_pending}
use logos_pilot.Agent.World.{World, later}
use logos_pilot.Spending.Ledger.{new_spend, set_spend_state, with_state, period_amount}
use logos_pilot.Spending.Execute.{finished, run_spend, execute_row, execute_spend}
use logos_pilot.Owner.Channel.{send_to_owner}
use logos_pilot.Spending.Send.{hold_for_approval}
use logos_pilot.Money.Frame.{KeepsMoney, send_to_owner-KeepsMoney}
use logos_pilot.Money.Sends.{InState, set_spend_state-InState}
use logos_pilot.Money.Approval.{written-IsKeyed}
use logos_pilot.Money.Execute.{Outcome, outcome_of, run_spend-Ran, ran}

-- Two writes to a row that counted nothing.
two_writes :
    (n : ℕ) (t t' t'' g g' g'' : ℤ)
    → t' +ℤ g ≡ t +ℤ g'
    → t'' +ℤ g' ≡ t' +ℤ g''
    → g ≡ pos 0
    → (g'' ≡ pos 0) ⊎ (g'' ≡ pos n)
    → t'' ≤ℤ t +ℤ pos n
two_writes n t t' t'' g g' g'' a b c d = grind (int_laws, a, b, c, d)

same_sum : (t t' g g' : ℤ) → t' +ℤ g ≡ t +ℤ g' → g ≡ pos 0 → g' ≡ pos 0 → t' ≡ t
same_sum t t' g g' a b c = grind (int_laws, a, b, c)

-- On a request that was just created the executor runs.
runs :
    (w : World) (p : Pilot) (id : Text) (r : Spend)
    → p.has_db ≡ true
    → find id p.spends ≡ some r
    → r.state ≡ SpendState.created
    → (execute_spend w p id).0.spends ≡ (run_spend w p r).0.spends
unfolding execute_spend execute_row
runs w p id r db found new = ground (arith, db, found, new)

module _ (start : Text) where
  -- A request that waits counts nothing, and a COMPLETED one at most its amount.
  counts_nothing : (r : Spend) → is_pending r.state ≡ true → period_amount start r ≡ pos 0
  unfolding period_amount
  counts_nothing r h = ground (arith, h)

  -- A new request counts nothing.
  pub created-spent :
      (w : World) (recipient : Text) (amount : ℤ) (reason : Text) (ss : List Spend)
      → find w.generated_id ss ≡ none
      → total (period_amount start) (insert (new_spend w recipient amount reason) ss)
        ≡ total (period_amount start) ss
  created-spent w recipient amount reason ss fresh =
      let sum = total-insert (period_amount start) (new_spend w recipient amount reason) ss fresh in
      grind (int_laws, sum, counts_nothing (new_spend w recipient amount reason) refl)

  counts_amount :
      (r : Spend) (n : ℕ)
      → r.amount ≡ pos n
      → (period_amount start r ≡ pos 0) ⊎ (period_amount start r ≡ pos n)
  unfolding period_amount
  counts_amount r n h = ground (arith, h)

  -- A run on a row that counts nothing adds at most its amount.
  ran-spent :
      (w : World) (r : Spend) (o : Outcome) (n : ℕ) (ss : List Spend)
      → IsKeyed ss
      → find r.id ss ≡ some r
      → r.state ≡ SpendState.created
      → r.amount ≡ pos n
      → total (period_amount start) (ran w r o ss) ≤ℤ total (period_amount start) ss +ℤ pos n
  ran-spent w r o n ss v found new amount =
      let one = with_state SpendState.executing (w.clock 0) in
      let two = finished o.ok o.tx_hash o.error (w.clock 1) in
      let mid = set_at r.id one ss in
      two_writes n (total (period_amount start) ss) (total (period_amount start) mid)
        (total (period_amount start) (set_at r.id two mid)) (period_amount start r)
        (period_amount start (one r)) (period_amount start (two (one r)))
        (total-set_at (period_amount start) r.id one ss r v found)
        (total-set_at (period_amount start) r.id two mid (one r)
          (set_at-IsKeyed r.id one ss (λ _. refl) v)
          (find-set_at_self r.id one ss r (λ _. refl) found))
        (counts_nothing r (ground (arith, new))) (counts_amount (two (one r)) n amount)

  -- A write between two states in which the request waits.
  waiting-spent :
      (w : World) (p : Pilot) (id : Text) (s : SpendState)
      → IsKeyed p.spends
      → ((r : Spend) → find id p.spends ≡ some r → is_pending r.state ≡ true)
      → is_pending s ≡ true
      → total (period_amount start) (set_spend_state w p id s).spends
        ≡ total (period_amount start) p.spends
  unfolding set_spend_state
  waiting-spent w p id s v waits next =
      if_cases
        (λ (q : Pilot). total (period_amount start) q.spends ≡ total (period_amount start) p.spends)
        p.has_db
        (λ _. elim (Option-cases (find id p.spends)) [
          | inl e ↦ total-set_at_none (period_amount start) id (with_state s (w.clock 0)) p.spends e
          | inr (r, e) ↦
              same_sum _ _ _ _
                (total-set_at (period_amount start) id (with_state s (w.clock 0)) p.spends r v e)
                (counts_nothing r (waits r e)) (counts_nothing (with_state s (w.clock 0) r) next)
        ])
        (λ _. refl)

  pub hold-spent :
      (w : World) (p : Pilot) (id owner_message held_message : Text)
      → IsKeyed p.spends
      → p.has_db ≡ true
      → InState id SpendState.created p.spends
      → total (period_amount start) (hold_for_approval w p id owner_message held_message).0.spends
        ≡ total (period_amount start) p.spends
  unfolding hold_for_approval
  hold-spent w p id owner_message held_message v db fresh =
      if_cases
        (λ (q : Pilot). total (period_amount start) q.spends ≡ total (period_amount start) p.spends)
        (send_to_owner w held owner_message).1
        (λ _.
          waiting-spent (later 1 w) told id SpendState.notified
            (subst IsKeyed (sym kept.spends) (written-IsKeyed w p id SpendState.held v))
            (λ r e. ground (
              arith,
              set_spend_state-InState w p id SpendState.held db r
                  (subst (λ ss. find id ss ≡ some r) kept.spends e),
            ))
            refl
          ∙ first)
        (λ _. first)
    where
      held : Pilot
      held = set_spend_state w p id SpendState.held

      told : Pilot
      told = (send_to_owner w held owner_message).0

      kept : KeepsMoney held told
      kept = send_to_owner-KeepsMoney w held owner_message

      first : total (period_amount start) told.spends ≡ total (period_amount start) p.spends
      first =
          subst (λ ss. total (period_amount start) ss ≡ total (period_amount start) p.spends)
            (sym kept.spends)
            (waiting-spent w p id SpendState.held v (λ r e. ground (arith, fresh r e)) refl)

  pub execute-spent :
      (w : World) (p : Pilot) (id : Text) (n : ℕ) (r : Spend)
      → IsKeyed p.spends
      → p.has_db ≡ true
      → find id p.spends ≡ some r
      → r.state ≡ SpendState.created
      → r.amount ≡ pos n
      → total (period_amount start) (execute_spend w p id).0.spends
        ≤ℤ total (period_amount start) p.spends +ℤ pos n
  execute-spent w p id n r v db found new amount =
      subst (λ ss. total (period_amount start) ss ≤ℤ total (period_amount start) p.spends +ℤ pos n)
        (sym (runs w p id r db found new ∙ (run_spend-Ran w p r db).spends))
        (ran-spent w r (outcome_of w p r) n p.spends v
          (subst (λ k. find k p.spends ≡ some r) (sym (find_key id p.spends r found)) found) new
          amount)
