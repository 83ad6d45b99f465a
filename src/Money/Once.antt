-- ===== src/Money/Once.antt =====
-- What the ledger says after a run of executeSpend, and what a second run does.
use mathlib.Core.Path.{subst}
use logos_pilot.Prelude.{
  ℕ, ◌≡◌, refl, sym, ◌⊎◌, inl, inr, Bool, true, false, Option, none, some, arith, if_cases,
}
use logos_pilot.Text.{Text}
use logos_pilot.Table.{find}
use logos_pilot.Table.Laws.{IsKeyed, find_key}
use logos_pilot.Agent.{Pilot, Spend, spend_keyed}
use logos_pilot.Agent.States.{SpendState, is_completed, is_spent_or_dead}
use logos_pilot.Agent.World.{World}
use logos_pilot.Spending.Ledger.{with_state}
use logos_pilot.Spending.Execute.{finished, run_spend, execute_row, execute_spend}
use logos_pilot.Money.Execute.{Outcome, outcome_of, run_spend-Ran, ran-find}

-- A request on which the executor has nothing left to do, with the answer that it gives.
abbrev pub Over : Spend → Bool → Type 0
Over r b =
    (r.state ≡ SpendState.completed) × (b ≡ true)
    ⊎ ((is_completed r.state ≡ false) × ((is_spent_or_dead r.state ≡ true) × (b ≡ false)))

-- What the ledger holds under an id after a run that answered `b`.
abbrev pub Ended : Text → Pilot → Bool → Type 0
Ended id q b =
    ((find id q.spends ≡ none) × (b ≡ false))
    ⊎ ((r : Spend) × ((find id q.spends ≡ some r) × Over r b))

finished-Over :
    (o : Outcome) (i j : ℕ) (r : Spend) (b : Bool)
    → b ≡ o.ok
    → Over (finished o.ok o.tx_hash o.error j (with_state SpendState.executing i r)) b
finished-Over o i j r b e = ground arith

run_spend-Ended :
    (w : World) (p : Pilot) (r : Spend)
    → p.has_db ≡ true
    → find r.id p.spends ≡ some r
    → is_completed r.state ≡ false
    → is_spent_or_dead r.state ≡ false
    → IsKeyed p.spends
    → Ended r.id (run_spend w p r).0 (run_spend w p r).1
run_spend-Ended w p r db found open_row alive v =
    let o = outcome_of w p r in
    let h = run_spend-Ran w p r db in
    let last =
      finished o.ok o.tx_hash o.error (w.clock 1) (with_state SpendState.executing (w.clock 0) r) in
    inr (
      last,
      (
        subst (λ ss. find r.id ss ≡ some last) (sym h.spends)
            (ran-find w p r v found open_row alive o),
        finished-Over o (w.clock 0) (w.clock 1) r _ h.result,
      ),
    )

execute_row-Ended :
    (w : World) (p : Pilot) (id : Text)
    → p.has_db ≡ true
    → IsKeyed p.spends
    → Ended id (execute_row w p (find id p.spends)).0 (execute_row w p (find id p.spends)).1
unfolding execute_row
execute_row-Ended w p id db v = go (find id p.spends) refl
  where
    go :
        (o : Option Spend)
        → find id p.spends ≡ o
        → Ended id (execute_row w p o).0 (execute_row w p o).1
    go none e = inl (e, refl)
    go (some r) e =
        if_cases (λ (q : Pilot × Bool). Ended id q.0 q.1) (is_completed r.state)
          (λ h. inr (r, (e, ground arith)))
          (λ open_row.
            if_cases (λ (q : Pilot × Bool). Ended id q.0 q.1) (is_spent_or_dead r.state)
              (λ h. inr (r, (e, ground arith)))
              (λ alive.
                let same_id = find_key id p.spends r e in
                subst (λ k. Ended k (run_spend w p r).0 (run_spend w p r).1) same_id
                  (run_spend-Ended w p r db (subst (λ k. find k p.spends ≡ some r) (sym same_id) e)
                    open_row alive v)))

execute_row-db :
    (w : World) (p : Pilot) (o : Option Spend)
    → p.has_db ≡ true
    → (execute_row w p o).0.has_db ≡ true
unfolding execute_row
execute_row-db w p none db = db
execute_row-db w p (some r) db = ground (arith, (run_spend-Ran w p r db).has_db, db)

-- Once an id is over, the executor leaves the agent as it is and repeats the answer.
Ended-again :
    (w : World) (p : Pilot) (id : Text) (b : Bool)
    → p.has_db ≡ true
    → Ended id p b
    → execute_spend w p id ≡ (p, b)
unfolding execute_spend execute_row
Ended-again w p id b db (inl (e, answer)) = ground (arith, db, e, answer)
Ended-again w p id b db (inr (r, (e, o))) = ground (arith, db, e, o)

-- After a run of executeSpend on an id, in whatever world, another run in whatever world changes
-- nothing and returns the same answer: no request is handed to the wallet twice. The ids of the ledger
-- differ from one another.
pub execute_spend-idempotent :
    (w u : World) (p : Pilot) (id : Text)
    → IsKeyed p.spends
    → execute_spend u (execute_spend w p id).0 id ≡ execute_spend w p id
unfolding execute_spend
execute_spend-idempotent w u p id v =
    if_cases (λ (q : Pilot × Bool). execute_spend u q.0 id ≡ q) p.has_db
      (λ db.
        Ended-again u _ id _ (execute_row-db w p (find id p.spends) db)
          (execute_row-Ended w p id db v))
      (λ db. rw db refl)

-- executeSpend on a database returns true exactly when the request is COMPLETED afterwards; on false,
-- there is no such request, or it ended in another final state or is still EXECUTING from before. So no
-- run leaves a request CREATED, HELD, NOTIFIED or APPROVED.
pub execute_spend-Ended :
    (w : World) (p : Pilot) (id : Text)
    → p.has_db ≡ true
    → IsKeyed p.spends
    → Ended id (execute_spend w p id).0 (execute_spend w p id).1
unfolding execute_spend
execute_spend-Ended w p id db v =
    if_cases (λ (q : Pilot × Bool). Ended id q.0 q.1) p.has_db (λ _. execute_row-Ended w p id db v)
      (λ h. ground (arith, db, h))
