-- ===== src/Money/Approval.antt =====
-- The owner's decisions: approveSpend, rejectSpend and releaseHeldSpend.
use mathlib.Core.Path.{subst}
use logos_pilot.Prelude.{
  ◌≡◌, refl, sym, ◌∙◌, ◌⊎◌, inl, inr, Bool, true, false, Option, none, some, arith, Option-cases,
  if_cases, not, ltb,
}
use logos_pilot.Text.{Text}
use logos_pilot.Table.{find, any_row}
use logos_pilot.Table.Laws.{
  IsKeyed, find_key, find-update, find-set_at_self, set_at-IsKeyed, any_row-key,
}
use logos_pilot.Agent.{Pilot, Spend, spend_keyed}
use logos_pilot.Agent.States.{SpendState, is_held}
use logos_pilot.Agent.World.{World, later}
use logos_pilot.Spending.Ledger.{set_spend_state, with_state}
use logos_pilot.Spending.Execute.{execute_spend}
use logos_pilot.Spending.Approve.{
  approve_spend, approve_row, expire_on_approval, expired_message, after_execution, reject_spend,
  after_rejection, reject_held, held_row,
}
use logos_pilot.Money.Frame.{transfers, send_to_owner-KeepsMoney}
use logos_pilot.Money.Rows.{Moves, may_become}
use logos_pilot.Money.Operations.{tell-KeepsMoney, reject_spend-Moves}
use logos_pilot.Money.Once.{Ended, execute_spend-Ended}
use logos_pilot.Money.Runs.{Run, run-Moves}

-- The run of the executor on the request of this id, once it is marked APPROVED.
abbrev pub approved_execution : World → Pilot → Text → Pilot × Bool
approved_execution w p id =
    execute_spend (later 2 w) (set_spend_state (later 1 w) p id SpendState.approved) id

-- The answer, the ledger and the transfers are those of that run.
abbrev pub Follows : Pilot × Bool → Pilot × Bool → Type 0
Follows q e = (q.1 ≡ e.1) × ((q.0.spends ≡ e.0.spends) × (transfers q.0.log ≡ transfers e.0.log))

-- What approveSpend did: nothing, an expiry, or a run of the executor.
abbrev pub Approval : World → Pilot → Text → Pilot × Bool → Type 0
Approval w p id q =
    ((q ≡ (p, false)) × ((r : Spend) → find id p.spends ≡ some r → is_held r.state ≡ false))
    ⊎ ((r : Spend) × ((find id p.spends ≡ some r)
          × ((is_held r.state ≡ true)
              × (((ltb r.expires_at (w.clock 0) ≡ true)
                    × ((q.1 ≡ false)
                        × ((transfers q.0.log ≡ transfers p.log)
                            × (find id q.0.spends
                                ≡ some (with_state SpendState.expired (w.clock 0) r)))))
                  ⊎ ((ltb r.expires_at (w.clock 0) ≡ false)
                      × (Ended id q.0 q.1 × Follows q (approved_execution w p id)))))))

-- A write to the state of a row that is there.
written :
    (w : World) (p : Pilot) (id : Text) (s : SpendState) (r : Spend)
    → p.has_db ≡ true
    → find id p.spends ≡ some r
    → (find id (set_spend_state w p id s).spends ≡ some (with_state s (w.clock 0) r))
      × (((set_spend_state w p id s).has_db ≡ true)
          × (transfers (set_spend_state w p id s).log ≡ transfers p.log))
unfolding set_spend_state
written w p id s r db e =
    ground (arith, find-set_at_self id (with_state s (w.clock 0)) p.spends r (λ _. refl) e)

after_execution-Ended :
    (w : World) (r : Spend) (id : Text) (q : Pilot × Bool)
    → Ended id q.0 q.1
    → Ended id (after_execution w r q).0 (after_execution w r q).1
unfolding after_execution
after_execution-Ended w r id (q, ok) h =
    subst (λ ss. Ended id (record q { spends = ss }) ok)
      (sym (tell-KeepsMoney w w (later 1 w) q _ r.id ok _ _).spends) h

after_execution-Follows :
    (w : World) (r : Spend) (q : Pilot × Bool) → Follows (after_execution w r q) q
unfolding after_execution
after_execution-Follows w r (q, ok) =
    let told = tell-KeepsMoney w w (later 1 w) q _ r.id ok _ _ in
    (refl, (told.spends, told.transfers))

pub written-IsKeyed :
    (w : World) (p : Pilot) (id : Text) (s : SpendState)
    → IsKeyed p.spends
    → IsKeyed (set_spend_state w p id s).spends
unfolding set_spend_state
written-IsKeyed w p id s v =
    ground (arith, v, set_at-IsKeyed id (with_state s (w.clock 0)) p.spends (λ _. refl) v)

expired_row :
    (w : World) (p : Pilot) (r : Spend) (id : Text)
    → p.has_db ≡ true
    → r.id ≡ id
    → find id p.spends ≡ some r
    → (transfers (expire_on_approval w p r).0.log ≡ transfers p.log)
      × (find id (expire_on_approval w p r).0.spends
          ≡ some (with_state SpendState.expired (w.clock 0) r))
unfolding expire_on_approval
expired_row w p r id db key e =
    let at = subst (λ k. find k p.spends ≡ some r) (sym key) e in
    let wrote = written w p r.id SpendState.expired r db at in
    let told =
      send_to_owner-KeepsMoney w (set_spend_state w p r.id SpendState.expired)
        (expired_message r.id) in
    (
      told.transfers ∙ wrote.1.1,
      subst
          (λ k.
            find k (expire_on_approval w p r).0.spends
            ≡ some (with_state SpendState.expired (w.clock 0) r))
          key
          (subst (λ ss. find r.id ss ≡ some (with_state SpendState.expired (w.clock 0) r))
            (sym told.spends) wrote.0),
    )

approved_row :
    (w u : World) (p : Pilot) (r : Spend) (id : Text)
    → p.has_db ≡ true
    → IsKeyed p.spends
    → r.id ≡ id
    → find id p.spends ≡ some r
    → Ended id
        (execute_spend w (set_spend_state u p r.id SpendState.approved) r.id).0
        (execute_spend w (set_spend_state u p r.id SpendState.approved) r.id).1
approved_row w u p r id db v key e =
    let at = subst (λ k. find k p.spends ≡ some r) (sym key) e in
    let q = set_spend_state u p r.id SpendState.approved in
    subst (λ k. Ended k (execute_spend w q r.id).0 (execute_spend w q r.id).1) key
      (execute_spend-Ended w q r.id (written u p r.id SpendState.approved r db at).1.0
        (written-IsKeyed u p r.id SpendState.approved v))

approve_row-cases :
    (w : World) (p : Pilot) (id : Text)
    → p.has_db ≡ true
    → IsKeyed p.spends
    → Approval w p id (approve_row w p (find id p.spends))
unfolding approve_row expire_on_approval
approve_row-cases w p id db v = go (find id p.spends) refl
  where
    go : (o : Option Spend) → find id p.spends ≡ o → Approval w p id (approve_row w p o)
    go none e = inl (refl, λ r e'. ground (arith, e, e'))
    go (some r) e =
        if_cases (Approval w p id) (not (is_held r.state))
          (λ h. inl (refl, λ r' e'. ground (arith, e, e', h)))
          (λ h.
            if_cases (Approval w p id) (ltb r.expires_at (w.clock 0))
              (λ late. inr (
                r,
                (
                  e,
                  (
                    ground (arith, h),
                    inl (late, (refl, expired_row w p r id db (find_key id p.spends r e) e)),
                  ),
                ),
              ))
              (λ timely. inr (
                r,
                (
                  e,
                  (
                    ground (arith, h),
                    inr (
                      timely,
                      (
                        after_execution-Ended (later 4 w) r id _ (
                            approved_row (later 2 w) (later 1 w) p r id db v
                              (find_key id p.spends r e) e),
                        subst
                            (λ k.
                              Follows (after_execution (later 4 w) r (approved_execution w p r.id))
                                (approved_execution w p k))
                            (find_key id p.spends r e)
                            (after_execution-Follows (later 4 w) r (approved_execution w p r.id)),
                      ),
                    ),
                  ),
                ),
              )))

-- approveSpend acts on a request that is HELD or NOTIFIED, and otherwise returns false and changes
-- nothing. After its expiry the request becomes EXPIRED, nothing is handed to the wallet, and the
-- answer is false. Before it, the request is marked APPROVED and the executor runs on it: the answer,
-- the ledger and the transfers are those of that run, the request is over, and the answer is true
-- exactly when it is COMPLETED. The database is open and the ids of the ledger differ from one another.
pub approve_spend-cases :
    (w : World) (p : Pilot) (id : Text)
    → p.has_db ≡ true
    → IsKeyed p.spends
    → Approval w p id (approve_spend w p id)
unfolding approve_spend
approve_spend-cases w p id db v =
    if_cases (Approval w p id) p.has_db (λ _. approve_row-cases w p id db v)
      (λ h. ground (arith, db, h))

-- The row that rejectSpend or releaseHeldSpend closed.
rejected_row :
    (w : World) (p : Pilot) (id : Text)
    → IsKeyed p.spends
    → any_row (held_row id) p.spends ≡ true
    → (r : Spend) × ((find id (reject_held w p id).spends ≡ some r)
        × (r.state ≡ SpendState.rejected))
rejected_row w p id v h = elim (Option-cases (find id p.spends)) [
  | inl e ↦ ground (arith, e, h, any_row-key id (λ r. is_held r.state) p.spends v)
  | inr (r, e) ↦ (
    with_state SpendState.rejected (w.clock 0) r,
    (
      ground (
        arith,
        e,
        h,
        find_key id p.spends r e,
        any_row-key id (λ r. is_held r.state) p.spends v,
        find-update id (held_row id) (with_state SpendState.rejected (w.clock 0)) p.spends
            (λ _. refl),
      ),
      refl,
    ),
  )
]

-- The request of this id is REJECTED.
abbrev pub Rejected : Text → Pilot → Type 0
Rejected id p = (r : Spend) × ((find id p.spends ≡ some r) × (r.state ≡ SpendState.rejected))

-- The state that a rejected request may become is REJECTED.
rejected_stays :
    (s : SpendState) → may_become SpendState.rejected s ≡ true → s ≡ SpendState.rejected
rejected_stays s h = ground arith

moved_on : {p q : Pilot} (id : Text) → Moves p q → Rejected id p → Rejected id q
moved_on id m (r, (e, h)) =
    let (r', e', k) = m.evolves id r e in
    (r', (e', rejected_stays r'.state (subst (λ s. may_become s r'.state ≡ true) h k.state)))

reject_spend-Rejected :
    (w : World) (p : Pilot) (id : Text)
    → IsKeyed p.spends
    → (reject_spend w p id).1 ≡ true
    → Rejected id (reject_spend w p id).0
unfolding reject_spend after_rejection
reject_spend-Rejected w p id v =
    if_cases (λ (q : Pilot × Bool). q.1 ≡ true → Rejected id q.0) (not p.has_db)
      (λ _ h. ground (arith, h))
      (λ _.
        if_cases (λ (q : Pilot × Bool). q.1 ≡ true → Rejected id q.0)
          (any_row (held_row id) p.spends)
          (λ hit _.
            subst (λ ss. Rejected id (record p { spends = ss }))
              (sym
                (tell-KeepsMoney (later 1 w) (later 1 w) (later 1 (later 1 w)) (reject_held w p id)
                  _ id false _ _).spends)
              (rejected_row w p id v hit))
          (λ _ h. ground (arith, h)))

-- Where rejectSpend answers true, the request is REJECTED after any run from there, whatever is
-- approved, settled or executed later: the owner's refusal is final. The ids of the ledger differ
-- from one another.
pub reject_spend-is_final :
    (w : World) (p q : Pilot) (id : Text)
    → IsKeyed p.spends
    → (reject_spend w p id).1 ≡ true
    → Run (reject_spend w p id).0 q
    → Rejected id q
reject_spend-is_final w p q id v answer run =
    moved_on id (run-Moves run (reject_spend-Moves w p id v).keyed)
      (reject_spend-Rejected w p id v answer)
