-- ===== src/Money/Sweeps.antt =====
-- The operations over many requests: expiry, crash recovery and the announcements after a restart.
use logos_pilot.Prelude.{ℕ, refl, false, List, [], ◌∷◌, arith, if_cases, ◌||◌, not}
use logos_pilot.Table.{rows_where, any_row}
use logos_pilot.Table.Laws.{IsKeyed}
use logos_pilot.Agent.{Pilot, Spend, spend_keyed}
use logos_pilot.Agent.States.{SpendState, OutboundState, is_held}
use logos_pilot.Agent.World.{World, later}
use logos_pilot.Spending.Ledger.{with_state}
use logos_pilot.Spending.Expire.{
  expire_stale_spends, expire_found, expire_rows, announce_expired, is_stale, get_pending_spends,
}
use logos_pilot.Spending.Recover.{
  reconcile_executing_spends, reconcile_rows, reconcile_row, surface, executing_row,
  recover_pending_transactions, announce_held,
}
use logos_pilot.Money.Frame.{
  KeepsMoney, KeepsMoney-refl, KeepsMoney-trans, send_to_owner-KeepsMoney,
  resume_inbound_task-KeepsMoney, advance_linked_outbound_task-KeepsMoney,
}
use logos_pilot.Money.Rows.{Moves, Moves-refl, Moves-trans}
use logos_pilot.Money.Updates.{update-Moves}
use logos_pilot.Money.Operations.{tell-KeepsMoney, then_keeps}

announce_expired-KeepsMoney :
    (w : World) (rs : List Spend) (p : Pilot) → KeepsMoney p (announce_expired w rs p)
unfolding announce_expired
announce_expired-KeepsMoney w [] p = KeepsMoney-refl p
announce_expired-KeepsMoney w (r ∷ rs) p =
    KeepsMoney-trans (tell-KeepsMoney w w (later 1 w) p _ r.id false _ OutboundState.pay_failed)
      (announce_expired-KeepsMoney (later 2 w) rs _)

expire_found-Moves :
    (w : World) (p : Pilot) (rs : List Spend) → IsKeyed p.spends → Moves p (expire_found w p rs).0
unfolding expire_found
expire_found-Moves w p [] v = Moves-refl p v
expire_found-Moves w p (r ∷ rs) v =
    then_keeps
      (update-Moves p (is_stale (w.clock 0)) (with_state SpendState.expired (w.clock 0)) v
        (λ _. refl) (λ x h. ground arith) (λ x h. ground arith))
      (announce_expired-KeepsMoney (later 1 w) (r ∷ rs) (expire_rows (w.clock 0) p))

-- expireStaleSpends.
pub expire_stale_spends-Moves :
    (w : World) (p : Pilot) → IsKeyed p.spends → Moves p (expire_stale_spends w p).0
unfolding expire_stale_spends
expire_stale_spends-Moves w p v =
    if_cases (λ (q : Pilot × ℕ). Moves p q.0) p.has_db (λ _. expire_found-Moves w p _ v)
      (λ _. Moves-refl p v)

-- getPendingSpends.
pub get_pending_spends-Moves :
    (w : World) (p : Pilot) → IsKeyed p.spends → Moves p (get_pending_spends w p).0
unfolding get_pending_spends
get_pending_spends-Moves w p v = expire_stale_spends-Moves w p v

surface-KeepsMoney : (w : World) (r : Spend) (p : Pilot) → KeepsMoney p (surface w r p)
unfolding surface
surface-KeepsMoney w r p =
    KeepsMoney-trans (advance_linked_outbound_task-KeepsMoney w p r.id OutboundState.pay_unresolved)
      (KeepsMoney-trans (resume_inbound_task-KeepsMoney (later 1 w) _ r.id false _)
        (send_to_owner-KeepsMoney w _ _))

reconcile_row-Moves :
    (w : World) (r : Spend) (p : Pilot) → IsKeyed p.spends → Moves p (reconcile_row w r p)
unfolding reconcile_row
reconcile_row-Moves w r p v =
    if_cases (Moves p) (any_row (executing_row r.id) p.spends)
      (λ _.
        then_keeps
          (update-Moves p (executing_row r.id) (with_state SpendState.tx_unknown (w.clock 0)) v
            (λ _. refl) (λ x h. ground arith) (λ x h. ground arith))
          (surface-KeepsMoney (later 1 w) r _))
      (λ _. Moves-refl p v)

reconcile_rows-Moves :
    (w : World) (rs : List Spend) (p : Pilot) → IsKeyed p.spends → Moves p (reconcile_rows w rs p)
unfolding reconcile_rows
reconcile_rows-Moves w [] p v = Moves-refl p v
reconcile_rows-Moves w (r ∷ rs) p v =
    let first = reconcile_row-Moves w r p v in
    Moves-trans first (reconcile_rows-Moves (later 3 w) rs _ first.keyed)

-- reconcileExecutingSpends.
pub reconcile_executing_spends-Moves :
    (w : World) (p : Pilot) → IsKeyed p.spends → Moves p (reconcile_executing_spends w p)
unfolding reconcile_executing_spends
reconcile_executing_spends-Moves w p v =
    if_cases (Moves p) p.has_db (λ _. reconcile_rows-Moves w _ p v) (λ _. Moves-refl p v)

announce_held-KeepsMoney :
    (w : World) (rs : List Spend) (p : Pilot) → KeepsMoney p (announce_held w rs p)
unfolding announce_held
announce_held-KeepsMoney w [] p = KeepsMoney-refl p
announce_held-KeepsMoney w (r ∷ rs) p =
    KeepsMoney-trans (send_to_owner-KeepsMoney w p _) (announce_held-KeepsMoney w rs _)

-- recoverPendingTransactions.
pub recover_pending_transactions-Moves :
    (w : World) (p : Pilot) → IsKeyed p.spends → Moves p (recover_pending_transactions w p)
unfolding recover_pending_transactions
recover_pending_transactions-Moves w p v =
    if_cases (Moves p) (not p.has_db || not w.context_ready) (λ _. Moves-refl p v)
      (λ _. then_keeps (expire_stale_spends-Moves w p v) (
        announce_held-KeepsMoney w
          (rows_where (λ r. is_held r.state) (expire_stale_spends w p).0.spends) _))
