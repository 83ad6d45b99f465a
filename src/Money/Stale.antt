-- ===== src/Money/Stale.antt =====
-- Requests that time out or were cut off: expireStaleSpends and reconcileExecutingSpends.
use mathlib.Core.Path.{subst}
use logos_pilot.Prelude.{ℕ, ◌≡◌, refl, sym, ◌∙◌, Bool, true, false, List, [], ◌∷◌, arith, if_cases}
use logos_pilot.Prelude.Int.{pos}
use logos_pilot.Text.{Text}
use logos_pilot.Table.{update, any_row, rows_where}
use logos_pilot.Table.Sums.{checked_from, checked-update}
use logos_pilot.Agent.{Pilot, Spend, spend_keyed}
use logos_pilot.Agent.States.{SpendState, OutboundState}
use logos_pilot.Agent.World.{World, later}
use logos_pilot.Spending.Ledger.{with_state, period_spent, period_amount, period_start}
use logos_pilot.Spending.Expire.{
  is_stale, announce_expired, expire_rows, expire_found, expire_stale_spends, lapsed_message,
}
use logos_pilot.Spending.Recover.{
  executing_row, strand, surface, reconcile_row, reconcile_rows, reconcile_executing_spends,
  stranded_message, interrupted,
}
use logos_pilot.Money.Frame.{
  transfers, KeepsMoney, KeepsMoney-refl, KeepsMoney-trans, send_to_owner-KeepsMoney,
  resume_inbound_task-KeepsMoney, advance_linked_outbound_task-KeepsMoney,
}
use logos_pilot.Money.Operations.{tell-KeepsMoney}

announce-KeepsMoney :
    (w : World) (rs : List Spend) (p : Pilot) → KeepsMoney p (announce_expired w rs p)
unfolding announce_expired
announce-KeepsMoney w [] p = KeepsMoney-refl p
announce-KeepsMoney w (r ∷ rs) p =
    KeepsMoney-trans
      (tell-KeepsMoney w w (later 1 w) p (lapsed_message r.id) r.id false _
        OutboundState.pay_failed)
      (announce-KeepsMoney (later 2 w) rs _)

none_stale :
    (now : ℕ) (ss : List Spend)
    → any_row (is_stale now) (update (is_stale now) (with_state SpendState.expired now) ss) ≡ false
unfolding any_row update
none_stale now [] = refl
none_stale now (r ∷ ss) = ground (arith, none_stale now ss)

no_rows-none : (c : Spend → Bool) (ss : List Spend) → rows_where c ss ≡ [] → any_row c ss ≡ false
unfolding any_row rows_where
no_rows-none c [] e = refl
no_rows-none c (r ∷ ss) e = ground (arith, no_rows-none c ss)

expire_found-lem :
    (w : World) (p : Pilot) (rs : List Spend)
    → rows_where (is_stale (w.clock 0)) p.spends ≡ rs
    → (any_row (is_stale (w.clock 0)) (expire_found w p rs).0.spends ≡ false)
      × (transfers (expire_found w p rs).0.log ≡ transfers p.log)
unfolding expire_found
expire_found-lem w p [] e = (no_rows-none (is_stale (w.clock 0)) p.spends e, refl)
expire_found-lem w p (r ∷ rs) e =
    let told = announce-KeepsMoney (later 1 w) (r ∷ rs) (expire_rows (w.clock 0) p) in
    (
      subst (λ ss. any_row (is_stale (w.clock 0)) ss ≡ false) (sym told.spends)
          (none_stale (w.clock 0) p.spends),
      told.transfers,
    )

-- After expireStaleSpends on a database, no request that waits (CREATED, HELD, NOTIFIED) is past its
-- expiry, by the clock that it read, and nothing was handed to the wallet.
pub expire_stale_spends-none_left :
    (w : World) (p : Pilot)
    → p.has_db ≡ true
    → (any_row (is_stale (w.clock 0)) (expire_stale_spends w p).0.spends ≡ false)
      × (transfers (expire_stale_spends w p).0.log ≡ transfers p.log)
unfolding expire_stale_spends
expire_stale_spends-none_left w p db =
    if_cases
      (λ (q : Pilot × ℕ).
        (any_row (is_stale (w.clock 0)) q.0.spends ≡ false) × (transfers q.0.log ≡ transfers p.log))
      p.has_db (λ _. expire_found-lem w p (rows_where (is_stale (w.clock 0)) p.spends) refl)
      (λ h. ground (arith, h, db))

-- What the recovery keeps: the budget that is used, whatever the start of the period.
pub record KeepsBudget (p q : Pilot) : Type 0 where
  pub spent :
      (start : Text)
      → checked_from (period_amount start) (pos 0) q.spends
        ≡ checked_from (period_amount start) (pos 0) p.spends
  pub transfers : transfers q.log ≡ transfers p.log
  pub has_db : q.has_db ≡ p.has_db
  pub period : q.spend_period_seconds ≡ p.spend_period_seconds

KeepsBudget-trans : {p q r : Pilot} → KeepsBudget p q → KeepsBudget q r → KeepsBudget p r
KeepsBudget-trans h k = record {
  spent = λ s. k.spent s ∙ h.spent s;
  transfers = k.transfers ∙ h.transfers;
  has_db = k.has_db ∙ h.has_db;
  period = k.period ∙ h.period;
}

KeepsMoney-KeepsBudget : {p q : Pilot} → KeepsMoney p q → KeepsBudget p q
KeepsMoney-KeepsBudget h = record {
  spent = λ s. rw h.spends refl;
  transfers = h.transfers;
  has_db = h.has_db;
  period = h.period;
}

same_amount :
    (start id : Text) (now : ℕ) (r : Spend)
    → executing_row id r ≡ true
    → period_amount start (with_state SpendState.tx_unknown now r) ≡ period_amount start r
unfolding period_amount
same_amount start id now r h = ground (arith, h)

surface-KeepsMoney : (w : World) (r : Spend) (p : Pilot) → KeepsMoney p (surface w r p)
unfolding surface
surface-KeepsMoney w r p =
    KeepsMoney-trans (advance_linked_outbound_task-KeepsMoney w p r.id OutboundState.pay_unresolved)
      (KeepsMoney-trans (resume_inbound_task-KeepsMoney (later 1 w) _ r.id false interrupted)
        (send_to_owner-KeepsMoney w _ (stranded_message r)))

reconcile_row-KeepsBudget :
    (w : World) (r : Spend) (p : Pilot) → KeepsBudget p (reconcile_row w r p)
unfolding reconcile_row
reconcile_row-KeepsBudget w r p =
    if_cases (KeepsBudget p) (any_row (executing_row r.id) p.spends)
      (λ _.
        KeepsBudget-trans stranded (KeepsMoney-KeepsBudget (surface-KeepsMoney (later 1 w) r _)))
      (λ _. KeepsMoney-KeepsBudget (KeepsMoney-refl p))
  where
    stranded : KeepsBudget p (strand w r.id p)
    stranded = record {
      spent = λ s.
          checked-update (period_amount s) (pos 0) (executing_row r.id)
            (with_state SpendState.tx_unknown (w.clock 0)) p.spends
            (λ x. same_amount s r.id (w.clock 0) x);
      transfers = refl;
      has_db = refl;
      period = refl;
    }

reconcile_rows-KeepsBudget :
    (w : World) (rs : List Spend) (p : Pilot) → KeepsBudget p (reconcile_rows w rs p)
unfolding reconcile_rows
reconcile_rows-KeepsBudget w [] p = KeepsMoney-KeepsBudget (KeepsMoney-refl p)
reconcile_rows-KeepsBudget w (r ∷ rs) p =
    KeepsBudget-trans (reconcile_row-KeepsBudget w r p)
      (reconcile_rows-KeepsBudget (later 3 w) rs _)

reconcile-KeepsBudget : (w : World) (p : Pilot) → KeepsBudget p (reconcile_executing_spends w p)
unfolding reconcile_executing_spends
reconcile-KeepsBudget w p =
    if_cases (KeepsBudget p) p.has_db (λ _. reconcile_rows-KeepsBudget w _ p)
      (λ _. KeepsMoney-KeepsBudget (KeepsMoney-refl p))

-- reconcileExecutingSpends hands nothing to the wallet and leaves the sum that periodSpent counts as
-- it was, at every time: what may have moved stays counted against the budget.
pub reconcile-period_spent :
    (w u : World) (p : Pilot)
    → (period_spent u (reconcile_executing_spends w p) ≡ period_spent u p)
      × (transfers (reconcile_executing_spends w p).log ≡ transfers p.log)
unfolding period_spent period_start
reconcile-period_spent w u p =
    let k = reconcile-KeepsBudget w p in
    ground (arith, k.spent (period_start (u.clock 0) p), k.has_db, k.period, k.transfers)
