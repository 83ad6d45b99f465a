-- ===== src/Money/Budget.antt =====
-- The budget of the period: walletSend against the sum that periodSpent counts.
use mathlib.Core.Path.{subst}
use logos_pilot.Prelude.{
  ℕ, ◌≡◌, refl, sym, ◌∙◌, Bool, true, false, none, some, arith, if_cases, not, ◌&&◌, ◌||◌,
}
use logos_pilot.Prelude.Int.{ℤ, pos, ltb_ℤ, ◌≤ℤ◌, ◌+ℤ◌, int_laws}
use logos_pilot.Prelude.Int64.{fits_int64, fits-between}
use logos_pilot.Text.{Text, is_empty, same_refl}
use logos_pilot.Table.{find, insert}
use logos_pilot.Table.Laws.{IsKeyed, find-insert, insert-IsKeyed}
use logos_pilot.Table.Sums.{total, checked-total, checked-fits}
use logos_pilot.Agent.{Pilot, Spend, spend_keyed}
use logos_pilot.Agent.States.{SpendState}
use logos_pilot.Agent.World.{World, later}
use logos_pilot.Spending.Ledger.{
  create_spend_request, new_spend, period_spent, period_sum, period_amount, period_start,
}
use logos_pilot.Spending.Execute.{execute_spend}
use logos_pilot.Spending.Send.{
  SendResult, hold_new, execute_new, executed, exceeds_period, wallet_send, period_message,
  amount_message,
}
use logos_pilot.Money.Sends.{InState}
use logos_pilot.Money.Limits.{exceeds-exact}
use logos_pilot.Money.Counted.{created-spent, hold-spent, execute-spent}

-- The sum that periodSpent counts at this clock, in another state of the ledger.
abbrev pub counted : World → Pilot → Pilot → ℤ
counted w p q = total (period_amount (period_start (w.clock 0) p)) q.spends

under :
    (limit spent now : ℤ) (n : ℕ)
    → ltb_ℤ limit (spent +ℤ pos n) ≡ false
    → now ≤ℤ spent +ℤ pos n
    → now ≤ℤ limit
under limit spent now n a b = grind (int_laws, a, b)

same_fits : (limit spent now : ℤ) → now ≡ spent → spent ≤ℤ limit → now ≤ℤ limit
same_fits limit spent now a b = grind (int_laws, a, b)

executed_spends : (id : Text) (e : Pilot × Bool) → (executed id e).0 ≡ e.0
unfolding executed
executed_spends id (e, true) = refl
executed_spends id (e, false) = refl

module _ (w : World) (p : Pilot) (recipient : Text) (n : ℕ) (reason : Text) (v : IsKeyed p.spends)
    (db : p.has_db ≡ true) (fresh : find w.generated_id p.spends ≡ none) where
  made : Pilot × Text
  made = create_spend_request (later 1 w) p recipient (pos n) reason

  row : Spend
  row = new_spend (later 1 w) recipient (pos n) reason

  made_lem :
      (made.0.spends ≡ insert row p.spends) × ((made.0.has_db ≡ true) × (made.1 ≡ w.generated_id))
  unfolding made row create_spend_request
  made_lem = ground (arith, db)

  made_IsKeyed : IsKeyed made.0.spends
  unfolding row
  made_IsKeyed = subst IsKeyed (sym made_lem.0) (insert-IsKeyed row p.spends v)

  made_found : find w.generated_id made.0.spends ≡ some row
  unfolding row
  made_found =
      subst (λ ss. find w.generated_id ss ≡ some row) (sym made_lem.0)
        (ground (arith, fresh, same_refl w.generated_id, find-insert w.generated_id row p.spends))

  made_counted : counted w p made.0 ≡ counted w p p
  unfolding row
  made_counted =
      subst (λ ss. total (period_amount (period_start (w.clock 0) p)) ss ≡ counted w p p)
        (sym made_lem.0)
        (created-spent (period_start (w.clock 0) p) (later 1 w) recipient (pos n) reason p.spends
          fresh)

  held_counted :
      (owner_message : Text → Text) (held_message : Text)
      → counted w p (hold_new (later 2 w) made owner_message held_message).0 ≡ counted w p p
  unfolding hold_new row
  held_counted owner_message held_message =
      hold-spent (period_start (w.clock 0) p) (later 2 w) made.0 made.1 (owner_message made.1)
        held_message made_IsKeyed made_lem.1.0
        (subst (λ id. InState id SpendState.created made.0.spends) (sym made_lem.1.1)
          (λ r e. ground (arith, e, made_found)))
      ∙ made_counted

  paid_counted : counted w p (execute_new (later 2 w) made).0 ≤ℤ counted w p p +ℤ pos n
  unfolding execute_new row
  paid_counted =
      let e = execute_spend (later 2 w) made.0 made.1 in
      subst (λ (q : Pilot). counted w p q ≤ℤ counted w p p +ℤ pos n)
        (sym (executed_spends made.1 e))
        (subst (λ t. counted w p e.0 ≤ℤ t +ℤ pos n) made_counted
          (execute-spent (period_start (w.clock 0) p) (later 2 w) made.0 made.1 n row made_IsKeyed
            made_lem.1.0
            (subst (λ id. find id made.0.spends ≡ some row) (sym made_lem.1.1) made_found) refl
            refl))

zero_fits : fits_int64 (pos 0) ≡ true
unfolding fits_int64
zero_fits = refl

-- What periodSpent reads: the sum, in range.
sum_counted :
    (w : World) (p : Pilot) (spent : ℤ)
    → period_sum w p ≡ some spent
    → (counted w p p ≡ spent) × (fits_int64 spent ≡ true)
sum_counted w p spent sum =
    let g = period_amount (period_start (w.clock 0) p) in
    (
      grind (int_laws, checked-total g (pos 0) spent p.spends sum),
      checked-fits g (pos 0) spent p.spends zero_fits sum,
    )

-- Where both limits allow it, the addition stays in range.
no_overflow :
    (spent limit per_tx : ℤ) (n : ℕ)
    → fits_int64 spent ≡ true
    → spent ≤ℤ limit
    → ltb_ℤ per_tx (pos n) ≡ false
    → fits_int64 (limit +ℤ per_tx) ≡ true
    → fits_int64 (spent +ℤ pos n) ≡ true
no_overflow spent limit per_tx n v within small room =
    fits-between spent (spent +ℤ pos n) (limit +ℤ per_tx) v room (grind int_laws)
      (grind (int_laws, within, small))

-- walletSend keeps the budget: where the sum of the period was within the limit of the period, it is so
-- afterwards, at the same reading of the clock, whatever the wallet answered. The amount is not
-- negative, the database is open, the ids of the ledger differ and the generated one is not taken; the
-- sum does not overflow in the query, and the two limits together are in the range of int64.
pub wallet_send-budget :
    (w : World) (p : Pilot) (recipient : Text) (n : ℕ) (reason : Text) (spent : ℤ)
    → IsKeyed p.spends
    → p.has_db ≡ true
    → find w.generated_id p.spends ≡ none
    → period_sum w p ≡ some spent
    → fits_int64 (p.spend_limit_per_period +ℤ p.spend_limit_per_tx) ≡ true
    → spent ≤ℤ p.spend_limit_per_period
    → counted w p (wallet_send w p recipient (pos n) reason).0 ≤ℤ p.spend_limit_per_period
unfolding wallet_send made
wallet_send-budget w p recipient n reason spent v db fresh sum room within =
    if_cases (λ (q : Pilot × SendResult). counted w p q.0 ≤ℤ p.spend_limit_per_period)
      (not w.context_ready || is_empty p.agent_account_id) (λ _. same_fits _ spent _ start.0 within)
      (λ _.
        if_cases (λ (q : Pilot × SendResult). counted w p q.0 ≤ℤ p.spend_limit_per_period)
          (p.has_db && exceeds_period w p (pos n))
          (λ _. held (period_message p (period_spent w p)) _)
          (λ h.
            if_cases (λ (q : Pilot × SendResult). counted w p q.0 ≤ℤ p.spend_limit_per_period)
              (ltb_ℤ p.spend_limit_per_tx (pos n))
              (λ _. held (amount_message recipient (pos n) reason) _)
              (λ k.
                under p.spend_limit_per_period (counted w p p) _ n
                  (subst (λ t. ltb_ℤ p.spend_limit_per_period (t +ℤ pos n) ≡ false) (sym start.0)
                    (ground (
                      arith,
                      h,
                      db,
                      exceeds-exact w p (pos n) spent db sum (
                          no_overflow spent p.spend_limit_per_period p.spend_limit_per_tx n start.1
                            within k room),
                    )))
                  (paid_counted w p recipient n reason v db fresh))))
  where
    start : (counted w p p ≡ spent) × (fits_int64 spent ≡ true)
    start = sum_counted w p spent sum

    held :
        (owner_message : Text → Text) (held_message : Text)
        → counted w p
            (hold_new
              (later 2 w)
              (create_spend_request (later 1 w) p recipient (pos n) reason)
              owner_message
              held_message).0
          ≤ℤ p.spend_limit_per_period
    held owner_message held_message =
        same_fits p.spend_limit_per_period spent _
          (held_counted w p recipient n reason v db fresh owner_message held_message ∙ start.0)
          within
