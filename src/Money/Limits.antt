-- ===== src/Money/Limits.antt =====
-- The spending limits: what walletSend may do by itself, and what waits for the owner.
use mathlib.Core.Path.{subst}
use logos_pilot.Prelude.{
  ◌≡◌, refl, sym, ◌∙◌, ◌⊎◌, inl, inr, true, false, none, some, arith, if_cases, not, ◌&&◌, ◌||◌,
}
use logos_pilot.Prelude.Int.{ℤ, ltb_ℤ, ◌+ℤ◌}
use logos_pilot.Prelude.Int64.{fits_int64, add_int64_exact}
use logos_pilot.Text.{Text, is_empty, same_refl}
use logos_pilot.Table.{find}
use logos_pilot.Table.Laws.{find-set_at_self, find-insert}
use logos_pilot.Agent.{Pilot, Spend, spend_keyed}
use logos_pilot.Agent.States.{SpendState, is_held}
use logos_pilot.Agent.World.{World, later}
use logos_pilot.Owner.Channel.{send_to_owner}
use logos_pilot.Spending.Ledger.{
  create_spend_request, new_spend, set_spend_state, with_state, period_spent, period_sum,
}
use logos_pilot.Spending.Send.{
  SendResult, hold_for_approval, hold_new, exceeds_period, wallet_send, period_message,
  amount_message,
}
use logos_pilot.Money.Frame.{transfers, KeepsMoney, send_to_owner-KeepsMoney}
use logos_pilot.Money.Sends.{create-id}

-- A request of this id for these terms waits for the owner, and nothing was handed to the wallet.
abbrev pub Waits : Text → Text → ℤ → Pilot → Pilot → Type 0
Waits id recipient amount p q =
    (transfers q.log ≡ transfers p.log)
    × ((r : Spend) × ((find id q.spends ≡ some r)
          × ((r.recipient ≡ recipient) × ((r.amount ≡ amount) × (is_held r.state ≡ true)))))

-- A row is there for these terms.
abbrev Filed : Text → Text → ℤ → Pilot → Pilot → Type 0
Filed id recipient amount p q =
    (transfers q.log ≡ transfers p.log)
    × ((q.has_db ≡ true)
        × ((r : Spend) × ((find id q.spends ≡ some r)
              × ((r.recipient ≡ recipient) × (r.amount ≡ amount)))))

set_held :
    (w : World) (id recipient : Text) (amount : ℤ) (p q : Pilot) (s : SpendState)
    → (s ≡ SpendState.held) ⊎ (s ≡ SpendState.notified)
    → Filed id recipient amount p q
    → Filed id recipient amount p (set_spend_state w q id s)
      × Waits id recipient amount p (set_spend_state w q id s)
unfolding set_spend_state
set_held w id recipient amount p q s one (quiet, (db, (r, (e, (f, g))))) =
    let at = find-set_at_self id (with_state s (w.clock 0)) q.spends r (λ _. refl) e in
    let found : find id (set_spend_state w q id s).spends ≡ some (with_state s (w.clock 0) r) =
      ground (arith, db, at) in
    (
      (ground (arith, quiet), (ground (arith, db), (with_state s (w.clock 0) r, (found, (f, g))))),
      (ground (arith, quiet), (with_state s (w.clock 0) r, (found, (f, (g, ground (arith, one)))))),
    )

told_Filed :
    (id recipient : Text) (amount : ℤ) (p : Pilot) {q s : Pilot}
    → KeepsMoney q s
    → (Filed id recipient amount p q → Filed id recipient amount p s)
      × (Waits id recipient amount p q → Waits id recipient amount p s)
told_Filed id recipient amount p h = (
  λ (quiet, (db, (r, (e, t)))). (
    h.transfers ∙ quiet,
    (h.has_db ∙ db, (r, (subst (λ ss. find id ss ≡ some r) (sym h.spends) e, t))),
  ),
  λ (quiet, (r, (e, t))).
      (h.transfers ∙ quiet, (r, (subst (λ ss. find id ss ≡ some r) (sym h.spends) e, t))),
)

pub hold_for_approval-Waits :
    (w : World) (id recipient : Text) (amount : ℤ) (p q : Pilot) (owner_message held_message : Text)
    → Filed id recipient amount p q
    → Waits id recipient amount p (hold_for_approval w q id owner_message held_message).0
unfolding hold_for_approval
hold_for_approval-Waits w id recipient amount p q owner_message held_message filed =
    if_cases (Waits id recipient amount p) (send_to_owner w held owner_message).1
      (λ _.
        (set_held (later 1 w) id recipient amount p told SpendState.notified (inr refl)
          ((told_Filed id recipient amount p kept).0 first.0)).1)
      (λ _. (told_Filed id recipient amount p kept).1 first.1)
  where
    held : Pilot
    held = set_spend_state w q id SpendState.held

    told : Pilot
    told = (send_to_owner w held owner_message).0

    kept : KeepsMoney held told
    kept = send_to_owner-KeepsMoney w held owner_message

    first : Filed id recipient amount p held × Waits id recipient amount p held
    first = set_held w id recipient amount p q SpendState.held (inl refl) filed

pub create-Filed :
    (w : World) (p : Pilot) (recipient : Text) (amount : ℤ) (reason : Text)
    → p.has_db ≡ true
    → find w.generated_id p.spends ≡ none
    → Filed w.generated_id recipient amount p (create_spend_request w p recipient amount reason).0
unfolding create_spend_request
create-Filed w p recipient amount reason db fresh = (
  ground (arith, db),
  (
    ground (arith, db),
    (
      new_spend w recipient amount reason,
      (
        ground (
          arith,
          db,
          fresh,
          same_refl w.generated_id,
          find-insert w.generated_id (new_spend w recipient amount reason) p.spends,
        ),
        (refl, refl),
      ),
    ),
  ),
)

hold_new-Waits :
    (w u : World) (p : Pilot) (recipient : Text) (amount : ℤ) (reason : Text)
    → p.has_db ≡ true
    → find w.generated_id p.spends ≡ none
    → (owner_message : Text → Text) (held_message : Text)
    → Waits w.generated_id recipient amount p
        (hold_new u (create_spend_request w p recipient amount reason) owner_message held_message).0
unfolding hold_new
hold_new-Waits w u p recipient amount reason db fresh owner_message held_message =
    let made = create_spend_request w p recipient amount reason in
    subst
      (λ id.
        Waits w.generated_id recipient amount p
          (hold_for_approval u made.0 id (owner_message id) held_message).0)
      (sym (create-id w p recipient amount reason db))
      (hold_for_approval-Waits u w.generated_id recipient amount p made.0
        (owner_message w.generated_id) held_message
        (create-Filed w p recipient amount reason db fresh))

-- Where neither the sum nor the addition overflows, the test is the one over the integers.
pub exceeds-exact :
    (w : World) (p : Pilot) (amount spent : ℤ)
    → p.has_db ≡ true
    → period_sum w p ≡ some spent
    → fits_int64 (spent +ℤ amount) ≡ true
    → exceeds_period w p amount ≡ ltb_ℤ p.spend_limit_per_period (spent +ℤ amount)
unfolding exceeds_period period_spent
exceeds-exact w p amount spent db sum fit =
    ground (arith, db, sum, add_int64_exact spent amount fit)

-- Where the amount is above the limit for one payment, or would take the period above its limit,
-- walletSend hands nothing to the wallet: a request for these terms is in the ledger and waits for the
-- owner, HELD or NOTIFIED. The agent is initialized, the database is open, the generated id is not
-- taken, and neither the sum of the period nor that sum with the amount leaves the range of int64.
pub wallet_send-over_limit :
    (w : World) (p : Pilot) (recipient : Text) (amount spent : ℤ) (reason : Text)
    → p.has_db ≡ true
    → w.context_ready ≡ true
    → is_empty p.agent_account_id ≡ false
    → find w.generated_id p.spends ≡ none
    → period_sum w p ≡ some spent
    → fits_int64 (spent +ℤ amount) ≡ true
    → ltb_ℤ p.spend_limit_per_period (spent +ℤ amount) || ltb_ℤ p.spend_limit_per_tx amount ≡ true
    → Waits w.generated_id recipient amount p (wallet_send w p recipient amount reason).0
unfolding wallet_send
wallet_send-over_limit w p recipient amount spent reason db ready account fresh sum fit over =
    if_cases (λ (q : Pilot × SendResult). Waits w.generated_id recipient amount p q.0)
      (not w.context_ready || is_empty p.agent_account_id) (λ h. ground (arith, h, ready, account))
      (λ _.
        if_cases (λ (q : Pilot × SendResult). Waits w.generated_id recipient amount p q.0)
          (p.has_db && exceeds_period w p amount)
          (λ _.
            hold_new-Waits (later 1 w) (later 2 w) p recipient amount reason db fresh
              (period_message p (period_spent w p)) _)
          (λ h.
            if_cases (λ (q : Pilot × SendResult). Waits w.generated_id recipient amount p q.0)
              (ltb_ℤ p.spend_limit_per_tx amount)
              (λ _.
                hold_new-Waits (later 1 w) (later 2 w) p recipient amount reason db fresh
                  (amount_message recipient amount reason) _)
              (λ k. ground (arith, h, k, db, over, exceeds-exact w p amount spent db sum fit))))
