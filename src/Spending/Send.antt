-- ===== src/Spending/Send.antt =====
-- holdForApproval, walletSend and setSpendingLimits (pilot-module/src/pilot_spending.cpp).
use logos_pilot.Prelude.{Bool, true, false, ◌++◌, ◌||◌, ◌&&◌, not, if◌then◌else◌}
use logos_pilot.Prelude.Int.{ℤ, ltb_ℤ}
use logos_pilot.Prelude.Int64.{add_int64}
use logos_pilot.Text.{Text, codes, is_empty}
use logos_pilot.Text.Decimal.{decimal_ℤ}
use logos_pilot.Table.{upsert}
use logos_pilot.Agent.{Pilot, Entry, entry_keyed}
use logos_pilot.Agent.States.{SpendState}
use logos_pilot.Agent.World.{World, later}
use logos_pilot.Owner.Channel.{send_to_owner}
use logos_pilot.Spending.Ledger.{
  create_spend_request, period_spent, set_spend_state, spend_request_error, not_initialized,
}
use logos_pilot.Spending.Execute.{execute_spend}

-- The JSON objects that walletSend returns: an error, a held request with whether the owner was
-- told, or the outcome of the executor.
pub data SendResult : Type 0 where
  refused : Text → SendResult
  held : Text → Text → Bool → SendResult
  completed : Text → SendResult
  failed : Text → Text → SendResult

newline : Text
newline = codes "\n"

decide_lines : Text → Text
unfolding newline
decide_lines id = newline ++ (codes "/approve " ++ (id ++ (newline ++ (codes "/reject " ++ id))))

unfoldable pub period_message : Pilot → ℤ → Text → Text
unfolding decide_lines
period_message p spent id =
    codes "Period limit exceeded ("
    ++ (decimal_ℤ spent
        ++ (codes "/"
            ++ (decimal_ℤ p.spend_limit_per_period
                ++ (codes " LEZ). Approval required." ++ decide_lines id))))

unfoldable pub amount_message : Text → ℤ → Text → Text → Text
unfolding decide_lines newline
amount_message recipient amount reason id =
    codes "Approval needed:"
    ++ (newline
        ++ (codes "Amount: "
            ++ (decimal_ℤ amount
                ++ (codes " LEZ"
                    ++ (newline
                        ++ (codes "To: "
                            ++ (recipient
                                ++ (newline
                                    ++ (codes "Reason: "
                                        ++ (reason
                                            ++ (newline
                                                ++ (codes "Expires: 60 min"
                                                    ++ decide_lines id))))))))))))

-- HELD first; NOTIFIED only if the message to the owner went out.
unfoldable pub hold_for_approval : World → Pilot → Text → Text → Text → Pilot × SendResult
hold_for_approval w p id owner_message held_message =
    let (told, notified) = send_to_owner w (set_spend_state w p id SpendState.held) owner_message in
    (
      if notified then set_spend_state (later 1 w) told id SpendState.notified else told,
      held id held_message notified,
    )

unfoldable pub hold_new : World → Pilot × Text → (Text → Text) → Text → Pilot × SendResult
hold_new w (p, id) owner_message held_message =
    hold_for_approval w p id (owner_message id) held_message

unfoldable pub executed : Text → Pilot × Bool → Pilot × SendResult
executed id (p, true) = (p, completed id)
executed id (p, false) = (p, failed id (spend_request_error p id))

unfoldable pub execute_new : World → Pilot × Text → Pilot × SendResult
unfolding executed
execute_new w (p, id) = executed id (execute_spend w p id)

unfoldable pub exceeds_period : World → Pilot → ℤ → Bool
exceeds_period w p amount = ltb_ℤ p.spend_limit_per_period (add_int64 (period_spent w p) amount)

-- `clock 0` is the reading of periodSpent, `clock 1` that of createSpendRequest.
unfoldable pub wallet_send : World → Pilot → Text → ℤ → Text → Pilot × SendResult
unfolding exceeds_period hold_new execute_new
wallet_send w p recipient amount reason =
    if not w.context_ready || is_empty p.agent_account_id
    then (p, refused not_initialized)
    else let new = create_spend_request (later 1 w) p recipient amount reason in
      (if p.has_db && exceeds_period w p amount
        then hold_new (later 2 w) new (period_message p (period_spent w p))
            (codes "Period spending limit exceeded")
        else if ltb_ℤ p.spend_limit_per_tx amount
        then hold_new (later 2 w) new (amount_message recipient amount reason)
            (codes "Awaiting owner approval")
        else execute_new (later 2 w) new)

abbrev entry : Text → ℤ → Entry
entry name value = record { name = name; value = decimal_ℤ value }

unfoldable pub set_spending_limits : Pilot → ℤ → ℤ → ℤ → Pilot × Bool
set_spending_limits p per_transaction per_period period_seconds = (
  record p {
    spend_limit_per_tx = per_transaction;
    spend_limit_per_period = per_period;
    spend_period_seconds = period_seconds;
    config =
        if p.has_db
        then upsert (entry (codes "spend_period_seconds") period_seconds) (
            upsert (entry (codes "spend_limit_per_period") per_period)
              (upsert (entry (codes "spend_limit_per_tx") per_transaction) p.config))
        else p.config;
  },
  p.has_db,
)
