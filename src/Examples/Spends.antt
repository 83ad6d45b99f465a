-- ===== src/Examples/Spends.antt =====
-- The money of the agent of Examples.
use logos_pilot.Prelude.{
  every, ℕ_discrete, ◌+◌, ◌≤◌, ◌≡◌, refl, true, false, none, some, [], length, arith,
}
use logos_pilot.Prelude.Int.{◌+ℤ◌, ◌≤ℤ◌, pos}
use logos_pilot.Prelude.Int64.{fits_int64}
use logos_pilot.Text.{Text, codes, text_dec}
use logos_pilot.Table.{find, any_row}
use logos_pilot.Table.Laws.{IsKeyed}
use logos_pilot.Table.Sums.{tally, checked_from}
use logos_pilot.Agent.{SpendRail, Pilot, Spend, spend_keyed}
use logos_pilot.Spending.Ledger.{period_spent, period_sum, period_amount}
use logos_pilot.Spending.Amount.{amount_to_hex_le}
use logos_pilot.Text.Search.{contains, starts_with, is_xdigit, to_lower}
use logos_pilot.Spending.Recipient.{parse_spend_recipient, fold_id, public_prefix}
use logos_pilot.Spending.Rails.{parse_spend_recipient-public, is_lower_hex}
use logos_pilot.Text.Decimal.{decimal}
use logos_pilot.Spending.Balance.{le_hex_to_decimal, u128_le_hex}
use logos_pilot.Spending.Numbers.{le_hex_to_decimal-amount_to_hex_le, amount_to_hex_le-u128_le_hex}
use logos_pilot.Spending.Encoding.{amount_to_hex_le-roundtrip, le_value}
use logos_pilot.Spending.Execute.{execute_spend}
use logos_pilot.Spending.Approve.{approve_spend, reject_spend}
use logos_pilot.Spending.Expire.{expire_stale_spends, is_stale}
use logos_pilot.Spending.Send.{wallet_send}
use logos_pilot.Spending.Recover.{reconcile_executing_spends}
use logos_pilot.Money.Frame.{transfers}
use logos_pilot.Money.Rows.{attempt, RowMoves}
use logos_pilot.Money.Runs.{Run, start, approve, run-at_most_once, run-requests_evolve}
use logos_pilot.Money.Once.{execute_spend-idempotent, execute_spend-Ended, Ended}
use logos_pilot.Money.Approval.{Approval, approve_spend-cases, Rejected, reject_spend-is_final}
use logos_pilot.Money.Limits.{Waits, wallet_send-over_limit}
use logos_pilot.Money.Budget.{counted, wallet_send-budget}
use logos_pilot.Money.Stale.{expire_stale_spends-none_left, reconcile-period_spent}
use logos_pilot.Examples.{world, agent, held_spend}

agent-IsKeyed : IsKeyed agent.spends
unfolding find
agent-IsKeyed = ground arith

abbrev paid : Pilot
paid = (approve_spend world agent (codes "s1")).0

approved_run : Run agent paid
approved_run = approve start world (codes "s1")

run-at_most_once_example :
    transfers paid.log + tally attempt agent.spends
    ≤ transfers agent.log + tally attempt paid.spends
run-at_most_once_example = run-at_most_once approved_run agent-IsKeyed

held_found : find (codes "s1") agent.spends ≡ some held_spend
unfolding find text_dec ℕ_discrete
held_found = refl

run-requests_evolve_example :
    (r' : Spend) × (find (codes "s1") paid.spends ≡ some r') × RowMoves held_spend r'
run-requests_evolve_example =
    run-requests_evolve approved_run agent-IsKeyed (codes "s1") held_spend held_found

execute_spend-idempotent_example :
    execute_spend world (execute_spend world agent (codes "s1")).0 (codes "s1")
    ≡ execute_spend world agent (codes "s1")
execute_spend-idempotent_example =
    execute_spend-idempotent world world agent (codes "s1") agent-IsKeyed

execute_spend-Ended_example :
    Ended
      (codes "s1")
      (execute_spend world agent (codes "s1")).0
      (execute_spend world agent (codes "s1")).1
execute_spend-Ended_example = execute_spend-Ended world agent (codes "s1") refl agent-IsKeyed

approve_spend-cases_example :
    Approval world agent (codes "s1") (approve_spend world agent (codes "s1"))
approve_spend-cases_example = approve_spend-cases world agent (codes "s1") refl agent-IsKeyed

rejects : (reject_spend world agent (codes "s1")).1 ≡ true
unfolding reject_spend any_row text_dec ℕ_discrete
rejects = refl

reject_spend-is_final_example :
    Rejected
      (codes "s1")
      (approve_spend world (reject_spend world agent (codes "s1")).0 (codes "s1")).0
reject_spend-is_final_example =
    reject_spend-is_final world agent _ (codes "s1") agent-IsKeyed rejects
      (approve start world (codes "s1"))

fresh : find (codes "new") agent.spends ≡ none
unfolding find text_dec ℕ_discrete
fresh = refl

nothing_spent : period_sum world agent ≡ some (pos 0)
unfolding checked_from period_amount fits_int64 ◌+ℤ◌
nothing_spent = refl

wallet_send-over_limit_example :
    Waits
      (codes "new")
      (codes "bob")
      (pos 101)
      agent
      (wallet_send world agent (codes "bob") (pos 101) []).0
unfolding fits_int64 ◌+ℤ◌
wallet_send-over_limit_example =
    wallet_send-over_limit world agent (codes "bob") (pos 101) (pos 0) [] refl refl refl fresh
      nothing_spent refl refl

expire_stale_spends-none_left_example :
    (any_row (is_stale (world.clock 0)) (expire_stale_spends world agent).0.spends ≡ false)
    × (transfers (expire_stale_spends world agent).0.log ≡ transfers agent.log)
expire_stale_spends-none_left_example = expire_stale_spends-none_left world agent refl

reconcile-period_spent_example :
    (period_spent world (reconcile_executing_spends world agent) ≡ period_spent world agent)
    × (transfers (reconcile_executing_spends world agent).log ≡ transfers agent.log)
reconcile-period_spent_example = reconcile-period_spent world world agent

amount_to_hex_le-roundtrip_example :
    (length (amount_to_hex_le (pos 1000)) ≡ 32) × (le_value (amount_to_hex_le (pos 1000)) ≡ 1000)
amount_to_hex_le-roundtrip_example = amount_to_hex_le-roundtrip 1000 (omega arith)

wallet_send-budget_example :
    counted world agent (wallet_send world agent (codes "bob") (pos 40) []).0
    ≤ℤ agent.spend_limit_per_period
unfolding fits_int64 ◌+ℤ◌
wallet_send-budget_example =
    wallet_send-budget world agent (codes "bob") 40 [] (pos 0) agent-IsKeyed refl fresh
      nothing_spent refl (omega arith)

abbrev public_recipient : Text
public_recipient = codes "public:ABCDEF0123456789abcdef0123456789ABCDEF0123456789abcdef0123456789"

on_public_rail : (parse_spend_recipient public_recipient).rail ≡ SpendRail.public_rail
unfolding parse_spend_recipient contains starts_with fold_id is_xdigit to_lower
on_public_rail = refl

parse_spend_recipient-public_example :
    (starts_with public_prefix public_recipient ≡ true)
    × ((length (parse_spend_recipient public_recipient).target ≡ 64)
        × (every is_lower_hex (parse_spend_recipient public_recipient).target ≡ true))
parse_spend_recipient-public_example = parse_spend_recipient-public public_recipient on_public_rail

le_hex_to_decimal-amount_to_hex_le_example :
    le_hex_to_decimal (amount_to_hex_le (pos 1000)) ≡ decimal 1000
le_hex_to_decimal-amount_to_hex_le_example = le_hex_to_decimal-amount_to_hex_le 1000 (omega arith)

amount_to_hex_le-u128_le_hex_example : amount_to_hex_le (pos 1000) ≡ u128_le_hex 1000
amount_to_hex_le-u128_le_hex_example = amount_to_hex_le-u128_le_hex 1000
