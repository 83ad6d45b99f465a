-- ===== src/Spending/Ledger.antt =====
-- The spend_requests table: createSpendRequest, periodSpent, spendRequestError and the state writes
-- of pilot-module/src/pilot_spending.cpp, and fundingPublicAccount of
-- pilot-module/src/pilot_identity.cpp.
use logos_pilot.Prelude.{ℕ, ◌+◌, Option, none, some, [], ◌&&◌, if◌then◌else◌}
use logos_pilot.Prelude.Int.{ℤ, pos, ◌-ℤ◌}
use logos_pilot.Prelude.Int64.{wrap_int64}
use logos_pilot.Text.{Text, codes, text_lt}
use logos_pilot.Text.Decimal.{decimal, decimal_ℤ}
use logos_pilot.Table.{find, set_at, insert}
use logos_pilot.Table.Sums.{checked_from}
use logos_pilot.Agent.{Pilot, Spend, Entry, spend_keyed, entry_keyed}
use logos_pilot.Agent.States.{SpendState, is_committed}
use logos_pilot.Agent.World.{World}

abbrev pub not_initialized : Text
not_initialized = codes "{\"error\": \"not initialized\"}"

-- The row that createSpendRequest inserts.
abbrev pub new_spend : World → Text → ℤ → Text → Spend
new_spend w recipient amount reason = record {
  id = w.generated_id;
  recipient = recipient;
  amount = amount;
  reason = reason;
  state = SpendState.created;
  created_at = w.clock 0;
  updated_at = w.clock 0;
  expires_at = w.clock 0 + 3600;
  tx_hash = [];
  error = [];
}

-- Returns the id; a failed INSERT goes unnoticed.
unfoldable pub create_spend_request : World → Pilot → Text → ℤ → Text → Pilot × Text
create_spend_request w p recipient amount reason =
    if p.has_db
    then (
      record p { spends = insert (new_spend w recipient amount reason) p.spends },
      w.generated_id,
    )
    else (p, not_initialized)

-- What a row adds to the sum: `created_at > ?` compares the two texts.
unfoldable pub period_amount : Text → Spend → ℤ
period_amount period_start r =
    if is_committed r.state && text_lt period_start (decimal r.created_at) then r.amount else pos 0

-- The text bound for the start of the rolling period.
unfoldable pub period_start : ℕ → Pilot → Text
period_start now p = decimal_ℤ (wrap_int64 (pos now -ℤ p.spend_period_seconds))

-- `SUM(amount)`; none where the sum overflows, and the step of the statement fails.
abbrev pub period_sum : World → Pilot → Option ℤ
period_sum w p = checked_from (period_amount (period_start (w.clock 0) p)) (pos 0) p.spends

-- `int64_t total = 0`, which only a row replaces.
abbrev pub summed : Option ℤ → ℤ
summed none = pos 0
summed (some s) = s

unfoldable pub period_spent : World → Pilot → ℤ
period_spent w p = if p.has_db then summed (period_sum w p) else pos 0

-- `UPDATE spend_requests SET state = ?, updated_at = ? WHERE id = ?`
abbrev pub with_state : SpendState → ℕ → Spend → Spend
with_state state now r = record r { state = state; updated_at = now }

unfoldable pub set_spend_state : World → Pilot → Text → SpendState → Pilot
set_spend_state w p id state =
    if p.has_db then record p { spends = set_at id (with_state state (w.clock 0)) p.spends } else p

abbrev error_text : Option Spend → Text
error_text none = []
error_text (some r) = r.error

unfoldable pub spend_request_error : Pilot → Text → Text
spend_request_error p id = if p.has_db then error_text (find id p.spends) else []

abbrev value_text : Option Entry → Text
value_text none = []
value_text (some e) = e.value

unfoldable pub funding_public_account : Pilot → Text
funding_public_account p =
    if p.has_db then value_text (find (codes "funding.public_account") p.config) else []
