-- ===== src/Spending/Execute.antt =====
-- doTransfer, the readers of its result and executeSpend (pilot-module/src/pilot_spending.cpp).
use logos_pilot.Prelude.{
  ℕ, Bool, true, false, Option, none, some, [], ◌∷◌, ◌++◌, take, if◌then◌else◌,
}
use logos_pilot.Prelude.Int.{ℤ, pos, ltb_ℤ}
use logos_pilot.Text.{Text, codes, is_empty}
use logos_pilot.Table.{find, set_at}
use logos_pilot.Agent.{spend_keyed, Pilot, Spend, SpendRail, TransferCall, transfer, sync_to_block}
use logos_pilot.Agent.States.{SpendState, is_completed, is_spent_or_dead}
use logos_pilot.Agent.World.{World, WalletReply}
use logos_pilot.Spending.Recipient.{parse_spend_recipient}
use logos_pilot.Spending.Amount.{amount_to_hex_le}
use logos_pilot.Spending.Ledger.{set_spend_state, funding_public_account}

abbrev pub no_public_account : Text
no_public_account =
    codes
      "{\"success\":false,\"error\":\"no funded public account: funding has not claimed one on this chain yet\"}"

abbrev pub malformed_reply : Text
malformed_reply =
    codes
      "{\"success\":false,\"error\":\"malformed public recipient: expected public:<64 hex chars>\"}"

abbrev pub malformed_recipient : Text
malformed_recipient = codes "malformed public recipient: expected public:<64 hex chars>"

abbrev pub wallet_unavailable : Text
wallet_unavailable = codes "wallet module unavailable"

-- PILOT_TX_TIMEOUT_MS, or four hours.
unfoldable pub tx_timeout_ms : World → ℤ
tx_timeout_ms w = if ltb_ℤ (pos 0) w.tx_timeout_env then w.tx_timeout_env else pos 14400000

-- The call goes to the wallet, and its reply comes back.
abbrev pub wallet_call : (Text → Text → Text → Text) → TransferCall → Pilot → Pilot × Text
wallet_call method c p =
    (record p { log = transfer c ∷ p.log }, method c.from c.target c.amount_hex)

unfoldable pub transfer_on : SpendRail → World → Pilot → Text → Text → Text → Pilot × Text
transfer_on SpendRail.private_keys w p from_public target amount_hex =
    wallet_call w.transfer_private
      (record {
        rail = SpendRail.private_keys;
        from = p.agent_account_id;
        target = target;
        amount_hex = amount_hex;
        timeout_ms = tx_timeout_ms w;
      })
      p
transfer_on SpendRail.private_owned w p from_public target amount_hex =
    wallet_call w.transfer_private_owned
      (record {
        rail = SpendRail.private_owned;
        from = p.agent_account_id;
        target = target;
        amount_hex = amount_hex;
        timeout_ms = tx_timeout_ms w;
      })
      p
transfer_on SpendRail.public_rail w p from_public target amount_hex =
    if is_empty from_public
    then (p, no_public_account)
    else wallet_call w.transfer_public
        (record {
          rail = SpendRail.public_rail;
          from = from_public;
          target = target;
          amount_hex = amount_hex;
          timeout_ms = pos 120000;
        })
        p
transfer_on SpendRail.invalid w p from_public target amount_hex = (p, malformed_reply)

unfoldable pub do_transfer : World → Pilot → Text → Text → ℤ → Pilot × Text
unfolding transfer_on
do_transfer w p from_public recipient amount =
    let t = parse_spend_recipient recipient in
    transfer_on t.rail w p from_public t.target (amount_to_hex_le amount)

abbrev pub reply_success : Option WalletReply → Bool
reply_success none = false
reply_success (some r) = r.success

unfoldable pub transfer_succeeded : World → Text → Bool
transfer_succeeded w result = reply_success (w.read_reply result)

abbrev reply_hash : Option WalletReply → Text
reply_hash none = []
reply_hash (some r) = r.tx_hash

unfoldable pub transfer_tx_hash : World → Text → Text
transfer_tx_hash w result = reply_hash (w.read_reply result)

abbrev reply_error : Text → Option WalletReply → Text
reply_error result none = codes "unparseable wallet reply: " ++ take 200 result
reply_error result (some r) =
    if is_empty r.error then codes "wallet reported failure without a reason" else r.error

unfoldable pub transfer_error : World → Text → Text
transfer_error w result =
    if is_empty result
    then codes "wallet returned no reply (transport failure or timeout)"
    else reply_error result (w.read_reply result)

-- The one terminal write: state, hash and reason together.
abbrev pub finished : Bool → Text → Text → ℕ → Spend → Spend
finished ok tx_hash error now r = record r {
  state = if ok then SpendState.completed else SpendState.tx_failed;
  tx_hash = tx_hash;
  error = error;
  updated_at = now;
}

unfoldable pub finish : ℕ → Pilot → Text → Bool → Text → Text → Pilot × Bool
finish now p id ok tx_hash error =
    (record p { spends = set_at id (finished ok tx_hash error now) p.spends }, ok)

-- The wallet is caught up to the chain's head, if it tells one.
abbrev pub sync_wallet : World → Pilot → Pilot
sync_wallet w p = elim w.block_height [
  | none ↦ p
  | some head ↦ record p { log = sync_to_block head ∷ p.log }
]

abbrev pub settle_transfer : World → Text → Pilot × Text → Pilot × Bool
settle_transfer w id (p, result) =
    let ok = transfer_succeeded w result in
    finish (w.clock 1) p id ok (transfer_tx_hash w result)
      (if ok then [] else transfer_error w result)

abbrev pub is_invalid : SpendRail → Bool
is_invalid SpendRail.invalid = true
is_invalid _ = false

-- From the EXECUTING write on; `clock 0` stamps that write and `clock 1` the terminal one.
unfoldable pub run_spend : World → Pilot → Spend → Pilot × Bool
unfolding set_spend_state finish do_transfer
run_spend w p r =
    let p' = set_spend_state w p r.id SpendState.executing in
    if is_invalid (parse_spend_recipient r.recipient).rail
    then finish (w.clock 1) p' r.id false [] malformed_recipient
    else if w.context_ready
    then settle_transfer w r.id
        (do_transfer w (sync_wallet w p') (funding_public_account p') r.recipient r.amount)
    else finish (w.clock 1) p' r.id false [] wallet_unavailable

unfoldable pub execute_row : World → Pilot → Option Spend → Pilot × Bool
execute_row w p none = (p, false)
execute_row w p (some r) =
    if is_completed r.state
    then (p, true)
    else if is_spent_or_dead r.state
    then (p, false)
    else run_spend w p r

unfoldable pub execute_spend : World → Pilot → Text → Pilot × Bool
unfolding execute_row
execute_spend w p id = if p.has_db then execute_row w p (find id p.spends) else (p, false)
