-- ===== src/Spending/Recover.antt =====
-- reconcileExecutingSpends and recoverPendingTransactions (pilot-module/src/pilot_spending.cpp).
use logos_pilot.Prelude.{Bool, false, List, [], ◌∷◌, ◌++◌, ◌&&◌, ◌||◌, not, if◌then◌else◌}
use logos_pilot.Text.{Text, codes, same, is_empty}
use logos_pilot.Text.Decimal.{decimal_ℤ}
use logos_pilot.Table.{update, any_row, rows_where}
use logos_pilot.Agent.{Pilot, Spend}
use logos_pilot.Agent.States.{SpendState, OutboundState, is_executing, is_held}
use logos_pilot.Agent.World.{World, later}
use logos_pilot.Owner.Channel.{send_to_owner}
use logos_pilot.Tasks.Linked.{resume_inbound_task, advance_linked_outbound_task}
use logos_pilot.Spending.Ledger.{with_state}
use logos_pilot.Spending.Expire.{expire_stale_spends}

abbrev pub interrupted : Text
interrupted =
    codes
      "interrupted mid-execution before restart; funds may or may not have moved - verify on chain"

-- The three bytes of U+2014.
abbrev em_dash : Text
em_dash = 0xE2 ∷ 0x80 ∷ 0x94 ∷ []

hash_note : Text → Text
hash_note hash = if is_empty hash then [] else codes " tx_hash: " ++ (hash ++ codes ".")

unfoldable pub stranded_message : Spend → Text
unfolding hash_note
stranded_message r =
    codes "Spend "
    ++ (r.id
        ++ (codes " was interrupted mid-execution (amount "
            ++ (decimal_ℤ r.amount
                ++ (codes " LEZ to "
                    ++ (r.recipient
                        ++ (codes ")."
                            ++ (hash_note r.tx_hash
                                ++ (codes
                                      " The wallet exposes no transaction-status query, so the outcome cannot be auto-reconciled "
                                    ++ (em_dash
                                        ++ codes
                                            " the funds MAY or MAY NOT have moved. The amount stays counted against the budget until you confirm on chain.")))))))))

-- `WHERE id = ? AND state = 'EXECUTING'`
abbrev pub executing_row : Text → Spend → Bool
executing_row id r = same r.id id && is_executing r.state

abbrev pub strand : World → Text → Pilot → Pilot
strand w id p = record p {
  spends = update (executing_row id) (with_state SpendState.tx_unknown (w.clock 0)) p.spends;
}

unfoldable pub surface : World → Spend → Pilot → Pilot
surface w r p =
    let advanced = advance_linked_outbound_task w p r.id OutboundState.pay_unresolved in
    let resumed = resume_inbound_task (later 1 w) advanced r.id false interrupted in
    (send_to_owner w resumed (stranded_message r)).0

unfoldable pub reconcile_row : World → Spend → Pilot → Pilot
unfolding surface
reconcile_row w r p =
    if any_row (executing_row r.id) p.spends then surface (later 1 w) r (strand w r.id p) else p

unfoldable pub reconcile_rows : World → List Spend → Pilot → Pilot
unfolding reconcile_row
reconcile_rows w [] p = p
reconcile_rows w (r ∷ rs) p = reconcile_rows (later 3 w) rs (reconcile_row w r p)

unfoldable pub reconcile_executing_spends : World → Pilot → Pilot
reconcile_executing_spends w p =
    if p.has_db
    then reconcile_rows w (rows_where (λ r. is_executing r.state && not (is_empty r.id)) p.spends) p
    else p

unfoldable pub recovered_message : Spend → Text
recovered_message r =
    codes "Pending approval (recovered):\nAmount: "
    ++ (decimal_ℤ r.amount
        ++ (codes " LEZ\nTo: "
            ++ (r.recipient ++ (codes "\n/approve " ++ (r.id ++ (codes "\n/reject " ++ r.id))))))

unfoldable pub announce_held : World → List Spend → Pilot → Pilot
announce_held w [] p = p
announce_held w (r ∷ rs) p = announce_held w rs (send_to_owner w p (recovered_message r)).0

-- The owner is asked again about each request that still waits.
unfoldable pub recover_pending_transactions : World → Pilot → Pilot
unfolding announce_held
recover_pending_transactions w p =
    if not p.has_db || not w.context_ready
    then p
    else let p' = (expire_stale_spends w p).0 in
      announce_held w (rows_where (λ r. is_held r.state) p'.spends) p'
