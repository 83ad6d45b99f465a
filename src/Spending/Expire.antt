-- ===== src/Spending/Expire.antt =====
-- expireStaleSpends and getPendingSpends (pilot-module/src/pilot_spending.cpp).
use logos_pilot.Prelude.{ℕ, Bool, false, List, [], ◌∷◌, ◌++◌, ◌&&◌, ltb, if◌then◌else◌, length}
use logos_pilot.Text.{Text, codes}
use logos_pilot.Table.{update, rows_where}
use logos_pilot.Agent.{Pilot, Spend}
use logos_pilot.Agent.States.{SpendState, OutboundState, is_pending}
use logos_pilot.Agent.World.{World, later}
use logos_pilot.Owner.Channel.{send_to_owner}
use logos_pilot.Tasks.Linked.{resume_inbound_task, advance_linked_outbound_task}
use logos_pilot.Spending.Ledger.{with_state}

-- PENDING: `state IN (…) AND expires_at != '' AND CAST(expires_at AS INTEGER) < ?`. The column is
-- never empty, since createSpendRequest writes it.
abbrev pub is_stale : ℕ → Spend → Bool
is_stale now r = is_pending r.state && ltb r.expires_at now

unfoldable pub lapsed_message : Text → Text
lapsed_message id =
    codes "Spend request " ++ (id ++ codes " expired before approval and was cancelled.")

-- What is done for each id after the UPDATE, in turn.
unfoldable pub announce_expired : World → List Spend → Pilot → Pilot
announce_expired w [] p = p
announce_expired w (r ∷ rs) p =
    let told = (send_to_owner w p (lapsed_message r.id)).0 in
    let resumed = resume_inbound_task w told r.id false (codes "approval expired") in
    announce_expired (later 2 w) rs
      (advance_linked_outbound_task (later 1 w) resumed r.id OutboundState.pay_failed)

-- `now` is the one reading that both statements are given.
abbrev pub expire_rows : ℕ → Pilot → Pilot
expire_rows now p = record p {
  spends = update (is_stale now) (with_state SpendState.expired now) p.spends;
}

unfoldable pub expire_found : World → Pilot → List Spend → Pilot × ℕ
expire_found w p [] = (p, 0)
expire_found w p (r ∷ rs) =
    (announce_expired (later 1 w) (r ∷ rs) (expire_rows (w.clock 0) p), length (r ∷ rs))

unfoldable pub expire_stale_spends : World → Pilot → Pilot × ℕ
unfolding expire_found
expire_stale_spends w p =
    if p.has_db then expire_found w p (rows_where (is_stale (w.clock 0)) p.spends) else (p, 0)

-- The rows that getPendingSpends lists; the statement's ORDER BY is left to its reader.
unfoldable pub get_pending_spends : World → Pilot → Pilot × List Spend
get_pending_spends w p =
    let p' = (expire_stale_spends w p).0 in (p', rows_where (λ r. is_pending r.state) p'.spends)
