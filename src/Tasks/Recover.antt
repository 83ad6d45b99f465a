-- ===== src/Tasks/Recover.antt =====
-- What restarts do to task rows: inboundTasksRecover (pilot-module/src/pilot_a2a_inbox.cpp),
-- outboundTasksRecover and a2aEvictDiscoveryCache (pilot-module/src/pilot_a2a.cpp).
use logos_pilot.Prelude.{
  ℕ, Bool, Option, none, some, List, [], ◌∷◌, ◌&&◌, ◌||◌, not, take, if◌then◌else◌,
}
use logos_pilot.Text.{Text, codes, same, is_empty}
use logos_pilot.Table.{find, update, rows_where, delete, any_row}
use logos_pilot.Agent.{Pilot, Spend, OutboundTask, Discovered, Effect, subscribe, spend_keyed}
use logos_pilot.Agent.States.{
  SpendState, InboundState, OutboundState, is_in_flight, is_settling, is_submitted, is_open,
}
use logos_pilot.Agent.World.{World, later}
use logos_pilot.Tasks.Inbound.Request.{Env}
use logos_pilot.Tasks.Inbound.Limits.{evict_old_inbound_tasks}

abbrev pub restarted_json : Text
restarted_json = codes "{\"error\":\"agent restarted\"}"

-- The one UPDATE over the tasks that were accepted or working.
abbrev pub fail_in_flight : ℕ → Pilot → Pilot
fail_in_flight now p = record p {
  inbound =
      update (λ r. is_in_flight r.state)
        (λ r. record r {
          state = InboundState.failed;
          result_json = restarted_json;
          updated_at = now;
        })
        p.inbound;
}

abbrev pub discovered_agents_max : ℕ
discovered_agents_max = 1000

-- A card is kept for a task that is still open, or as one of the newest, in the order that SQLite
-- returns.
abbrev pub is_kept : List OutboundTask → List Discovered → Discovered → Bool
is_kept tasks newest row =
    any_row (λ t. same t.agent_address row.npk && is_open t.state) tasks
    || any_row (λ d. same d.npk row.npk) newest

unfoldable pub evict_discovery_cache : (List Discovered → List Discovered) → Pilot → Pilot
evict_discovery_cache newest_first p =
    if p.has_db
    then record p {
      discovered =
          delete
            (λ row.
              not (is_kept p.outbound (take discovered_agents_max (newest_first p.discovered)) row))
            p.discovered;
    }
    else p

unfoldable pub inbound_tasks_recover :
    World → Env → (List Discovered → List Discovered) → Pilot → Pilot
inbound_tasks_recover w e newest_first p =
    if p.has_db
    then evict_discovery_cache newest_first
        (evict_old_inbound_tasks e (fail_in_flight (w.clock 0) p) (w.clock 1))
    else p

-- Step 0: a row that was claimed but never linked may be claimed again.
abbrev pub heal : ℕ → Pilot → Pilot
heal now p = record p {
  outbound =
      update (λ r. is_settling r.state && is_empty r.spend_request_id)
        (λ r. record r { state = OutboundState.submitted; updated_at = now }) p.outbound;
}

abbrev pub subscribe_all : List OutboundTask → List Effect → List Effect
subscribe_all [] log = log
subscribe_all (r ∷ rs) log =
    subscribe_all rs (if is_empty r.reply_topic then log else subscribe r.reply_topic ∷ log)

-- Step 1: the reply topics of the open rows.
abbrev pub resubscribe : World → Pilot → Pilot
resubscribe w p =
    if w.context_ready
    then record p { log = subscribe_all (rows_where (λ r. is_submitted r.state) p.outbound) p.log }
    else p

-- What the state of the linked spend says about the task.
abbrev pub settled_as : Option Spend → Option OutboundState
settled_as none = none
settled_as (some s) = elim s.state [
  | SpendState.completed ↦ some OutboundState.paid
  | SpendState.tx_failed ↦ some OutboundState.pay_failed
  | SpendState.rejected ↦ some OutboundState.pay_failed
  | SpendState.expired ↦ some OutboundState.pay_failed
  | _ ↦ none
]

-- What a row is settled as: nothing while its spend is under way, or where it has none.
abbrev pub task_outcome : Pilot → OutboundTask → Option OutboundState
task_outcome p r =
    if is_empty r.spend_request_id then none else settled_as (find r.spend_request_id p.spends)

abbrev pub write_settled : ℕ → Text → OutboundState → Pilot → Pilot
write_settled now id state p = record p {
  outbound =
      update (λ r. same r.id id && is_settling r.state)
        (λ r. record r { state = state; updated_at = now }) p.outbound;
}

-- The write takes a reading of the clock, a row that is skipped none.
abbrev pub settle_task : World → Text → Option OutboundState → Pilot → World × Pilot
settle_task w id none p = (w, p)
settle_task w id (some state) p = (later 1 w, write_settled (w.clock 0) id state p)

-- Step 2, row by row.
unfoldable pub reconcile_tasks : World → List OutboundTask → Pilot → Pilot
reconcile_tasks w [] p = p
reconcile_tasks w (r ∷ rs) p =
    let (w', p') = settle_task w r.id (task_outcome p r) p in reconcile_tasks w' rs p'

-- Steps 0 and 1.
abbrev pub rearm : World → Pilot → Pilot
rearm w p = resubscribe w (heal (w.clock 0) p)

unfoldable pub outbound_tasks_recover : World → Pilot → Pilot
outbound_tasks_recover w p =
    if p.has_db
    then reconcile_tasks (later 1 w)
        (rows_where (λ r. is_settling r.state && not (is_empty r.id)) (rearm w p).outbound)
        (rearm w p)
    else p
